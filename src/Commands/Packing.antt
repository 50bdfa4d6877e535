-- ===== src/Commands/Packing.antt =====
-- newCommand, and what the accessors of a command give back.
use go_brrr.Prelude.{
  ℕ, ◌+◌, ◌-◌, ◌*◌, ◌/◌, ◌%◌, ◌^◌, ◌≤◌, ◌<◌, ◌≡◌, refl, Bool, true, not, ◌&&◌, ltb, ◌==◌,
  if◌then◌else◌, arith, bit_and, bit_or, ap₂, sym, ◌∙◌, ==_iff,
}
use go_brrr.Prelude.Int.{ℤ, pos, negsuc, to_word}
use go_brrr.Prelude.BitOps.{bit_and_mask, bit_or-shifted}
use go_brrr.Prelude.Tables.{all_below, all_below_sound}
use go_brrr.CmdLut.{cmd_lut_at}
use go_brrr.DistanceParams.{init_distance_params}
use go_brrr.Commands.{
  Command, CommandConfig, new_command, copy_length, copy_len_code, sign_extend, get_insert_len_code,
  get_copy_len_code, distance_code, uses_last_distance, distance_context,
}
use go_brrr.Commands.Lengths.{get_insert_len_code-Covers, get_copy_len_code-Covers}
use go_brrr.Commands.Grid.{CellIs, combine_length_codes-CellIs, is_negative}
use go_brrr.Commands.Distances.{distance_code-prefix_encode}

-- The length that the length code stands for: the copy length with its delta.
abbrev pub coded_len : ℕ → ℤ → ℕ
coded_len copy_len (pos d) = copy_len + d
coded_len copy_len (negsuc d) = copy_len - (d + 1)

-- The deltas that seven bits hold.
abbrev pub FitsDelta : ℤ → Type 0
FitsDelta (pos d) = d < 64
FitsDelta (negsuc d) = d < 64

-- What the format allows of a command, and the encoder keeps to.
pub record IsCommandConfig (cfg : CommandConfig) : Type 0 where
  pub insert_lt : cfg.insert_len < 22594 + 2 ^ 24
  pub copy_lt : cfg.copy_len < 2 ^ 25
  pub delta_fits : FitsDelta cfg.copy_len_delta
  pub coded_ge : 2 ≤ coded_len cfg.copy_len cfg.copy_len_delta
  pub coded_lt : coded_len cfg.copy_len cfg.copy_len_delta < 2118 + 2 ^ 24
  pub postfix_le : cfg.postfix_bits ≤ 3
  pub direct_le : cfg.num_direct_codes ≤ 120
  pub distance_le :
      cfg.distance_code
      ≤ (init_distance_params cfg.postfix_bits cfg.num_direct_codes).max_distance + 15

effective_len :
    (copy : ℕ) (delta : ℤ)
    → copy < 2 ^ 25
    → FitsDelta delta
    → 2 ≤ coded_len copy delta
    → (copy + to_word 64 delta) % 2 ^ 64 ≡ coded_len copy delta
effective_len copy (pos d) h f g = omega arith
effective_len copy (negsuc d) h f g = omega arith

packed_len :
    (copy : ℕ) (delta : ℤ)
    → copy < 2 ^ 25
    → bit_or (copy % 2 ^ 32) (to_word 8 delta * 2 ^ 25 % 2 ^ 32)
      ≡ copy + to_word 8 delta % 128 * 2 ^ 25
packed_len copy delta h =
    ap₂ bit_or {x = copy % 2 ^ 32} {y = copy} (omega arith) low_seven
    ∙ bit_or-shifted 25 copy (to_word 8 delta % 128) h
  where
    low_seven : to_word 8 delta * 2 ^ 25 % 2 ^ 32 ≡ to_word 8 delta % 128 * 2 ^ 25
    low_seven = omega arith

-- The seven-bit field, sign-extended to a byte.
modifier_table :
    all_below 128 (λ m. bit_or m (bit_and m 0x40 * 2) % 256 == (if ltb m 64 then m else m + 128))
    ≡ true
unfolding all_below
modifier_table = refl

modifier_byte :
    (m : ℕ) → m < 128 → bit_or m (bit_and m 0x40 * 2) % 256 ≡ (if ltb m 64 then m else m + 128)
modifier_byte m h = (==_iff _ _).0 (all_below_sound 128 _ m modifier_table h)

copy_len_code_field :
    (c : Command) (copy m : ℕ)
    → copy < 2 ^ 25
    → m < 128
    → c.copy_len ≡ copy + m * 2 ^ 25
    → (copy_length c ≡ copy)
      × (copy_len_code c ≡ (copy + sign_extend (if ltb m 64 then m else m + 128)) % 2 ^ 32)
unfolding copy_length copy_len_code
copy_len_code_field c copy m hc hm e = (low, ap₂ both low byte)
  where
    low : bit_and c.copy_len 0x1ffffff ≡ copy
    low = omega (arith, bit_and_mask 25 c.copy_len)

    high : c.copy_len / 2 ^ 25 ≡ m
    high = omega arith

    byte :
        bit_or (c.copy_len / 2 ^ 25) (bit_and (c.copy_len / 2 ^ 25) 0x40 * 2) % 256
        ≡ (if ltb m 64 then m else m + 128)
    byte = rw high (modifier_byte m hm)

    both : ℕ → ℕ → ℕ
    both a b = (a + sign_extend b) % 2 ^ 32

extended :
    (copy : ℕ) (delta : ℤ)
    → copy < 2 ^ 25
    → FitsDelta delta
    → 2 ≤ coded_len copy delta
    → let m = to_word 8 delta % 128 in
      (copy + sign_extend (if ltb m 64 then m else m + 128)) % 2 ^ 32 ≡ coded_len copy delta
extended copy (pos d) h f g = ground arith
extended copy (negsuc d) h f g = ground arith

-- What the command tells a decoder that looks its symbol up in CmdLut.
pub record Decodes (cfg : CommandConfig) (c : Command) : Type 0 where
  pub insert_back : c.insert_len ≡ cfg.insert_len
  pub copy_back : copy_length c ≡ cfg.copy_len
  pub coded_back : copy_len_code c ≡ coded_len cfg.copy_len cfg.copy_len_delta
  pub distance_back : distance_code c cfg.num_direct_codes cfg.postfix_bits ≡ cfg.distance_code
  pub insert_range :
      let e = cmd_lut_at c.cmd_prefix in
      (e.insert_len_offset ≤ c.insert_len)
      × (c.insert_len < e.insert_len_offset + 2 ^ e.insert_len_extra_bits)
  pub copy_range :
      let e = cmd_lut_at c.cmd_prefix in
      (e.copy_len_offset ≤ copy_len_code c)
      × (copy_len_code c < e.copy_len_offset + 2 ^ e.copy_len_extra_bits)
  pub symbol_lt : c.cmd_prefix < 704
  pub reuse : uses_last_distance c ≡ true → bit_and c.dist_prefix 0x3ff ≡ 0
  pub reads_distance :
      is_negative (cmd_lut_at c.cmd_prefix).distance_code ≡ not (uses_last_distance c)
  pub same_context : (cmd_lut_at c.cmd_prefix).context ≡ distance_context c

-- The copy fields of a new command.
copy_fields :
    (cfg : CommandConfig)
    → IsCommandConfig cfg
    → (copy_length (new_command cfg) ≡ cfg.copy_len)
      × (copy_len_code (new_command cfg) ≡ coded_len cfg.copy_len cfg.copy_len_delta)
unfolding new_command
copy_fields cfg v =
    let m = to_word 8 cfg.copy_len_delta % 128 in
    let (low, code) =
      copy_len_code_field (new_command cfg) cfg.copy_len m v.copy_lt (omega arith)
        (packed_len cfg.copy_len cfg.copy_len_delta v.copy_lt) in
    (low, code ∙ extended cfg.copy_len cfg.copy_len_delta v.copy_lt v.delta_fits v.coded_ge)

-- The cell of a new command's symbol.
symbol_cell :
    (cfg : CommandConfig)
    → IsCommandConfig cfg
    → CellIs
        (get_insert_len_code cfg.insert_len)
        (get_copy_len_code (coded_len cfg.copy_len cfg.copy_len_delta))
        (bit_and (new_command cfg).dist_prefix 0x3ff == 0)
        (new_command cfg).cmd_prefix
unfolding new_command
symbol_cell cfg v =
    rw (effective_len cfg.copy_len cfg.copy_len_delta v.copy_lt v.delta_fits v.coded_ge) (
      combine_length_codes-CellIs _ _ _ (get_insert_len_code-Covers _ v.insert_lt).0
        (get_copy_len_code-Covers _ v.coded_ge v.coded_lt).0)

new_command-distance :
    (cfg : CommandConfig)
    → IsCommandConfig cfg
    → distance_code (new_command cfg) cfg.num_direct_codes cfg.postfix_bits ≡ cfg.distance_code
unfolding new_command
new_command-distance cfg v =
    distance_code-prefix_encode cfg.distance_code cfg.num_direct_codes cfg.postfix_bits
      (new_command cfg) v.postfix_le v.direct_le v.distance_le refl

new_command-insert_len :
    (cfg : CommandConfig) → IsCommandConfig cfg → (new_command cfg).insert_len ≡ cfg.insert_len
unfolding new_command
new_command-insert_len cfg v = omega (arith, v.insert_lt)

-- Every command that the encoder may build can be read back: its fields return the configuration,
-- and the decoder's table entry at its symbol has ranges that hold its insert length and its coded
-- copy length, tells a reused distance from one that follows, and gives the same distance context.
pub new_command-Decodes :
    (cfg : CommandConfig) → IsCommandConfig cfg → Decodes cfg (new_command cfg)
unfolding uses_last_distance distance_context
new_command-Decodes cfg v =
    let cell = symbol_cell cfg v in
    let (copied, coded) = copy_fields cfg v in
    let inserted = new_command-insert_len cfg v in
    record {
      insert_back = inserted;
      copy_back = copied;
      coded_back = coded;
      distance_back = new_command-distance cfg v;
      insert_range =
          rw (inserted, cell.insert_base, cell.insert_bits)
            (
              (get_insert_len_code-Covers _ v.insert_lt).1,
              (get_insert_len_code-Covers _ v.insert_lt).2,
            );
      copy_range =
          rw (coded, cell.copy_base, cell.copy_bits)
            (
              (get_copy_len_code-Covers _ v.coded_ge v.coded_lt).1,
              (get_copy_len_code-Covers _ v.coded_ge v.coded_lt).2,
            );
      symbol_lt = cell.in_table;
      reuse = λ h. reused (bit_and (new_command cfg).dist_prefix 0x3ff) _ _ (sym h ∙ cell.reuse);
      reads_distance = cell.reads_distance;
      same_context = cell.same_context;
    }
  where
    reused : (d : ℕ) (a b : Bool) → true ≡ ((d == 0) && a && b) → d ≡ 0
    reused d a b h = ground arith
