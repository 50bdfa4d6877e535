-- ===== src/Commands/Grid.antt =====
-- combineLengthCodes, the encoder's symbol, against the decoder's table CmdLut at that symbol.
use go_brrr.Prelude.{ℕ, ◌<◌, ◌≡◌, refl, Bool, true, false, not, ◌&&◌, ltb, ◌==◌, get_or, arith, sym}
use go_brrr.Prelude.Int.{ℤ, pos, negsuc}
use go_brrr.Prelude.Tables.{all_below, all_below_sound}
use go_brrr.CmdLut.{cmd_lut, cmd_lut_at}
use go_brrr.Commands.{combine_length_codes, context_of}
use go_brrr.Commands.Lengths.{insert_offset, insert_extra, copy_offset, copy_extra}

-- The decoder reads a distance symbol exactly where the table's distance code is negative.
abbrev pub is_negative : ℤ → Bool
is_negative (pos n) = false
is_negative (negsuc n) = true

-- What the decoder looks up at the symbol for an insert code and a copy code.
pub record CellIs (ins copy : ℕ) (use_last : Bool) (symbol : ℕ) : Type 0 where
  pub in_table : symbol < 704
  pub insert_bits : (cmd_lut_at symbol).insert_len_extra_bits ≡ get_or insert_extra ins 0
  pub insert_base : (cmd_lut_at symbol).insert_len_offset ≡ get_or insert_offset ins 0
  pub copy_bits : (cmd_lut_at symbol).copy_len_extra_bits ≡ get_or copy_extra copy 0
  pub copy_base : (cmd_lut_at symbol).copy_len_offset ≡ get_or copy_offset copy 0
  pub reuse : ltb symbol 128 ≡ (use_last && ltb ins 8 && ltb copy 16)
  pub reads_distance : is_negative (cmd_lut_at symbol).distance_code ≡ not (ltb symbol 128)
  pub same_context : (cmd_lut_at symbol).context ≡ context_of symbol

same : Bool → Bool → Bool
same true b = b
same false b = not b

cell_ok : Bool → ℕ → ℕ → Bool
cell_ok use_last ins copy =
    let symbol = combine_length_codes ins copy use_last in
    let e = cmd_lut_at symbol in
    ltb symbol 704
    && (e.insert_len_extra_bits == get_or insert_extra ins 0
        && (e.insert_len_offset == get_or insert_offset ins 0
            && (e.copy_len_extra_bits == get_or copy_extra copy 0
                && (e.copy_len_offset == get_or copy_offset copy 0
                    && (same (ltb symbol 128) (use_last && ltb ins 8 && ltb copy 16)
                        && (same (is_negative e.distance_code) (not (ltb symbol 128))
                            && e.context == context_of symbol))))))

grid_ok : Bool → Bool
grid_ok use_last = all_below 24 (λ ins. all_below 24 (λ copy. cell_ok use_last ins copy))

grid_with_last : grid_ok true ≡ true
unfolding grid_ok cell_ok same all_below combine_length_codes cmd_lut_at cmd_lut context_of
grid_with_last = refl

grid_without_last : grid_ok false ≡ true
unfolding grid_ok cell_ok same all_below combine_length_codes cmd_lut_at cmd_lut context_of
grid_without_last = refl

grid-all : (use_last : Bool) → grid_ok use_last ≡ true
grid-all true = grid_with_last
grid-all false = grid_without_last

grid-cell_ok :
    (use_last : Bool) (ins copy : ℕ) → ins < 24 → copy < 24 → cell_ok use_last ins copy ≡ true
unfolding grid_ok
grid-cell_ok use_last ins copy hi hc =
    all_below_sound 24 (cell_ok use_last ins) copy
      (all_below_sound 24 (λ i. all_below 24 (cell_ok use_last i)) ins (grid-all use_last) hi) hc

same-eq : (a b : Bool) → same a b ≡ true → a ≡ b
unfolding same
same-eq true b h = sym h
same-eq false true h = cc
same-eq false false h = refl

-- At every pair of length codes the decoder's table has, under the encoder's symbol, the ranges of
-- the two codes and the encoder's distance context. The symbol is below 128, which stands for a
-- reused distance, exactly where the encoder asked for it and both codes are small; elsewhere the
-- table tells the decoder to read a distance.
pub combine_length_codes-CellIs :
    (use_last : Bool) (ins copy : ℕ)
    → ins < 24
    → copy < 24
    → CellIs ins copy use_last (combine_length_codes ins copy use_last)
unfolding cell_ok
combine_length_codes-CellIs use_last ins copy hi hc =
    let symbol = combine_length_codes ins copy use_last in
    let e = cmd_lut_at symbol in
    ground (
      arith,
      grid-cell_ok use_last ins copy hi hc,
      same-eq (ltb symbol 128) (use_last && ltb ins 8 && ltb copy 16),
      same-eq (is_negative e.distance_code) (not (ltb symbol 128)),
    )
