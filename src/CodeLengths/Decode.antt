-- ===== src/CodeLengths/Decode.antt =====
-- processSingleCodeLength, processRepeatedCodeLength and the loop around them of decode.go. The
-- fields of metablockHeaderArena that hold the symbols read so far are the record Assigned, the
-- others the record LengthReader. An array is a function of the index; `next_symbol` holds the
-- index into `symbol_lists`, which is the source's value plus symListBase = 16.
use go_brrr.Prelude.{
  ℕ, zero, suc, ◌+◌, ◌-◌, ◌*◌, ◌/◌, ◌%◌, ◌^◌, List, [], ◌∷◌, ◌&&◌, ◌==◌, ltb, if◌then◌else◌,
}
use go_brrr.CodeLengths.Encode.{Code, repeat_previous_code_length, initial_repeated_code_length}

unfoldable pub update : (ℕ → ℕ) → ℕ → ℕ → ℕ → ℕ
update f i v j = if i == j then v else f j

-- `a - b` on a uint.
unfoldable pub sub64 : ℕ → ℕ → ℕ
sub64 a b = (a + (2 ^ 64 - b % 2 ^ 64)) % 2 ^ 64

pub record Assigned : Type 0 where
  pub symbol : ℕ
  pub space : ℕ
  pub next_symbol : ℕ → ℕ
  pub symbol_lists : ℕ → ℕ
  pub code_length_histo : ℕ → ℕ

pub record LengthReader : Type 0 where
  pub repeat : ℕ
  pub repeat_code_len : ℕ
  pub prev_code_len : ℕ
  pub assigned : Assigned

-- One symbol with the code length.
unfoldable pub assign : ℕ → Assigned → Assigned
assign code_len a = if code_len == 0 then record a { symbol = a.symbol + 1 } else record {
  symbol = a.symbol + 1;
  space = sub64 a.space (32768 / 2 ^ code_len);
  next_symbol = update a.next_symbol code_len (a.symbol + 16);
  symbol_lists = update a.symbol_lists (a.next_symbol code_len) (a.symbol % 2 ^ 16);
  code_length_histo =
      update a.code_length_histo code_len ((a.code_length_histo code_len + 1) % 2 ^ 16);
}

unfoldable pub process_single_code_length : ℕ → LengthReader → LengthReader
process_single_code_length code_len h = record h {
  repeat = 0;
  prev_code_len = if code_len == 0 then h.prev_code_len else code_len;
  assigned = assign code_len h.assigned;
}

-- The loop from `sym` that links delta symbols after the slot `next`: the slot of the last and the
-- lists.
unfoldable pub link : ℕ → ℕ → ℕ → (ℕ → ℕ) → ℕ × (ℕ → ℕ)
link zero sym next lists = (next, lists)
link (suc delta) sym next lists = link delta (sym + 1) (sym + 16) (update lists next (sym % 2 ^ 16))

-- delta symbols with the code length.
unfoldable pub assign_run : ℕ → ℕ → Assigned → Assigned
assign_run code_len delta a =
    let linked = link delta a.symbol (a.next_symbol code_len) a.symbol_lists in
    if code_len == 0 then record a { symbol = a.symbol + delta } else record {
      symbol = a.symbol + delta;
      space = sub64 a.space (delta * 2 ^ (15 - code_len) % 2 ^ 64);
      next_symbol = update a.next_symbol code_len linked.0;
      symbol_lists = linked.1;
      code_length_histo =
          update a.code_length_histo code_len
            ((a.code_length_histo code_len + delta % 2 ^ 16) % 2 ^ 16);
    }

-- The run so far, one more digit of `extra_bits` bits at its end. A run before is of at least 3, so
-- nothing is lost in the subtraction.
unfoldable pub extend_repeat : ℕ → ℕ → ℕ → ℕ
extend_repeat old extra_bits repeat_delta =
    (if old == 0 then 0 else (old - 2) * 2 ^ extra_bits) + (repeat_delta + 3)

unfoldable pub process_repeated_code_length : ℕ → ℕ → ℕ → LengthReader → LengthReader
process_repeated_code_length code_len repeat_delta alphabet_size h =
    let previous? = code_len == repeat_previous_code_length in
    let extra_bits = if previous? then 2 else 3 in
    let new_len = if previous? then h.prev_code_len else 0 in
    let old_repeat = if h.repeat_code_len == new_len then h.repeat else 0 in
    let repeat = extend_repeat old_repeat extra_bits repeat_delta in
    let delta = repeat - old_repeat in
    record h {
      repeat = repeat;
      repeat_code_len = new_len;
      assigned =
          if ltb alphabet_size (h.assigned.symbol + delta)
          then record h.assigned { symbol = alphabet_size; space = 0xFFFFF }
          else assign_run new_len delta h.assigned;
    }

-- One symbol of the code length alphabet, with its extra bits.
unfoldable pub process : ℕ → Code → LengthReader → LengthReader
process alphabet_size code h =
    if ltb code.0 repeat_previous_code_length
    then process_single_code_length code.0 h
    else process_repeated_code_length code.0 code.1 alphabet_size h

-- The loop of readSymbolCodeLengths over the symbols that the table gives it: while symbols are
-- missing and space is left. What it does not read is left.
unfoldable pub read_symbol_code_lengths : ℕ → List Code → LengthReader → List Code × LengthReader
read_symbol_code_lengths alphabet_size [] h = ([], h)
read_symbol_code_lengths alphabet_size (code ∷ codes) h =
    let rest = read_symbol_code_lengths alphabet_size codes (process alphabet_size code h) in
    if ltb h.assigned.symbol alphabet_size && ltb 0 h.assigned.space
    then rest
    else (code ∷ codes, h)

-- As readHuffmanCode sets the fields before the symbols are read; what was in the lists before
-- stays after the first 16 slots.
unfoldable pub initial_assigned : (ℕ → ℕ) → Assigned
initial_assigned old = record {
  symbol = 0;
  space = 32768;
  next_symbol = λ i. i;
  symbol_lists = λ i. if ltb i 16 then 0xFFFF else old i;
  code_length_histo = λ i. 0;
}

unfoldable pub initial_reader : (ℕ → ℕ) → LengthReader
initial_reader old = record {
  repeat = 0;
  repeat_code_len = 0;
  prev_code_len = initial_repeated_code_length;
  assigned = initial_assigned old;
}
