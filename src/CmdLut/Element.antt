-- ===== src/CmdLut/Element.antt =====
-- The entry type of the command table of internal/core/cmdlut.go.
use go_brrr.Prelude.{ℕ}
use go_brrr.Prelude.Int.{ℤ}

pub record CmdLutElement : Type 0 where
  pub insert_len_extra_bits : ℕ
  pub copy_len_extra_bits : ℕ
  pub distance_code : ℤ
  pub context : ℕ
  pub insert_len_offset : ℕ
  pub copy_len_offset : ℕ

abbrev pub row : ℕ → ℕ → ℤ → ℕ → ℕ → ℕ → CmdLutElement
row a b c d e f = record {
  insert_len_extra_bits = a;
  copy_len_extra_bits = b;
  distance_code = c;
  context = d;
  insert_len_offset = e;
  copy_len_offset = f;
}
