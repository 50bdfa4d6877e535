-- ===== src/Context.antt =====
-- Literal contexts (internal/core/context.go): the table of 4 modes × 512 bytes, as the eight
-- regions of 256 bytes that a mode and a preceding byte select.
mod Simple
mod Classes
pub mod Ids
use go_brrr.Prelude.{ℕ, ◌+◌, ◌*◌, List, [], ◌∷◌, get_or, bit_or}
use go_brrr.Context.Simple.{lsb6_p1, lsb6_p2, msb6_p1, msb6_p2}
use go_brrr.Context.Classes.{utf8_p1, utf8_p2, signed_p1, signed_p2}

unfoldable pub context_lookup_table : List (List ℕ)
context_lookup_table =
    lsb6_p1 ∷ lsb6_p2 ∷ msb6_p1 ∷ msb6_p2 ∷ utf8_p1 ∷ utf8_p2 ∷ signed_p1 ∷ signed_p2 ∷ []

-- `p1` is the last byte and `p2` the one before it.
unfoldable pub context_lookup : ℕ → ℕ → ℕ → ℕ
context_lookup mode p1 p2 =
    bit_or (get_or (get_or context_lookup_table (2 * mode) []) p1 0)
      (get_or (get_or context_lookup_table (2 * mode + 1) []) p2 0)
