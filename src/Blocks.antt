-- ===== src/Blocks.antt =====
-- Block switches: getBlockLengthPrefixCode of internal/encoder/constants.go with the tables of
-- internal/core/constants.go, the block type codes of internal/encoder/block_encoder.go, and the
-- ring of two block types in decodeBlockTypeAndLength and the length of readBlockLength, decode.go.
pub mod Types
pub mod Lengths
use go_brrr.Prelude.{
  ℕ, zero, suc, ◌+◌, ◌-◌, ◌^◌, ◌%◌, ◌*◌, List, [], ◌∷◌, ltb, leb, ◌==◌, ◌&&◌, if◌then◌else◌, get_or,
  true, false,
}

unfoldable pub block_length_offset : List ℕ
block_length_offset =
    1 ∷ 5 ∷ 9 ∷ 13 ∷ 17 ∷ 25 ∷ 33 ∷ 41 ∷ 49 ∷ 65 ∷ 81 ∷ 97 ∷ 113 ∷ 145 ∷ 177 ∷ 209 ∷ 241 ∷ 305 ∷ 369
    ∷ 497 ∷ 753 ∷ 1265 ∷ 2289 ∷ 4337 ∷ 8433 ∷ 16625 ∷ []

unfoldable pub block_length_nbits : List ℕ
block_length_nbits =
    2 ∷ 2 ∷ 2 ∷ 2 ∷ 3 ∷ 3 ∷ 3 ∷ 3 ∷ 4 ∷ 4 ∷ 4 ∷ 4 ∷ 5 ∷ 5 ∷ 5 ∷ 5 ∷ 6 ∷ 6 ∷ 7 ∷ 8 ∷ 9 ∷ 10 ∷ 11 ∷ 12
    ∷ 13 ∷ 24 ∷ []

-- The jump close to the code.
unfoldable pub first_code : ℕ → ℕ
first_code length =
    if leb 753 length then 20 else if leb 177 length then 14 else if leb 41 length then 7 else 0

-- The linear scan, on fuel; 26 codes need at most 25 rounds.
unfoldable pub scan_code : ℕ → ℕ → ℕ → ℕ
scan_code zero length code = code
scan_code (suc fuel) length code =
    elim (ltb code 25 && leb (get_or block_length_offset (code + 1) 0) length) [
      | true ↦ scan_code fuel length (code + 1)
      | false ↦ code
    ]

-- The code, the number of extra bits and the extra bits.
unfoldable pub get_block_length_prefix_code : ℕ → ℕ × (ℕ × ℕ)
get_block_length_prefix_code length =
    let code = scan_code 26 length (first_code length) in
    (
      code,
      (
        get_or block_length_nbits code 0,
        (length + 2 ^ 32 - get_or block_length_offset code 0) % 2 ^ 32,
      ),
    )

-- readBlockLength, from the symbol and the extra bits.
unfoldable pub block_length_of : ℕ → ℕ → ℕ
block_length_of code extra = get_or block_length_offset code 0 + extra

pub record BlockTypeCodeCalc : Type 0 where
  pub last_type : ℕ
  pub second_last_type : ℕ

unfoldable pub init_block_type_code_calc : BlockTypeCodeCalc
init_block_type_code_calc = record { last_type = 1; second_last_type = 0 }

unfoldable pub next_block_type_code : ℕ → BlockTypeCodeCalc → ℕ × BlockTypeCodeCalc
next_block_type_code block_type c =
    let type_code =
      (if block_type == c.last_type + 1
        then 1
        else if block_type == c.second_last_type
        then 0
        else block_type + 2) in
    (type_code, record { last_type = block_type; second_last_type = c.last_type })

-- The two entries of `blockTypeRB` of one tree, the older first.
pub record BlockTypeRing : Type 0 where
  pub older : ℕ
  pub newer : ℕ

-- The switch on the type symbol, and the ring after it.
unfoldable pub switch_block_type : ℕ → ℕ → BlockTypeRing → ℕ × BlockTypeRing
switch_block_type max_block_type symbol rb =
    let block_type =
      (if symbol == 1 then rb.newer + 1 else if symbol == 0 then rb.older else symbol - 2) in
    let block_type =
      (if leb max_block_type block_type then block_type - max_block_type else block_type) in
    (block_type, record { older = rb.newer; newer = block_type })
