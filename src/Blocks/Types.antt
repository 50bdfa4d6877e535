-- ===== src/Blocks/Types.antt =====
-- The encoder's block type codes and the decoder's ring of block types.
use go_brrr.Prelude.{ℕ, ◌<◌, ◌≡◌, refl, List, [], ◌∷◌, All, arith, ap}
use go_brrr.Blocks.{BlockTypeCodeCalc, next_block_type_code, BlockTypeRing, switch_block_type}

-- The ring that holds the encoder's last two types.
abbrev pub ring_of : BlockTypeCodeCalc → BlockTypeRing
ring_of c = record { older = c.second_last_type; newer = c.last_type }

switch-next :
    (n t : ℕ) (c : BlockTypeCodeCalc)
    → t < n
    → let (code, c') = next_block_type_code t c in
      switch_block_type n code (ring_of c) ≡ (t, ring_of c')
unfolding next_block_type_code switch_block_type
switch-next n t c h = ap (λ (x : ℕ). (x, record { older = c.last_type; newer = x })) (ground arith)

-- The codes of a list of block types.
unfoldable pub type_codes : List ℕ → BlockTypeCodeCalc → List ℕ
type_codes [] c = []
type_codes (t ∷ ts) c = let (code, c') = next_block_type_code t c in code ∷ type_codes ts c'

-- The types that the decoder takes from codes.
unfoldable pub switch_types : ℕ → List ℕ → BlockTypeRing → List ℕ
switch_types n [] rb = []
switch_types n (code ∷ codes) rb =
    let (t, rb') = switch_block_type n code rb in t ∷ switch_types n codes rb'

-- For any list of block types below their number, the decoder's switches return exactly the types
-- that the encoder coded, when its ring holds the encoder's last two types.
pub switch_types-type_codes :
    (n : ℕ) (ts : List ℕ) (c : BlockTypeCodeCalc)
    → All (λ t. t < n) ts
    → switch_types n (type_codes ts c) (ring_of c) ≡ ts
unfolding switch_types type_codes
switch_types-type_codes n [] c a = refl
switch_types-type_codes n (t ∷ ts) c (h, a) =
    rw (switch-next n t c h, switch_types-type_codes n ts (next_block_type_code t c).1 a) refl
