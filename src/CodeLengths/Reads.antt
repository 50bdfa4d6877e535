-- ===== src/CodeLengths/Reads.antt =====
-- What a list of symbols of the code length alphabet means to the decoder of decode.go: the code
-- lengths that it assigns one by one.
use go_brrr.Prelude.{
  ℕ, suc, ◌+◌, ◌≡◌, refl, ap, sym, subst, ◌∙◌, List, [], ◌∷◌, ◌++◌, ◌==◌, Bool-cases, inl, inr,
  arith, replicate, length, append_assoc,
}
use go_brrr.CodeLengths.Encode.{Code}
use go_brrr.CodeLengths.Decode.{Assigned, LengthReader, assign, process}
use go_brrr.CodeLengths.Assign.{assign_all}

-- From `h` the symbols assign the lengths, each symbol at least one, and leave `g`.
unfoldable pub Reads : ℕ → LengthReader → List Code → List ℕ → LengthReader → Type 0
Reads m h [] lens g = (lens ≡ []) × (h ≡ g)
Reads m h (c ∷ cs) lens g =
    (l : ℕ) × (n : ℕ) × (rest : List ℕ) × (lens ≡ replicate (suc n) l ++ rest)
    × ((process m c h).assigned ≡ assign_all (replicate (suc n) l) h.assigned)
    × Reads m (process m c h) cs rest g

pub Reads-same :
    {ls ms : List ℕ} (m : ℕ) (h g : LengthReader) (cs : List Code)
    → ls ≡ ms
    → Reads m h cs ls g
    → Reads m h cs ms g
Reads-same m h g cs e r = subst (λ (t : List ℕ). Reads m h cs t g) e r

pub Reads-append :
    (m : ℕ) (h g k : LengthReader) (cs ds : List Code) (ls ms : List ℕ)
    → Reads m h cs ls g
    → Reads m g ds ms k
    → Reads m h (cs ++ ds) (ls ++ ms) k
unfolding Reads
Reads-append m h g k [] ds ls ms (a, b) r =
    subst (λ (x : LengthReader). Reads m x ds (ls ++ ms) k) (sym b)
      (subst (λ (x : List ℕ). Reads m g ds (x ++ ms) k) (sym a) r)
Reads-append m h g k (c ∷ cs) ds ls ms (l, n, rest, e, a, q) r = (
  l,
  n,
  rest ++ ms,
  ap (λ (t : List ℕ). t ++ ms) e ∙ append_assoc (replicate (suc n) l) rest ms,
  a,
  Reads-append m (process m c h) g k cs ds rest ms q r,
)

assign_all-append :
    (ls ms : List ℕ) (a : Assigned) → assign_all (ls ++ ms) a ≡ assign_all ms (assign_all ls a)
unfolding assign_all
assign_all-append [] ms a = refl
assign_all-append (l ∷ ls) ms a = assign_all-append ls ms (assign l a)

pub Reads-assign_all :
    (m : ℕ) (h g : LengthReader) (cs : List Code) (ls : List ℕ)
    → Reads m h cs ls g
    → g.assigned ≡ assign_all ls h.assigned
unfolding Reads
Reads-assign_all m h g [] ls (a, b) = rw (a, b) (unfold assign_all in refl)
Reads-assign_all m h g (c ∷ cs) ls (l, n, rest, e, a, q) =
    Reads-assign_all m (process m c h) g cs rest q
    ∙ ap (assign_all rest) a
    ∙ sym (assign_all-append (replicate (suc n) l) rest h.assigned)
    ∙ ap (λ (t : List ℕ). assign_all t h.assigned) (sym e)

pub symbol-assign : (l : ℕ) (a : Assigned) → (assign l a).symbol ≡ a.symbol + 1
unfolding assign
symbol-assign l a = elim (Bool-cases (l == 0)) [ inl e ↦ rw e refl | inr e ↦ rw e refl ]

pub symbol-assign_all :
    (ls : List ℕ) (a : Assigned) → (assign_all ls a).symbol ≡ a.symbol + length ls
unfolding assign_all
symbol-assign_all [] a = omega arith
symbol-assign_all (l ∷ ls) a = omega (arith, symbol-assign_all ls (assign l a), symbol-assign l a)
