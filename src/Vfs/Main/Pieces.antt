-- ===== src/Vfs/Main/Pieces.antt =====
-- The pieces in which srv/vfs/vfs.c sends the data of a file.
use openblt.Prelude.{
  ℕ, zero, suc, ◌+◌, ◌-◌, ◌≤◌, ◌<◌, ◌≡◌, refl, ap, ◌∙◌, List, [], ◌∷◌, ◌++◌, ltb, take, drop,
  length, length-take, arith, Bool-cases, inl, inr,
}
use openblt.Vfs.Main.{pieces, split}
use mathlib.Core.List.{append-nil}

-- The pieces one behind the other.
abbrev pub joined : List (List ℕ) → List ℕ
joined [] = []
joined (bs ∷ rest) = bs ++ joined rest

abbrev pub AllFit : ℕ → List (List ℕ) → Type 0
AllFit page [] = Unit {0}
AllFit page (bs ∷ rest) = (length bs ≤ page) × AllFit page rest

take-drop : (n : ℕ) (bs : List ℕ) → take n bs ++ drop n bs ≡ bs
take-drop zero bs = refl
take-drop (suc n) [] = refl
take-drop (suc n) (b ∷ bs) = ap (λ (cs : List ℕ). b ∷ cs) (take-drop n bs)

length-drop : (n : ℕ) (bs : List ℕ) → length (drop n bs) ≡ length bs - n
length-drop zero bs = omega arith
length-drop (suc n) [] = omega arith
length-drop (suc n) (b ∷ bs) = omega (arith, length-drop n bs)

pieces-joined : (page n : ℕ) (bs : List ℕ) → joined (pieces page n bs) ≡ bs
pieces-joined page zero bs = append-nil bs
pieces-joined page (suc n) bs = elim (Bool-cases (ltb page (length bs))) [
  | inl e ↦ rw e (
      ap (λ (cs : List ℕ). take page bs ++ cs) (pieces-joined page n (drop page bs))
      ∙ take-drop page bs)
  | inr e ↦ rw e (append-nil bs)
]

pieces-AllFit :
    (page n : ℕ) (bs : List ℕ) → 0 < page → length bs ≤ n + page → AllFit page (pieces page n bs)
pieces-AllFit page zero bs real h = (omega (arith, h), tt)
pieces-AllFit page (suc n) bs real h = elim (Bool-cases (ltb page (length bs))) [
  | inl e ↦
      let over : page < length bs = ground (arith, e) in
      rw e (
        omega (arith, length-take page bs (omega (arith, over))),
        pieces-AllFit page n (drop page bs) real
            (omega (arith, length-drop page bs, h, real, over)),
      )
  | inr e ↦ rw e (ground (arith, e), tt)
]

pub split-pieces : (bs : List ℕ) → (joined (split bs) ≡ bs) × AllFit 4096 (split bs)
split-pieces bs = elim (Bool-cases (ltb (length bs) 4096)) [
  | inl e ↦ rw e (append-nil bs, (ground (arith, e), tt))
  | inr e ↦ rw e (
    pieces-joined 4096 (length bs) bs,
    pieces-AllFit 4096 (length bs) bs (omega arith) (omega arith),
  )
]
