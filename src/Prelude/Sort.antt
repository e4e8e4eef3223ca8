-- ===== src/Prelude/Sort.antt =====
-- `sort.Slice` with a `<` on a number for its test. Elements with one key may come out in any
-- order there; here they keep theirs.
use mathlib.Core.Path.{subst}
use native.Mathlib.Nat.{le_refl, le_trans}
use tless.Prelude.{
  ℕ, ◌≤◌, ◌≡◌, refl, sym, ◌↔◌, ◌⊎◌, inl, inr, List, [], ◌∷◌, arith, leb, leb→le, if◌then◌else◌,
  Bool-cases, All, In, last,
}

module _ {ℓ} {A : Type ℓ} (key : A → ℕ) where
  insert : A → List A → List A
  insert a [] = a ∷ []
  insert a (x ∷ xs) = let rest = insert a xs in if leb (key a) (key x) then a ∷ x ∷ xs else x ∷ rest

  unfoldable pub sort : List A → List A
  unfolding insert
  sort [] = []
  sort (x ∷ xs) = insert x (sort xs)

  abbrev pub IsSorted : List A → Type ℓ
  IsSorted [] = Unit
  IsSorted (x ∷ xs) = All (λ y. key x ≤ key y) xs × IsSorted xs

  In-insert : (a b : A) (xs : List A) → In b (insert a xs) ↔ ((b ≡ a) ⊎ In b xs)
  unfolding insert
  In-insert a b [] = ground arith
  In-insert a b (x ∷ xs) = ground (arith, In-insert a b xs)

  pub In-sort : (b : A) (xs : List A) → In b (sort xs) ↔ In b xs
  unfolding sort
  In-sort b [] = (λ h. h, λ h. h)
  In-sort b (x ∷ xs) = ground (arith, In-sort b xs, In-insert x b (sort xs))

  All-insert {κ} : (P : A → Type κ) (a : A) (xs : List A) → P a → All P xs → All P (insert a xs)
  unfolding insert
  All-insert P a [] h k = (h, tt)
  All-insert P a (x ∷ xs) h k = elim (Bool-cases (leb (key a) (key x))) [
    | inl e ↦ rw e (h, k)
    | inr e ↦ rw e (k.0, All-insert P a xs h k.1)
  ]

  All-le_trans : (m n : ℕ) (xs : List A) → m ≤ n → All (λ y. n ≤ key y) xs → All (λ y. m ≤ key y) xs
  All-le_trans m n [] h k = tt
  All-le_trans m n (x ∷ xs) h k = (omega arith, All-le_trans m n xs h k.1)

  insert-IsSorted : (a : A) (xs : List A) → IsSorted xs → IsSorted (insert a xs)
  unfolding insert
  insert-IsSorted a [] h = (tt, tt)
  insert-IsSorted a (x ∷ xs) h = elim (Bool-cases (leb (key a) (key x))) [
    | inl e ↦
        let le : key a ≤ key x = omega (arith, leb→le) in
        rw e ((le, All-le_trans (key a) (key x) xs le h.0), h)
    | inr e ↦
        let ge : key x ≤ key a = ground arith in
        rw e (All-insert (λ y. key x ≤ key y) a xs ge h.0, insert-IsSorted a xs h.1)
  ]

  pub sort-IsSorted : (xs : List A) → IsSorted (sort xs)
  unfolding sort
  sort-IsSorted [] = tt
  sort-IsSorted (x ∷ xs) = insert-IsSorted x (sort xs) (sort-IsSorted xs)

  -- The last of a sorted list has the largest key.
  pub le-last :
      (x b : A) (xs : List A) → IsSorted (x ∷ xs) → In b (x ∷ xs) → key b ≤ key (last x xs)
  unfolding last
  le-last x b [] s (inl e) = rw e (le_refl _)
  le-last x b [] s (inr m) = elim m [ ]
  le-last x b (y ∷ ys) s (inl e) =
      le_trans (subst (λ z. key z ≤ key y) (sym e) s.0.0) (le-last y y ys s.1 (inl refl))
  le-last x b (y ∷ ys) s (inr m) = le-last y b ys s.1 m
