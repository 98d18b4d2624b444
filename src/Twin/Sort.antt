-- ===== src/Twin/Sort.antt =====
-- sort.Slice of Go with a less function, as internal/api/server.go calls it: an insertion sort, which
-- is one of the orders that sort.Slice may give where elements are equal.
use paas_controlplane.Base.{
  Bool, true, false, List, [], ◌∷◌, if◌then◌else◌, ◌≡◌, inl, inr, Bool-cases,
}
use mathlib.Core.List.Perm
use mathlib.Core.List.{Perm}

module _ {A : Type 0} (less : A → A → Bool) where
  unfoldable pub insert_by : A → List A → List A
  insert_by x [] = x ∷ []
  insert_by x (y ∷ ys) = let rest = insert_by x ys in if less x y then x ∷ y ∷ ys else y ∷ rest

  unfoldable pub sort_by : List A → List A
  unfolding insert_by
  sort_by [] = []
  sort_by (x ∷ xs) = insert_by x (sort_by xs)

  -- No element comes before the one on its left.
  abbrev pub Ordered : List A → Type 0
  Ordered [] = Unit
  Ordered (x ∷ []) = Unit
  Ordered (x ∷ y ∷ ys) = (less y x ≡ false) × Ordered (y ∷ ys)

  insert_by-Ordered_below :
      (x y : A) (l : List A)
      → ((a b : A) → less a b ≡ true → less b a ≡ false)
      → less x y ≡ false
      → Ordered (y ∷ l)
      → Ordered (y ∷ insert_by x l)
  unfolding insert_by
  insert_by-Ordered_below x y [] asym h o = (h, tt)
  insert_by-Ordered_below x y (z ∷ zs) asym h (k, o) = elim (Bool-cases (less x z)) [
    | inl e ↦ rw e (h, (asym x z e, o))
    | inr e ↦ rw e (k, insert_by-Ordered_below x z zs asym e o)
  ]

  insert_by-Ordered :
      (x : A) (l : List A)
      → ((a b : A) → less a b ≡ true → less b a ≡ false)
      → Ordered l
      → Ordered (insert_by x l)
  unfolding insert_by
  insert_by-Ordered x [] asym o = tt
  insert_by-Ordered x (y ∷ ys) asym o = elim (Bool-cases (less x y)) [
    | inl e ↦ rw e (asym x y e, o)
    | inr e ↦ rw e (insert_by-Ordered_below x y ys asym e o)
  ]

  pub sort_by-Ordered :
      (l : List A) → ((a b : A) → less a b ≡ true → less b a ≡ false) → Ordered (sort_by l)
  unfolding sort_by
  sort_by-Ordered [] asym = tt
  sort_by-Ordered (x ∷ xs) asym = insert_by-Ordered x (sort_by xs) asym (sort_by-Ordered xs asym)

  insert_by-Perm : (x : A) (l : List A) → Perm (insert_by x l) (x ∷ l)
  unfolding insert_by
  insert_by-Perm x [] = Perm.rfl
  insert_by-Perm x (y ∷ ys) = elim (Bool-cases (less x y)) [
    | inl e ↦ rw e (Perm.rfl)
    | inr e ↦ rw e (Perm.trans (Perm.cons y (insert_by-Perm x ys)) (Perm.swap x y ys))
  ]

  pub sort_by-Perm : (l : List A) → Perm (sort_by l) l
  unfolding sort_by
  sort_by-Perm [] = Perm.nil
  sort_by-Perm (x ∷ xs) = Perm.trans (insert_by-Perm x (sort_by xs)) (Perm.cons x (sort_by-Perm xs))
