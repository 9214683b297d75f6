-- ===== src/Base/Sorting.antt =====
-- Sorting by insertion: `ORDER BY`.
use Prim.Native.Nat.{ℕ, zero, suc}
use mathlib.Core.Path.{◌≡◌, refl, ap, ◌∙◌}
use mathlib.Core.Logic.{◌⊎◌, inl, inr}
use mathlib.Core.Bool.{Bool, true, false}
use mathlib.Core.List.{List, [], ◌∷◌}
use xcf_concordium_facilitat.Base.Lists.{if◌then◌else◌, length, take, Bool-cases}
use xcf_concordium_facilitat.Base.Membership.{In, In-take}

module _ {A : Type 0} (before : A → A → Bool) where
  -- In front of the first entry that it may stand before
  unfoldable pub insert_by : A → List A → List A
  insert_by x [] = x ∷ []
  insert_by x (y ∷ ys) = let rest = insert_by x ys in if before x y then x ∷ y ∷ ys else y ∷ rest

  unfoldable pub sort_by : List A → List A
  sort_by [] = []
  sort_by (x ∷ xs) = insert_by x (sort_by xs)

  In-insert_by : (x a : A) (ys : List A) → In a (insert_by x ys) → (a ≡ x) ⊎ In a ys
  unfolding insert_by
  In-insert_by x a [] (inl e) = inl e
  In-insert_by x a [] (inr h) = absurd h
  In-insert_by x a (y ∷ ys) h = elim (Bool-cases (before x y)) [
    | inl first ↦ let k : (a ≡ x) ⊎ In a (y ∷ ys) = rw (first, insert_by) at h in k
    | inr later ↦ elim (let k : (a ≡ y) ⊎ In a (insert_by x ys) = rw (later, insert_by) at h in k) [
      | inl e ↦ inr (inl e)
      | inr deeper ↦ elim (In-insert_by x a ys deeper) [ inl e ↦ inl e | inr old ↦ inr (inr old) ]
    ]
  ]

  In-insert_by' : (x a : A) (ys : List A) → (a ≡ x) ⊎ In a ys → In a (insert_by x ys)
  unfolding insert_by
  In-insert_by' x a [] h = h
  In-insert_by' x a (y ∷ ys) h = elim (Bool-cases (before x y)) [
    | inl first ↦ rw (first, insert_by) h
    | inr later ↦
        rw (later, insert_by)
          (elim h [
            | inl e ↦ inr (In-insert_by' x a ys (inl e))
            | inr (inl e) ↦ inl e
            | inr (inr old) ↦ inr (In-insert_by' x a ys (inr old))
          ])
  ]

  pub In-sort_by : (a : A) (xs : List A) → In a (sort_by xs) → In a xs
  unfolding sort_by
  In-sort_by a [] h = h
  In-sort_by a (x ∷ xs) h = elim (In-insert_by x a (sort_by xs) h) [
    | inl e ↦ inl e
    | inr old ↦ inr (In-sort_by a xs old)
  ]

  pub In-sort_by' : (a : A) (xs : List A) → In a xs → In a (sort_by xs)
  unfolding sort_by
  In-sort_by' a [] h = h
  In-sort_by' a (x ∷ xs) (inl e) = In-insert_by' x a (sort_by xs) (inl e)
  In-sort_by' a (x ∷ xs) (inr old) = In-insert_by' x a (sort_by xs) (inr (In-sort_by' a xs old))

  length-insert_by : (x : A) (ys : List A) → length (insert_by x ys) ≡ suc (length ys)
  unfolding insert_by
  length-insert_by x [] = refl
  length-insert_by x (y ∷ ys) = elim (Bool-cases (before x y)) [
    | inl first ↦ rw (first, insert_by) refl
    | inr later ↦ rw (later, insert_by) (ap suc (length-insert_by x ys))
  ]

  pub length-sort_by : (xs : List A) → length (sort_by xs) ≡ length xs
  unfolding sort_by
  length-sort_by [] = refl
  length-sort_by (x ∷ xs) = length-insert_by x (sort_by xs) ∙ ap suc (length-sort_by xs)

  -- Each entry may stand before every later one.
  pub data IsSorted : List A → Type 0 where
    sorted_end : IsSorted []
    sorted_next :
        {x : A} {xs : List A}
        → ((y : A) → In y xs → before x y ≡ true)
        → IsSorted xs
        → IsSorted (x ∷ xs)

  -- The order is total and transitive.
  pub record IsOrder : Type 0 where
    pub total : (a b : A) → before a b ≡ false → before b a ≡ true
    pub trans : (a b c : A) → before a b ≡ true → before b c ≡ true → before a c ≡ true

  insert_by-IsSorted : (o : IsOrder) (x : A) (ys : List A) → IsSorted ys → IsSorted (insert_by x ys)
  unfolding insert_by
  insert_by-IsSorted o x [] s = sorted_next (λ y there. absurd there) sorted_end
  insert_by-IsSorted o x (y ∷ ys) (sorted_next least s) = elim (Bool-cases (before x y)) [
    | inl first ↦
        rw (first, insert_by)
          (sorted_next
            (λ z there. elim there [
              | inl e ↦ ap (before x) e ∙ first
              | inr later ↦ o.trans x y z first (least z later)
            ])
            (sorted_next least s))
    | inr later ↦
        rw (later, insert_by)
          (sorted_next
            (λ z there. elim (In-insert_by x z ys there) [
              | inl e ↦ ap (before y) e ∙ o.total x y later
              | inr old ↦ least z old
            ])
            (insert_by-IsSorted o x ys s))
  ]

  pub sort_by-IsSorted : IsOrder → (xs : List A) → IsSorted (sort_by xs)
  unfolding sort_by
  sort_by-IsSorted o [] = sorted_end
  sort_by-IsSorted o (x ∷ xs) = insert_by-IsSorted o x (sort_by xs) (sort_by-IsSorted o xs)

pub take-IsSorted :
    {A : Type 0} (before : A → A → Bool) (n : ℕ) (xs : List A)
    → IsSorted before xs
    → IsSorted before (take n xs)
take-IsSorted before zero xs s = sorted_end
take-IsSorted before (suc n) [] s = sorted_end
take-IsSorted before (suc n) (x ∷ xs) (sorted_next least s) =
    sorted_next (λ y there. least y (In-take n xs y there)) (take-IsSorted before n xs s)
