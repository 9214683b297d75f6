-- ===== src/Base/Membership.antt =====
-- Being an entry of a list, with the place of the entry kept.
use Prim.Native.Nat.{ℕ, zero, suc, ◌≤◌}
use mathlib.Core.Path.{◌≡◌, refl, sym, ap, ◌∙◌}
use mathlib.Core.Logic.{◌⊎◌, inl, inr}
use mathlib.Core.Bool.{Bool, true, false}
use mathlib.Core.Option.{none, some, some-injective}
use mathlib.Core.List.{List, [], ◌∷◌, ◌++◌}
use native.Mathlib.Omega.{arith}
use xcf_concordium_facilitat.Base.Lists.{length, take, find, keep, any, Bool-cases}

module _ {A : Type 0} where
  abbrev pub In : A → List A → Type 0
  In x [] = ⊥
  In x (y ∷ ys) = (x ≡ y) ⊎ In x ys

  -- Every entry of one list is an entry of the other.
  abbrev pub Within : List A → List A → Type 0
  Within xs ys = (x : A) → In x xs → In x ys

  pub In-append_left : (x : A) (xs ys : List A) → In x xs → In x (xs ++ ys)
  In-append_left x [] ys h = absurd h
  In-append_left x (y ∷ xs) ys (inl e) = inl e
  In-append_left x (y ∷ xs) ys (inr h) = inr (In-append_left x xs ys h)

  pub In-append_last : (x : A) (xs : List A) → In x (xs ++ x ∷ [])
  In-append_last x [] = inl refl
  In-append_last x (y ∷ xs) = inr (In-append_last x xs)

  pub In-append_cases : (x y : A) (xs : List A) → In x (xs ++ y ∷ []) → In x xs ⊎ (x ≡ y)
  In-append_cases x y [] (inl e) = inr e
  In-append_cases x y [] (inr h) = absurd h
  In-append_cases x y (z ∷ xs) (inl e) = inl (inl e)
  In-append_cases x y (z ∷ xs) (inr h) = elim (In-append_cases x y xs h) [
    | inl there ↦ inl (inr there)
    | inr same ↦ inr same
  ]

  pub find_sound :
      (p : A → Bool) (xs : List A) (x : A) → find p xs ≡ some x → (p x ≡ true) × In x xs
  find_sound p [] x h = cc
  find_sound p (y ∷ ys) x h = elim (Bool-cases (p y)) [
    | inl yes_y ↦
        let same : y ≡ x = some-injective y x (rw yes_y at h) in
        (ap p (sym same) ∙ yes_y, inl (sym same))
    | inr no_y ↦ let (px, there) = find_sound p ys x (rw no_y at h) in (px, inr there)
  ]

  pub find-none : (p : A → Bool) (xs : List A) → find p xs ≡ none → (x : A) → In x xs → p x ≡ false
  find-none p [] h x there = absurd there
  find-none p (y ∷ ys) h x there = elim (Bool-cases (p y)) [
    | inl yes_y ↦ cc (rw yes_y at h)
    | inr no_y ↦ elim there [
      | inl e ↦ ap p e ∙ no_y
      | inr later ↦ find-none p ys (rw no_y at h) x later
    ]
  ]

  pub any_none : (p : A → Bool) (xs : List A) → any p xs ≡ false → (x : A) → In x xs → p x ≡ false
  any_none p [] h x there = absurd there
  any_none p (y ∷ ys) h x (inl e) = ap p e ∙ ground arith
  any_none p (y ∷ ys) h x (inr later) = any_none p ys (ground arith) x later

  pub In-keep : (p : A → Bool) (xs : List A) (x : A) → In x (keep p xs) → (p x ≡ true) × In x xs
  In-keep p [] x h = absurd h
  In-keep p (y ∷ ys) x h = elim (Bool-cases (p y)) [
    | inl yes_y ↦ kept yes_y (In-keep p ys x) (rw yes_y at h)
    | inr no_y ↦ let (px, there) = In-keep p ys x (rw no_y at h) in (px, inr there)
  ]
    where
      kept :
          p y ≡ true
          → (In x (keep p ys) → (p x ≡ true) × In x ys)
          → (x ≡ y) ⊎ In x (keep p ys)
          → (p x ≡ true) × In x (y ∷ ys)
      kept e rest (inl same) = (ap p same ∙ e, inl same)
      kept e rest (inr later) = let (px, there) = rest later in (px, inr there)

  pub In-keep' : (p : A → Bool) (xs : List A) (x : A) → p x ≡ true → In x xs → In x (keep p xs)
  In-keep' p [] x e h = absurd h
  In-keep' p (y ∷ ys) x e (inl same) = rw (ap p (sym same) ∙ e) (inl same)
  In-keep' p (y ∷ ys) x e (inr later) = elim (Bool-cases (p y)) [
    | inl yes_y ↦ rw yes_y (inr (In-keep' p ys x e later))
    | inr no_y ↦ rw no_y (In-keep' p ys x e later)
  ]

pub In-take : {A : Type 0} (n : ℕ) (xs : List A) (x : A) → In x (take n xs) → In x xs
In-take zero xs x h = absurd h
In-take (suc n) [] x h = absurd h
In-take (suc n) (y ∷ ys) x (inl e) = inl e
In-take (suc n) (y ∷ ys) x (inr later) = inr (In-take n ys x later)

pub In-take' :
    {A : Type 0} (n : ℕ) (xs : List A) (x : A) → length xs ≤ n → In x xs → In x (take n xs)
In-take' zero [] x short h = absurd h
In-take' zero (y ∷ ys) x short h = ground arith
In-take' (suc n) [] x short h = absurd h
In-take' (suc n) (y ∷ ys) x short (inl e) = inl e
In-take' (suc n) (y ∷ ys) x short (inr later) = inr (In-take' n ys x (ground arith) later)

pub length-take : {A : Type 0} (n : ℕ) (xs : List A) → length (take n xs) ≤ n
length-take zero xs = omega arith
length-take (suc n) [] = omega arith
length-take (suc n) (y ∷ ys) = let k = length-take n ys in ground arith
