-- ===== src/Base/Trim.antt =====
-- Laws of `trim` and `split`.
use Prim.Native.Nat.{ℕ}
use mathlib.Core.Path.{◌≡◌, refl, sym, ap, ◌∙◌}
use mathlib.Core.Logic.{◌≢◌, inl, inr}
use mathlib.Core.Bool.{false}
use mathlib.Core.List.{List, [], ◌∷◌, ◌++◌}
use native.Mathlib.Omega.{arith}
use xcf_concordium_facilitat.Base.Lists.{◌==◌, All, Bool-cases}
use xcf_concordium_facilitat.Base.Strings.{
  Text, is_space, trim_start, trim_end, trim, cons_unless_blank, split, onto_first,
}

-- No code unit of the text is `sep`.
abbrev pub Avoids : ℕ → Text → Type 0
Avoids sep = All (λ c. (c == sep) ≡ false)

trim_end-cons :
    (c : ℕ) (s : Text) → trim_end s ≡ s → trim_end (cons_unless_blank c s) ≡ cons_unless_blank c s
unfolding trim_end
trim_end-cons c [] h = ground arith
trim_end-cons c (d ∷ s) h = ap (cons_unless_blank c) h

trim_end_idempotent : (s : Text) → trim_end (trim_end s) ≡ trim_end s
unfolding trim_end
trim_end_idempotent [] = refl
trim_end_idempotent (c ∷ s) = trim_end-cons c (trim_end s) (trim_end_idempotent s)

trim_start_idempotent : (s : Text) → trim_start (trim_start s) ≡ trim_start s
unfolding trim_start
trim_start_idempotent [] = refl
trim_start_idempotent (c ∷ s) = ground (arith, trim_start_idempotent s)

-- A text whose first code unit is no space.
abbrev Starts : Text → Type 0
Starts [] = Unit
Starts (c ∷ s) = is_space c ≡ false

trim_start-Starts : (s : Text) → Starts (trim_start s)
unfolding trim_start
trim_start-Starts [] = tt
trim_start-Starts (c ∷ s) = elim (Bool-cases (is_space c)) [
  | inl blank ↦ rw blank (trim_start-Starts s)
  | inr solid ↦ rw solid solid
]

trim_end-Starts : (s : Text) → Starts s → Starts (trim_end s)
unfolding trim_end
trim_end-Starts [] h = tt
trim_end-Starts (c ∷ s) h = go (trim_end s)
  where
    go : (r : Text) → Starts (cons_unless_blank c r)
    go [] = rw h h
    go (d ∷ r) = h

trim_start_of_Starts : (s : Text) → Starts s → trim_start s ≡ s
unfolding trim_start
trim_start_of_Starts [] h = refl
trim_start_of_Starts (c ∷ s) h = rw h

pub trim_idempotent : (s : Text) → trim (trim s) ≡ trim s
unfolding trim
trim_idempotent s =
    rw (trim_start_of_Starts _ (trim_end-Starts (trim_start s) (trim_start-Starts s)))
      (trim_end_idempotent (trim_start s))

-- A trimmed text stays trimmed behind a text that starts with no space.
trim_end-append : (s t : Text) → t ≢ [] → trim_end t ≡ t → trim_end (s ++ t) ≡ s ++ t
unfolding trim_end
trim_end-append [] t ne h = h
trim_end-append (c ∷ s) t ne h = rw (trim_end-append s t ne h) (go (s ++ t) (grown s))
  where
    go : (r : Text) → r ≢ [] → cons_unless_blank c r ≡ c ∷ r
    go [] e = absurd (e refl)
    go (d ∷ r) e = refl

    grown : (s : Text) → s ++ t ≢ []
    grown [] = ne
    grown (d ∷ s) = λ e. cc

trim_end_of_trim : (t : Text) → trim t ≡ t → trim_end t ≡ t
unfolding trim
trim_end_of_trim t h = ap trim_end (sym h) ∙ trim_end_idempotent (trim_start t) ∙ h

pub trim-append :
    (c : ℕ) (s t : Text) → is_space c ≡ false → t ≢ [] → trim t ≡ t → trim (c ∷ s ++ t) ≡ c ∷ s ++ t
unfolding trim
trim-append c s t solid ne h =
    rw (trim_start_of_Starts (c ∷ s ++ t) solid)
      (trim_end-append (c ∷ s) t ne (trim_end_of_trim t h))

trim_start-Avoids : (sep : ℕ) (s : Text) → Avoids sep s → Avoids sep (trim_start s)
unfolding trim_start
trim_start-Avoids sep [] h = tt
trim_start-Avoids sep (c ∷ s) h = ground (arith, trim_start-Avoids sep s h.1)

trim_end-Avoids : (sep : ℕ) (s : Text) → Avoids sep s → Avoids sep (trim_end s)
unfolding trim_end
trim_end-Avoids sep [] h = tt
trim_end-Avoids sep (c ∷ s) h = go (trim_end s) (trim_end-Avoids sep s h.1)
  where
    go : (r : Text) → Avoids sep r → Avoids sep (cons_unless_blank c r)
    go [] k = ground (arith, h.0)
    go (d ∷ r) k = (h.0, k)

pub trim-Avoids : (sep : ℕ) (s : Text) → Avoids sep s → Avoids sep (trim s)
unfolding trim
trim-Avoids sep s h = trim_end-Avoids sep (trim_start s) (trim_start-Avoids sep s h)

onto_first-Avoids :
    (sep c : ℕ) (ps : List Text)
    → (c == sep) ≡ false
    → All (Avoids sep) ps
    → All (Avoids sep) (onto_first c ps)
onto_first-Avoids sep c [] h k = ((h, tt), tt)
onto_first-Avoids sep c (p ∷ ps) h (k, ks) = ((h, k), ks)

-- No part of a split holds the separator.
pub split-Avoids : (sep : ℕ) (s : Text) → All (Avoids sep) (split sep s)
unfolding split
split-Avoids sep [] = (tt, tt)
split-Avoids sep (c ∷ s) = elim (Bool-cases (c == sep)) [
  | inl cut ↦ rw cut (tt, split-Avoids sep s)
  | inr other ↦ rw other (onto_first-Avoids sep c (split sep s) other (split-Avoids sep s))
]

pub split_of_Avoids : (sep : ℕ) (s : Text) → Avoids sep s → split sep s ≡ s ∷ []
unfolding split
split_of_Avoids sep [] h = refl
split_of_Avoids sep (c ∷ s) (h, k) = rw (h, split_of_Avoids sep s k)

-- A text without spaces is trimmed.
pub trim_of_solid : (s : Text) → All (λ c. is_space c ≡ false) s → trim s ≡ s
unfolding trim
trim_of_solid [] h = refl
trim_of_solid (c ∷ s) h = rw (trim_start_of_Starts (c ∷ s) h.0) (go (c ∷ s) h)
  where
    solid : (c : ℕ) (r : Text) → is_space c ≡ false → cons_unless_blank c r ≡ c ∷ r
    solid c [] k = rw k
    solid c (d ∷ r) k = refl

    go : (s : Text) → All (λ c. is_space c ≡ false) s → trim_end s ≡ s
    go [] k = refl
    go (c ∷ s) k = rw (go s k.1) (solid c s k.0)

-- Two parts around one separator.
pub split-append :
    (sep : ℕ) (p q : Text) → Avoids sep p → Avoids sep q → split sep (p ++ sep ∷ q) ≡ p ∷ q ∷ []
unfolding split
split-append sep [] q h k = rw (split_of_Avoids sep q k) (ground arith)
split-append sep (c ∷ p) q (h, hs) k = rw (h, split-append sep p q hs k) refl
