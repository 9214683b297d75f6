-- ===== src/Decimals/Digits.antt =====
-- Lemmas on digit texts: leading zeros, padding, slices, and the base-10 value.
use native.Mathlib.Nat.{pow-suc}
use xcf_concordium_facilitat.Base.{
  ℕ, zero, suc, ◌+◌, ◌-◌, ◌*◌, ◌^◌, ◌≤◌, ◌≡◌, refl, sym, ap, ◌∙◌, true, false, [], ◌∷◌, ◌++◌, arith,
  ◌==◌, length, take, drop, append_assoc, append-nil, Bool-cases, inl, inr, Text,
}
use xcf_concordium_facilitat.Base.Trim.{Avoids}
use xcf_concordium_facilitat.Decimals.{
  is_digit, all_digits, append_zeros, prepend_zeros, strip_zeros,
}

-- The number that a text of digits stands for.
unfoldable pub digits_value_from : ℕ → Text → ℕ
digits_value_from acc [] = acc
digits_value_from acc (c ∷ s) = digits_value_from (acc * 10 + (c - b'0')) s

abbrev pub digits_value : Text → ℕ
digits_value s = digits_value_from 0 s

unfoldable pub zeros : ℕ → Text
zeros zero = []
zeros (suc n) = b'0' ∷ zeros n

zeros-end : (n : ℕ) → zeros n ++ b'0' ∷ [] ≡ b'0' ∷ zeros n
unfolding zeros
zeros-end zero = refl
zeros-end (suc n) = ap (λ t. b'0' ∷ t) (zeros-end n)

pub append_zeros_lem : (n : ℕ) (s : Text) → append_zeros n s ≡ s ++ zeros n
unfolding append_zeros zeros
append_zeros_lem zero s = sym (append-nil s)
append_zeros_lem (suc n) s =
    append_zeros_lem n (s ++ b'0' ∷ []) ∙ append_assoc s (b'0' ∷ []) (zeros n)

pub prepend_zeros_lem : (n : ℕ) (s : Text) → prepend_zeros n s ≡ zeros n ++ s
unfolding prepend_zeros zeros
prepend_zeros_lem zero s = refl
prepend_zeros_lem (suc n) s =
    prepend_zeros_lem n (b'0' ∷ s)
    ∙ sym (append_assoc (zeros n) (b'0' ∷ []) s)
    ∙ ap (λ t. t ++ s) (zeros-end n)

pub length-zeros : (n : ℕ) → length (zeros n) ≡ n
unfolding zeros
length-zeros zero = refl
length-zeros (suc n) = omega (arith, length-zeros n)

pub all_digits-zeros : (n : ℕ) → all_digits (zeros n) ≡ true
unfolding all_digits zeros
all_digits-zeros zero = refl
all_digits-zeros (suc n) = all_digits-zeros n

pub all_digits-append :
    (s t : Text) → all_digits s ≡ true → all_digits t ≡ true → all_digits (s ++ t) ≡ true
unfolding all_digits
all_digits-append [] t h k = k
all_digits-append (c ∷ s) t h k = ground (arith, all_digits-append s t)

pub all_digits-take : (n : ℕ) (s : Text) → all_digits s ≡ true → all_digits (take n s) ≡ true
unfolding all_digits
all_digits-take zero s h = refl
all_digits-take (suc n) [] h = refl
all_digits-take (suc n) (c ∷ s) h = ground (arith, all_digits-take n s)

pub all_digits-drop : (n : ℕ) (s : Text) → all_digits s ≡ true → all_digits (drop n s) ≡ true
unfolding all_digits
all_digits-drop zero s h = h
all_digits-drop (suc n) [] h = refl
all_digits-drop (suc n) (c ∷ s) h = ground (arith, all_digits-drop n s)

pub take-drop : (n : ℕ) (s : Text) → take n s ++ drop n s ≡ s
take-drop zero s = refl
take-drop (suc n) [] = refl
take-drop (suc n) (c ∷ s) = ap (λ t. c ∷ t) (take-drop n s)

pub length-take : (n : ℕ) (s : Text) → n ≤ length s → length (take n s) ≡ n
length-take zero s h = refl
length-take (suc n) [] h = absurd (omega arith)
length-take (suc n) (c ∷ s) h = omega (arith, length-take n s)

pub length-drop : (n : ℕ) (s : Text) → length (drop n s) ≡ length s - n
length-drop zero s = omega arith
length-drop (suc n) [] = omega arith
length-drop (suc n) (c ∷ s) = omega (arith, length-drop n s)

-- Digits hold no separator and no space.
pub Avoids-of_digits :
    (sep : ℕ) (s : Text) → is_digit sep ≡ false → all_digits s ≡ true → Avoids sep s
unfolding all_digits is_digit
Avoids-of_digits sep [] d h = tt
Avoids-of_digits sep (c ∷ s) d h = (ground arith, Avoids-of_digits sep s d (ground arith))

pub strip_zeros-zeros : (n : ℕ) (s : Text) → strip_zeros (zeros n ++ s) ≡ strip_zeros s
unfolding strip_zeros zeros
strip_zeros-zeros zero s = refl
strip_zeros-zeros (suc n) s = strip_zeros-zeros n s

-- The rest of a text is a number's digits, without a leading zero.
pub digits_value_from-zeros :
    (n : ℕ) (s : Text) → digits_value_from 0 (zeros n ++ s) ≡ digits_value_from 0 s
unfolding digits_value_from zeros
digits_value_from-zeros zero s = refl
digits_value_from-zeros (suc n) s = digits_value_from-zeros n s

pub digits_value_from-append :
    (acc : ℕ) (s t : Text)
    → digits_value_from acc (s ++ t) ≡ digits_value_from (digits_value_from acc s) t
unfolding digits_value_from
digits_value_from-append acc [] t = refl
digits_value_from-append acc (c ∷ s) t = digits_value_from-append (acc * 10 + (c - b'0')) s t

times_power : (v n : ℕ) → v * 10 * 10 ^ n ≡ v * 10 ^ suc n
times_power v n = rw pow-suc (grind arith)

pub digits_value_from-append_zeros : (acc n : ℕ) → digits_value_from acc (zeros n) ≡ acc * 10 ^ n
unfolding digits_value_from zeros
digits_value_from-append_zeros acc zero = omega arith
digits_value_from-append_zeros acc (suc n) =
    digits_value_from-append_zeros (acc * 10 + 0) n
    ∙ ap (λ t. t * 10 ^ n) (omega arith)
    ∙ times_power acc n

pub digits_value-strip_zeros : (s : Text) → digits_value (strip_zeros s) ≡ digits_value s
unfolding digits_value_from strip_zeros
digits_value-strip_zeros [] = refl
digits_value-strip_zeros (c ∷ s) = elim (Bool-cases (c == b'0')) [
  | inl z ↦ rw z (digits_value-strip_zeros s ∙ ap (λ t. digits_value_from t s) (ground arith))
  | inr o ↦ rw o
]
