-- ===== src/Decimals/Signs.antt =====
-- The canonical text of a signed number, as `toMinorUnits` prints it.
use xcf_concordium_facilitat.Base.{
  ℕ, ◌+◌, ◌-◌, ◌*◌, ◌^◌, ◌≤◌, ◌<◌, ◌≡◌, ◌⊎◌, refl, sym, ap, ◌∙◌, Bool, true, false, not, ◌&&◌, [],
  ◌∷◌, ◌++◌, arith, ◌==◌, length, Bool-cases, inl, inr, Text, text_eq, text_eq_iff, text_eq_self,
  append_assoc,
}
use xcf_concordium_facilitat.Decimals.{
  is_digit, all_digits, append_zeros, strip_zeros, canonical_digits, or_text, with_sign,
  without_sign, is_negative, combine,
}
use xcf_concordium_facilitat.Decimals.Digits.{
  zeros, append_zeros_lem, all_digits-zeros, all_digits-append, digits_value_from, digits_value,
  digits_value_from-append, digits_value_from-append_zeros, digits_value-strip_zeros,
}

le-digits_value_from : (acc : ℕ) (s : Text) → acc ≤ digits_value_from acc s
unfolding digits_value_from
le-digits_value_from acc [] = omega arith
le-digits_value_from acc (c ∷ s) = omega (arith, le-digits_value_from (acc * 10 + (c - b'0')) s)

all_digits-strip_zeros : (s : Text) → all_digits s ≡ true → all_digits (strip_zeros s) ≡ true
unfolding all_digits strip_zeros
all_digits-strip_zeros [] h = refl
all_digits-strip_zeros (c ∷ s) h = ground (arith, all_digits-strip_zeros s)

-- A text of digits without leading zeros is "0" exactly when it stands for 0.
strip_zeros-value : (s : Text) → all_digits s ≡ true → (strip_zeros s ≡ []) ⊎ (0 < digits_value s)
unfolding strip_zeros all_digits digits_value_from is_digit
strip_zeros-value [] h = inl refl
strip_zeros-value (c ∷ s) h = elim (Bool-cases (c == b'0')) [
  | inl z ↦ elim (strip_zeros-value s (ground arith)) [
    | inl e ↦ inl (rw z e)
    | inr p ↦ inr (
        rw (ap (λ t. digits_value_from t s) (let e : 0 * 10 + (c - b'0') ≡ 0 = ground arith in e))
          p)
  ]
  | inr o ↦ inr (ground (arith, le-digits_value_from (0 * 10 + (c - b'0')) s))
]

-- `r` is the text of the number `v`, with a minus sign if `negative` holds and `v` is not 0.
pub record IsSigned (negative : Bool) (v : ℕ) (r : Text) : Type 0 where
  pub value : digits_value (without_sign r) ≡ v
  pub sign : is_negative r ≡ (negative && not (v == 0))

canonical_value : (s : Text) → digits_value (canonical_digits s) ≡ digits_value s
unfolding canonical_digits
canonical_value s = go (strip_zeros s) (digits_value-strip_zeros s)
  where
    go :
        (t : Text)
        → digits_value t ≡ digits_value s
        → digits_value (or_text t (b'0' ∷ [])) ≡ digits_value s
    go [] e = unfold digits_value_from in e
    go (c ∷ t) e = e

digits_value-nil : digits_value [] ≡ 0
unfolding digits_value_from
digits_value-nil = refl

digits_value-zero : digits_value (b'0' ∷ []) ≡ 0
unfolding digits_value_from
digits_value-zero = refl

canonical_digits-cases :
    (s : Text)
    → all_digits s ≡ true
    → (text_eq (canonical_digits s) (b'0' ∷ []) ≡ (digits_value s == 0))
      × (all_digits (canonical_digits s) ≡ true)
unfolding canonical_digits
canonical_digits-cases s h =
    go (strip_zeros s) refl (all_digits-strip_zeros s h) (strip_zeros-value s h)
  where
    go :
        (t : Text)
        → strip_zeros s ≡ t
        → all_digits t ≡ true
        → (t ≡ []) ⊎ (0 < digits_value s)
        → (text_eq (or_text t (b'0' ∷ [])) (b'0' ∷ []) ≡ (digits_value s == 0))
          × (all_digits (or_text t (b'0' ∷ [])) ≡ true)
    go [] e d c =
        let v : digits_value s ≡ 0 =
          sym (digits_value-strip_zeros s) ∙ ap (λ u. digits_value u) e ∙ digits_value-nil in
        (rw v (text_eq_self (b'0' ∷ [])), unfold all_digits is_digit in refl)
    go (x ∷ t) e d (inl bad) = cc
    go (x ∷ t) e d (inr p) = (
      elim (Bool-cases (text_eq (x ∷ t) (b'0' ∷ []))) [
        | inl same ↦
            let v : digits_value s ≡ 0 =
              sym (digits_value-strip_zeros s)
              ∙ ap (λ u. digits_value u) e
              ∙ ap (λ u. digits_value u) ((text_eq_iff (x ∷ t) (b'0' ∷ [])).0 same)
              ∙ digits_value-zero in
            absurd (omega arith)
        | inr other ↦ ground arith
      ],
      d,
    )

without_sign_of_digits : (s : Text) → all_digits s ≡ true → without_sign s ≡ s
unfolding without_sign all_digits is_digit
without_sign_of_digits [] h = refl
without_sign_of_digits (c ∷ s) h = ground arith

is_negative_of_digits : (s : Text) → all_digits s ≡ true → is_negative s ≡ false
unfolding is_negative all_digits is_digit
is_negative_of_digits [] h = refl
is_negative_of_digits (c ∷ s) h = ground arith

with_sign-IsSigned :
    (negative : Bool) (v : ℕ) (s : Text)
    → all_digits s ≡ true
    → digits_value s ≡ v
    → text_eq s (b'0' ∷ []) ≡ (v == 0)
    → IsSigned negative v (with_sign negative (b'0' ∷ []) s)
with_sign-IsSigned false v s h value is_zero = record {
  value = ap (λ u. digits_value u) (without_sign_of_digits s h) ∙ value;
  sign = is_negative_of_digits s h;
}
with_sign-IsSigned true v s h value is_zero = elim (Bool-cases (v == 0)) [
  | inl z ↦
      rw (is_zero, z)
        (record {
          value = ap (λ u. digits_value u) (without_sign_of_digits s h) ∙ value;
          sign = rw z (is_negative_of_digits s h);
        })
  | inr o ↦
      rw (is_zero, o)
        (record { value = unfold without_sign in value; sign = unfold is_negative in rw o })
]

pub combine-IsSigned :
    (d : ℕ) (negative : Bool) (int_part frac : Text)
    → all_digits int_part ≡ true
    → all_digits frac ≡ true
    → IsSigned negative
        (digits_value (int_part ++ frac) * 10 ^ (d - length frac))
        (combine d negative int_part frac)
unfolding combine
combine-IsSigned d negative int_part frac i f =
    let padded = int_part ++ append_zeros (d - length frac) frac in
    let e : padded ≡ (int_part ++ frac) ++ zeros (d - length frac) =
      ap (λ t. int_part ++ t) (append_zeros_lem (d - length frac) frac)
      ∙ sym (append_assoc int_part frac (zeros (d - length frac))) in
    let digits : all_digits padded ≡ true = rw e (
      all_digits-append (int_part ++ frac) _ (all_digits-append int_part frac i f)
        (all_digits-zeros (d - length frac))) in
    let v : digits_value padded ≡ digits_value (int_part ++ frac) * 10 ^ (d - length frac) =
      ap (λ u. digits_value u) e
      ∙ digits_value_from-append 0 (int_part ++ frac) (zeros (d - length frac))
      ∙ digits_value_from-append_zeros (digits_value (int_part ++ frac)) (d - length frac) in
    let (test, digits') = canonical_digits-cases padded digits in
    with_sign-IsSigned negative _ (canonical_digits padded) digits' (canonical_value padded ∙ v)
      (test ∙ ap (λ n. n == 0) v)
