-- ===== src/Decimals/Meaning.antt =====
-- What `toMinorUnits` returns, as a number.
use xcf_concordium_facilitat.Base.{
  ℕ, ◌-◌, ◌*◌, ◌^◌, ◌≤◌, ◌≡◌, refl, ap, true, List, [], ◌∷◌, ◌++◌, arith, ltb, ◌==◌, length,
  get_elem?, All, Bool-cases, inl, inr, Text, split, onto_first, trim, ltb_false→le,
}
use xcf_concordium_facilitat.Base.Trim.{Avoids}
use xcf_concordium_facilitat.Decimals.{
  ok, is_digit, all_digits, or_text, part_or_empty, replace_minus, without_sign, is_negative,
  amount_parts, combine, to_minor,
}
use xcf_concordium_facilitat.Decimals.Digits.{digits_value}
use xcf_concordium_facilitat.Decimals.Signs.{IsSigned, combine-IsSigned}
use xcf_concordium_facilitat.Decimals.Padding.{replace_minus_of_Avoids}

-- The digits before and behind the point of a major-unit amount.
abbrev pub integer_digits : Text → Text
integer_digits amount =
    or_text (part_or_empty (get_elem? (split b'.' (replace_minus (trim amount))) 0)) (b'0' ∷ [])

abbrev pub fraction_digits : Text → Text
fraction_digits amount = part_or_empty (get_elem? (split b'.' (replace_minus (trim amount))) 1)

AllDigits : List Text → Type 0
AllDigits = All (λ p. all_digits p ≡ true)

AllDigits-of_parts : (ps : List Text) → amount_parts ps ≡ true → AllDigits ps
unfolding AllDigits
AllDigits-of_parts [] h = tt
AllDigits-of_parts (i ∷ []) h = ground arith
AllDigits-of_parts (i ∷ f ∷ []) h = ground arith
AllDigits-of_parts (i ∷ f ∷ g ∷ rest) h = cc

-- Where the parts between the points are digits, there is no minus sign.
AllDigits-cons :
    (c : ℕ) (ps : List Text) → AllDigits (onto_first c ps) → (is_digit c ≡ true) × AllDigits ps
unfolding AllDigits all_digits
AllDigits-cons c [] h = ground arith
AllDigits-cons c (p ∷ ps) (h, k) = (ground arith, (ground arith, k))

no_minus : (s : Text) → AllDigits (split b'.' s) → Avoids b'-' s
unfolding split
no_minus [] h = tt
no_minus (c ∷ s) h = elim (Bool-cases (c == b'.')) [
  | inl cut ↦
      let h' : AllDigits ([] ∷ split b'.' s) = rw cut at h in
      (ground arith, no_minus s (unfold AllDigits in h'.1))
  | inr other ↦
      let h' : AllDigits (onto_first c (split b'.' s)) = rw other at h in
      let (digit, rest) = AllDigits-cons c (split b'.' s) h' in
      (unfold is_digit in ground arith, no_minus s rest)
]

replace_minus-eq-without_sign :
    (s : Text) → Avoids b'-' (without_sign s) → replace_minus s ≡ without_sign s
unfolding replace_minus without_sign
replace_minus-eq-without_sign [] h = refl
replace_minus-eq-without_sign (c ∷ s) h = elim (Bool-cases (c == b'-')) [
  | inl m ↦ rw m
  | inr o ↦ rw o (ap (λ t. c ∷ t) (replace_minus_of_Avoids s (rw o at h).1))
]

digit_parts :
    (ps : List Text)
    → AllDigits ps
    → (all_digits (or_text (part_or_empty (get_elem? ps 0)) (b'0' ∷ [])) ≡ true)
      × (all_digits (part_or_empty (get_elem? ps 1)) ≡ true)
unfolding AllDigits all_digits is_digit
digit_parts [] h = (refl, refl)
digit_parts ([] ∷ []) h = (refl, refl)
digit_parts ((c ∷ p) ∷ []) h = (h.0, refl)
digit_parts ([] ∷ q ∷ ps) h = (refl, h.1.0)
digit_parts ((c ∷ p) ∷ q ∷ ps) h = (h.0, h.1.0)

amount_digits :
    (amount : Text)
    → amount_parts (split b'.' (without_sign (trim amount))) ≡ true
    → (all_digits (integer_digits amount) ≡ true) × (all_digits (fraction_digits amount) ≡ true)
amount_digits amount h =
    let all = AllDigits-of_parts (split b'.' (without_sign (trim amount))) h in
    rw (replace_minus-eq-without_sign (trim amount) (no_minus (without_sign (trim amount)) all))
      (digit_parts (split b'.' (without_sign (trim amount))) all)

-- A successful conversion is exact: the fractional part fits into `d` digits, and the result is the
-- amount's digits, read as one number, times ten to the power of the places that are missing; its
-- sign is the amount's, unless it is 0.
pub to_minor_exact :
    (amount : Text) (d : ℕ) {r : Text}
    → to_minor amount d ≡ ok r
    → (length (fraction_digits amount) ≤ d)
      × IsSigned
          (is_negative (trim amount))
          (digits_value (integer_digits amount ++ fraction_digits amount)
            * 10 ^ (d - length (fraction_digits amount)))
          r
unfolding to_minor
to_minor_exact amount d {r} h =
    elim (Bool-cases (amount_parts (split b'.' (without_sign (trim amount))))) [
      | inr bad ↦ absurd (cc (rw bad at h))
      | inl good ↦ elim (Bool-cases (ltb d (length (fraction_digits amount)))) [
        | inl long ↦ absurd (cc (rw (good, long) at h))
        | inr fits ↦
            let (i, f) = amount_digits amount good in
            let e : combine d (is_negative (trim amount)) (integer_digits amount)
                  (fraction_digits amount)
                ≡ r =
              cc (rw (good, fits) at h) in
            (
              ltb_false→le d _ fits,
              rw e at (
                  combine-IsSigned d (is_negative (trim amount)) (integer_digits amount)
                    (fraction_digits amount) i f),
            )
      ]
    ]
