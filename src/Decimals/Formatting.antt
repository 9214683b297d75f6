-- ===== src/Decimals/Formatting.antt =====
-- `formatPltAmount` of src/worker/pltDecimals.ts against `toMinorUnits`.
use xcf_concordium_facilitat.Base.{
  ℕ, suc, ◌+◌, ◌-◌, ◌≤◌, ◌<◌, ◌≡◌, refl, sym, ap, ap₂, ◌∙◌, Bool, true, false, [], ◌∷◌, ◌++◌, arith,
  length, length-append, leb, ltb, ◌==◌, is_empty, Bool-cases, inl, inr, Text, is_space,
  starts_with, codes, take, drop, text_eq, if◌then◌else◌,
}
use xcf_concordium_facilitat.Base.Trim.{trim_of_solid, split-append, split_of_Avoids}
use xcf_concordium_facilitat.Decimals.{
  ok, is_digit, all_digits, prepend_zeros, canonical_digits, or_text, with_sign, combine, to_minor,
}
use xcf_concordium_facilitat.Decimals.Digits.{
  zeros, append_zeros_lem, length-zeros, Avoids-of_digits,
}
use xcf_concordium_facilitat.Decimals.Padding.{
  signed, IsSolid-of_digits, IsSolid-append, IsSolid-signed, Avoids-append, signed_parts, padded,
  whole_part, places, canonical-padded, whole_digits, places_digits, whole_not_empty, length-places,
  canonical_not_empty,
}
use xcf_concordium_facilitat.Decimals.Registry.{
  cons_unless_zero, strip_end_zeros, with_fraction, format_digits, format_plt_amount,
}

-- What is stripped from the end of a text are zeros.
strip_end_zeros_lem : (s : Text) → (k : ℕ) × (s ≡ strip_end_zeros s ++ zeros k)
unfolding strip_end_zeros zeros
strip_end_zeros_lem [] = (0, refl)
strip_end_zeros_lem (c ∷ s) = let (k, e) = strip_end_zeros_lem s in go k (strip_end_zeros s) e
  where
    go : (k : ℕ) (r : Text) → s ≡ r ++ zeros k → (j : ℕ) × (c ∷ s ≡ cons_unless_zero c r ++ zeros j)
    go k (d ∷ r) e = (k, ap (λ t. c ∷ t) e)
    go k [] e = elim (Bool-cases (c == b'0')) [
      | inr other ↦ rw other (k, ap (λ t. c ∷ t) e)
      | inl same ↦
          let zero_digit : c ≡ b'0' = ground arith in
          (suc k, rw same (ap₂ (λ x t. x ∷ t) zero_digit e))
    ]

or_text_some : (s t : Text) → is_empty s ≡ false → or_text s t ≡ s
or_text_some [] t h = cc
or_text_some (c ∷ s) t h = refl

-- An amount of a whole part and some places
to_minor_of_places :
    (d : ℕ) (negative : Bool) (w f : Text)
    → all_digits w ≡ true
    → all_digits f ≡ true
    → is_empty w ≡ false
    → is_empty f ≡ false
    → length f ≤ d
    → to_minor (signed negative (w ++ b'.' ∷ f)) d ≡ ok (combine d negative w f)
unfolding to_minor
to_minor_of_places d negative w f wd fd wn fn short =
    let avoids =
      Avoids-append b'-' w (b'.' ∷ f) (Avoids-of_digits b'-' w (unfold is_digit in refl) wd)
        (refl, Avoids-of_digits b'-' f (unfold is_digit in refl) fd) in
    let (minus, sign, test) = signed_parts negative (w ++ b'.' ∷ f) avoids in
    let solid = trim_of_solid (signed negative (w ++ b'.' ∷ f)) (
      IsSolid-signed negative (w ++ b'.' ∷ f) (
        IsSolid-append w (b'.' ∷ f) (IsSolid-of_digits w wd)
          (unfold is_space in refl, IsSolid-of_digits f fd))) in
    let cut =
      split-append b'.' w f (Avoids-of_digits b'.' w (unfold is_digit in refl) wd)
        (Avoids-of_digits b'.' f (unfold is_digit in refl) fd) in
    let fits : ltb d (length f) ≡ false = ground arith in
    rw (solid, minus, sign, test, cut, wn, fn, wd, fd, fits, or_text_some w (b'0' ∷ []) wn) refl

-- A whole amount
to_minor_of_whole :
    (d : ℕ) (negative : Bool) (w : Text)
    → all_digits w ≡ true
    → is_empty w ≡ false
    → to_minor (signed negative w) d ≡ ok (combine d negative w [])
unfolding to_minor
to_minor_of_whole d negative w wd wn =
    let (minus, sign, test) =
      signed_parts negative w (Avoids-of_digits b'-' w (unfold is_digit in refl) wd) in
    let solid =
      trim_of_solid (signed negative w) (IsSolid-signed negative w (IsSolid-of_digits w wd)) in
    let cut = split_of_Avoids b'.' w (Avoids-of_digits b'.' w (unfold is_digit in refl) wd) in
    let fits : ltb d 0 ≡ false = ground arith in
    rw (solid, minus, sign, test, cut, wn, wd, fits, or_text_some w (b'0' ∷ []) wn) refl

module _ (d : ℕ) (some_places : 0 < d) (ds : Text) (digits : all_digits ds ≡ true) where
  padded-eq :
      (if leb (length ds) d then prepend_zeros (d - length ds + 1) ds else ds)
      ≡ padded d some_places ds digits
  unfolding padded
  padded-eq = elim (Bool-cases (leb (length ds) d)) [
    | inl short ↦ rw short (
        ap (λ n. prepend_zeros n ds)
          (let e : d - length ds + 1 ≡ suc d - length ds = ground arith in e))
    | inr long ↦ rw long (
        sym (
          ap (λ n. prepend_zeros n ds) (let e : suc d - length ds ≡ 0 = ground arith in e)
          ∙ unfold prepend_zeros in refl))
  ]

  format_digits-parts :
      format_digits ds d
      ≡ with_fraction
          (whole_part d some_places ds digits)
          (strip_end_zeros (places d some_places ds digits))
  unfolding format_digits whole_part places
  format_digits-parts =
      ap (λ p. with_fraction (take (length p - d) p) (strip_end_zeros (drop (length p - d) p)))
        padded-eq

  -- The places that are stripped come back as zeros.
  combine-stripped :
      (negative : Bool) (r : Text) (k : ℕ)
      → places d some_places ds digits ≡ r ++ zeros k
      → combine d negative (whole_part d some_places ds digits) r
        ≡ with_sign negative (b'0' ∷ []) (canonical_digits ds)
  unfolding combine
  combine-stripped negative r k e =
      let long =
        sym (length-places d some_places ds digits) ∙ ap length e ∙ length-append r (zeros k) in
      let missing : d - length r ≡ k = omega (arith, long, length-zeros k) in
      let whole = whole_part d some_places ds digits in
      ap (λ t. with_sign negative (b'0' ∷ []) (canonical_digits (whole ++ t)))
        (append_zeros_lem (d - length r) r ∙ ap (λ n. r ++ zeros n) missing ∙ sym e)
      ∙ ap (λ t. with_sign negative (b'0' ∷ []) t) (canonical-padded d some_places ds digits)

  to_minor-formatted :
      (negative : Bool) (r : Text) (k : ℕ)
      → places d some_places ds digits ≡ r ++ zeros k
      → all_digits r ≡ true
      → length r ≤ d
      → to_minor (signed negative (with_fraction (whole_part d some_places ds digits) r)) d
        ≡ ok (with_sign negative (b'0' ∷ []) (canonical_digits ds))
  to_minor-formatted negative [] k e rd short =
      to_minor_of_whole d negative (whole_part d some_places ds digits)
        (whole_digits d some_places ds digits) (whole_not_empty d some_places ds digits)
      ∙ ap ok (combine-stripped negative [] k e)
  to_minor-formatted negative (c ∷ r) k e rd short =
      to_minor_of_places d negative (whole_part d some_places ds digits) (c ∷ r)
        (whole_digits d some_places ds digits) rd (whole_not_empty d some_places ds digits) refl
        short
      ∙ ap ok (combine-stripped negative (c ∷ r) k e)

all_digits-left : (s t : Text) → all_digits (s ++ t) ≡ true → all_digits s ≡ true
unfolding all_digits
all_digits-left [] t h = refl
all_digits-left (c ∷ s) t h = ground (arith, all_digits-left s t)

format_plt_amount-signed :
    (d : ℕ) (negative : Bool) (ds : Text)
    → all_digits ds ≡ true
    → is_empty ds ≡ false
    → format_plt_amount (signed negative ds) d ≡ signed negative (format_digits ds d)
unfolding format_plt_amount starts_with codes all_digits is_digit
format_plt_amount-signed d true ds digits some_digit = refl
format_plt_amount-signed d false [] digits some_digit = cc
format_plt_amount-signed d false (c ∷ ds) digits some_digit =
    let no_sign : (b'-' == c) ≡ false = ground arith in rw no_sign refl

-- `formatPltAmount` loses nothing: canonical minor units, formatted with `d >= 1` decimals, of which the zeros at the end are stripped, convert back to the same text. Canonical
-- means: digits without a leading zero, and no minus sign before 0.
pub to_minor-format_plt_amount :
    (d : ℕ) (negative : Bool) (ds : Text)
    → 0 < d
    → all_digits ds ≡ true
    → canonical_digits ds ≡ ds
    → (negative ≡ true → text_eq ds (b'0' ∷ []) ≡ false)
    → to_minor (format_plt_amount (signed negative ds) d) d ≡ ok (signed negative ds)
to_minor-format_plt_amount d negative ds some_places digits canonical nonzero =
    let p = places d some_places ds digits in
    let (k, e) = strip_end_zeros_lem p in
    let stripped : all_digits (strip_end_zeros p) ≡ true =
      all_digits-left (strip_end_zeros p) (zeros k)
        (ap all_digits (sym e) ∙ places_digits d some_places ds digits) in
    let split_length =
      sym (length-places d some_places ds digits)
      ∙ ap length e
      ∙ length-append (strip_end_zeros p) (zeros k) in
    let short : length (strip_end_zeros p) ≤ d = omega (arith, split_length) in
    ap (λ t. to_minor t d)
      (format_plt_amount-signed d negative ds digits (canonical_not_empty ds canonical)
        ∙ ap (signed negative) (format_digits-parts d some_places ds digits))
    ∙ to_minor-formatted d some_places ds digits negative (strip_end_zeros p) k e stripped short
    ∙ ap (λ t. ok (with_sign negative (b'0' ∷ []) t)) canonical
    ∙ ap ok (sign_kept negative nonzero)
  where
    sign_kept :
        (negative : Bool)
        → (negative ≡ true → text_eq ds (b'0' ∷ []) ≡ false)
        → with_sign negative (b'0' ∷ []) ds ≡ signed negative ds
    sign_kept true nonzero = rw (nonzero refl) refl
    sign_kept false nonzero = refl
