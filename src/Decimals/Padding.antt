-- ===== src/Decimals/Padding.antt =====
-- Signed texts, and digits padded and cut at the point: what the two conversions make of them.
use xcf_concordium_facilitat.Base.{
  ℕ, suc, ◌-◌, ◌<◌, ◌≡◌, refl, ap, ◌∙◌, Bool, true, false, List, [], ◌∷◌, ◌++◌, arith,
  if◌then◌else◌, is_empty, ltb, length, take, drop, length-append, All, Text, split, trim, is_space,
}
use xcf_concordium_facilitat.Base.Trim.{Avoids, trim_of_solid, split-append}
use xcf_concordium_facilitat.Decimals.{
  ok, is_digit, all_digits, append_zeros, prepend_zeros, canonical_digits, or_text, with_sign,
  replace_minus, without_sign, is_negative, combine, to_minor, zero_major, point_at, from_minor,
}
use xcf_concordium_facilitat.Decimals.Digits.{
  zeros, prepend_zeros_lem, length-zeros, all_digits-zeros, all_digits-append, all_digits-take,
  all_digits-drop, take-drop, length-take, length-drop, Avoids-of_digits, strip_zeros-zeros,
}

-- The text of an integer with sign `negative` and digits `ds`.
abbrev pub signed : Bool → Text → Text
signed negative ds = if negative then b'-' ∷ ds else ds

abbrev pub IsSolid : Text → Type 0
IsSolid = All (λ c. is_space c ≡ false)

pub IsSolid-of_digits : (s : Text) → all_digits s ≡ true → IsSolid s
unfolding all_digits is_digit is_space
IsSolid-of_digits [] h = tt
IsSolid-of_digits (c ∷ s) h = (ground arith, IsSolid-of_digits s (ground arith))

pub IsSolid-append : (s t : Text) → IsSolid s → IsSolid t → IsSolid (s ++ t)
IsSolid-append [] t h k = k
IsSolid-append (c ∷ s) t h k = (h.0, IsSolid-append s t h.1 k)

pub IsSolid-signed : (negative : Bool) (s : Text) → IsSolid s → IsSolid (signed negative s)
unfolding is_space
IsSolid-signed true s h = (refl, h)
IsSolid-signed false s h = h

pub replace_minus_of_Avoids : (s : Text) → Avoids b'-' s → replace_minus s ≡ s
unfolding replace_minus
replace_minus_of_Avoids [] h = refl
replace_minus_of_Avoids (c ∷ s) (h, k) = rw (h, replace_minus_of_Avoids s k)

-- Taking a signed text apart.
pub signed_parts :
    (negative : Bool) (s : Text)
    → Avoids b'-' s
    → (replace_minus (signed negative s) ≡ s)
      × (without_sign (signed negative s) ≡ s)
      × (is_negative (signed negative s) ≡ negative)
signed_parts true s h =
    (unfold replace_minus in refl, unfold without_sign in refl, unfold is_negative in refl)
signed_parts false [] h =
    (unfold replace_minus in refl, unfold without_sign in refl, unfold is_negative in refl)
signed_parts false (c ∷ s) h =
    (replace_minus_of_Avoids (c ∷ s) h, unfold without_sign in rw h.0, unfold is_negative in h.0)

pub Avoids-append : (sep : ℕ) (s t : Text) → Avoids sep s → Avoids sep t → Avoids sep (s ++ t)
Avoids-append sep [] t h k = k
Avoids-append sep (c ∷ s) t h k = (h.0, Avoids-append sep s t h.1 k)

pub not_empty : (s : Text) → 0 < length s → is_empty s ≡ false
not_empty [] h = absurd (omega arith)
not_empty (c ∷ s) h = refl

pub canonical_not_empty : (s : Text) → canonical_digits s ≡ s → is_empty s ≡ false
unfolding canonical_digits
canonical_not_empty [] h = absurd (cc h)
canonical_not_empty (c ∷ s) h = refl

abbrev pub joined_parts : List Text → Text
joined_parts (p ∷ q ∷ []) = p ++ q
joined_parts _ = []

-- The digits padded to more than `d` places, cut at the point.
module _ (d : ℕ) (some_places : 0 < d) (ds : Text) (digits : all_digits ds ≡ true) where
  unfoldable pub padded : Text
  padded = prepend_zeros (suc d - length ds) ds

  pub padded_lem : padded ≡ zeros (suc d - length ds) ++ ds
  unfolding padded
  padded_lem = prepend_zeros_lem (suc d - length ds) ds

  padded_digits : all_digits padded ≡ true
  padded_digits = rw padded_lem (all_digits-append _ ds (all_digits-zeros _) digits)

  d-lt-length : d < length padded
  d-lt-length = rw padded_lem (
      omega (arith, length-append (zeros (suc d - length ds)) ds, length-zeros (suc d - length ds)))

  unfoldable pub whole_part : Text
  whole_part = take (length padded - d) padded

  unfoldable pub places : Text
  places = drop (length padded - d) padded

  pub whole_digits : all_digits whole_part ≡ true
  unfolding whole_part
  whole_digits = all_digits-take (length padded - d) padded padded_digits

  pub places_digits : all_digits places ≡ true
  unfolding places
  places_digits = all_digits-drop (length padded - d) padded padded_digits

  pub whole_not_empty : is_empty whole_part ≡ false
  unfolding whole_part
  whole_not_empty =
      not_empty _ (omega (arith, d-lt-length, length-take (length padded - d) padded (omega arith)))

  pub length-places : length places ≡ d
  unfolding places
  length-places = omega (arith, d-lt-length, length-drop (length padded - d) padded)

  whole_and_places : whole_part ++ places ≡ padded
  unfolding whole_part places
  whole_and_places = take-drop (length padded - d) padded

  pub body : Text
  body = whole_part ++ b'.' ∷ places

  body-eq-point_at : point_at d padded ≡ body
  unfolding body whole_part places point_at
  body-eq-point_at = refl

  body-IsSolid : IsSolid body
  unfolding body is_space
  body-IsSolid =
      IsSolid-append whole_part (b'.' ∷ places) (IsSolid-of_digits whole_part whole_digits)
        (refl, IsSolid-of_digits places places_digits)

  body-Avoids : Avoids b'-' body
  unfolding body is_digit
  body-Avoids =
      Avoids-append b'-' whole_part (b'.' ∷ places)
        (Avoids-of_digits b'-' whole_part refl whole_digits)
        (refl, Avoids-of_digits b'-' places refl places_digits)

  pub split-body : split b'.' body ≡ whole_part ∷ places ∷ []
  unfolding body is_digit
  split-body =
      split-append b'.' whole_part places (Avoids-of_digits b'.' whole_part refl whole_digits)
        (Avoids-of_digits b'.' places refl places_digits)

  pub canonical-padded : canonical_digits (whole_part ++ places) ≡ canonical_digits ds
  unfolding canonical_digits
  canonical-padded = rw (whole_and_places, padded_lem, strip_zeros-zeros (suc d - length ds) ds)

  module _ (negative : Bool) where
    trim-body : trim (signed negative body) ≡ signed negative body
    trim-body = trim_of_solid _ (IsSolid-signed negative body body-IsSolid)

    or_text_whole : or_text whole_part (b'0' ∷ []) ≡ whole_part
    or_text_whole = go whole_part whole_not_empty
      where
        go : (s : Text) → is_empty s ≡ false → or_text s (b'0' ∷ []) ≡ s
        go [] h = cc
        go (c ∷ s) h = refl

    append_no_zeros : append_zeros (d - length places) places ≡ places
    append_no_zeros =
        ap (λ n. append_zeros n places)
          (let e : d - length places ≡ 0 = omega (arith, length-places) in e)
        ∙ unfold append_zeros in refl

    combine-body :
        combine d negative whole_part places ≡ with_sign negative (b'0' ∷ []) (canonical_digits ds)
    unfolding combine
    combine-body =
        ap (λ t. with_sign negative (b'0' ∷ []) t)
          (ap (λ t. canonical_digits (whole_part ++ t)) append_no_zeros ∙ canonical-padded)

    -- The written-out amount converts back to the digits.
    pub to_minor-body :
        to_minor (signed negative body) d
        ≡ ok (with_sign negative (b'0' ∷ []) (canonical_digits ds))
    unfolding to_minor
    to_minor-body =
        let (minus, sign, test) = signed_parts negative body body-Avoids in
        let some_whole = whole_not_empty in
        let some_frac = not_empty places (omega (arith, length-places)) in
        let fits : ltb d (length places) ≡ false = ground (arith, length-places) in
        rw (
          trim-body, minus, sign, test, split-body, some_whole, some_frac, whole_digits,
          places_digits, fits, or_text_whole, combine-body,
        )

    pub from_minor-signed :
        canonical_digits ds ≡ ds
        → from_minor (signed negative ds) d ≡ ok (with_sign negative (zero_major d) body)
    unfolding from_minor padded
    from_minor-signed canonical =
        let (minus, sign, test) =
          signed_parts negative ds (Avoids-of_digits b'-' ds (unfold is_digit in refl) digits) in
        let solid = trim_of_solid _ (IsSolid-signed negative ds (IsSolid-of_digits ds digits)) in
        rw (solid, minus, sign, test, digits, canonical_not_empty ds canonical, body-eq-point_at)
