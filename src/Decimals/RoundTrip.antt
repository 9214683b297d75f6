-- ===== src/Decimals/RoundTrip.antt =====
-- `toMinorUnits` undoes `fromMinorUnits`.
use xcf_concordium_facilitat.Base.{
  ℕ, suc, ◌+◌, ◌-◌, ◌<◌, ◌≡◌, ◌≢◌, refl, sym, ap, ap₂, ◌∙◌, Bool, true, false, [], ◌∷◌, ◌++◌, arith,
  length, take, drop, append-nil, Bool-cases, inl, inr, Text, text_eq, text_eq_iff, split, is_space,
}
use xcf_concordium_facilitat.Base.Trim.{trim_of_solid, split-append}
use xcf_concordium_facilitat.Decimals.{
  ok, err, invalid_format, is_digit, all_digits, prepend_zeros, strip_zeros, canonical_digits,
  or_text, to_minor, zero_major, point_at, from_minor,
}
use xcf_concordium_facilitat.Decimals.Digits.{
  zeros, append_zeros_lem, all_digits-zeros, Avoids-of_digits, strip_zeros-zeros,
}
use xcf_concordium_facilitat.Decimals.Padding.{
  signed, IsSolid-of_digits, IsSolid-append, Avoids-append, signed_parts, joined_parts, whole_part,
  places, body, split-body, canonical-padded, to_minor-body, from_minor-signed,
}

-- The text for zero has nothing but zeros around its point.
zero_major-parts : (d : ℕ) → split b'.' (zero_major d) ≡ (b'0' ∷ []) ∷ zeros (suc (d + 2 - 3)) ∷ []
unfolding zero_major zeros is_digit
zero_major-parts d = rw (append_zeros_lem (d + 2 - 3) (b'0' ∷ b'.' ∷ b'0' ∷ [])) (
    split-append b'.' (b'0' ∷ []) (b'0' ∷ zeros (d + 2 - 3)) (refl, tt)
      (Avoids-of_digits b'.' (b'0' ∷ zeros (d + 2 - 3)) refl (all_digits-zeros (suc (d + 2 - 3)))))

canonical_digits-zeros : (n : ℕ) → canonical_digits (zeros n) ≡ b'0' ∷ []
unfolding canonical_digits
canonical_digits-zeros n =
    ap (λ t. or_text t (b'0' ∷ []))
      (ap strip_zeros (sym (append-nil (zeros n))) ∙ strip_zeros-zeros n [])

-- Only the digits of 0 are written as the text for zero.
body-ne-zero :
    (d : ℕ) (some_places : 0 < d) (ds : Text) (digits : all_digits ds ≡ true)
    → canonical_digits ds ≡ ds
    → text_eq ds (b'0' ∷ []) ≡ false
    → text_eq (body d some_places ds digits) (zero_major d) ≡ false
unfolding zeros
body-ne-zero d some_places ds digits canonical nonzero =
    elim (Bool-cases (text_eq (body d some_places ds digits) (zero_major d))) [
      | inr other ↦ other
      | inl same ↦
          let parts =
            sym (split-body d some_places ds digits)
            ∙ ap (split b'.') ((text_eq_iff _ _).0 same)
            ∙ zero_major-parts d in
          let joined : whole_part d some_places ds digits ++ places d some_places ds digits
              ≡ zeros (suc (suc (d + 2 - 3))) =
            ap joined_parts parts in
          let zero_digits : ds ≡ b'0' ∷ [] =
            sym canonical
            ∙ sym (canonical-padded d some_places ds digits)
            ∙ ap canonical_digits joined
            ∙ canonical_digits-zeros (suc (suc (d + 2 - 3))) in
          cc ((text_eq_iff ds (b'0' ∷ [])).1 zero_digits)
    ]

-- Canonical minor units, written out with `d >= 1` decimals and read back, are the same text.
-- Canonical means: digits without a leading zero, and no minus sign before 0.
pub to_minor-from_minor :
    (d : ℕ) (negative : Bool) (ds : Text)
    → 0 < d
    → all_digits ds ≡ true
    → canonical_digits ds ≡ ds
    → (negative ≡ true → text_eq ds (b'0' ∷ []) ≡ false)
    → (major : Text) × (from_minor (signed negative ds) d ≡ ok major)
      × (to_minor major d ≡ ok (signed negative ds))
to_minor-from_minor d true ds some_places digits canonical nonzero = (
  b'-' ∷ body d some_places ds digits,
  from_minor-signed d some_places ds digits true canonical
      ∙ rw (body-ne-zero d some_places ds digits canonical (nonzero refl)),
  to_minor-body d some_places ds digits true ∙ rw (canonical, nonzero refl),
)
to_minor-from_minor d false ds some_places digits canonical nonzero = (
  body d some_places ds digits,
  from_minor-signed d some_places ds digits false canonical,
  to_minor-body d some_places ds digits false ∙ rw canonical,
)

take_all : (s : Text) → take (length s - 0) s ≡ s
take_all s = ap (λ n. take n s) (let e : length s - 0 ≡ length s = omega arith in e) ∙ go s
  where
    go : (s : Text) → take (length s) s ≡ s
    go [] = refl
    go (c ∷ s) = ap (λ t. c ∷ t) (go s)

drop_all : (s : Text) → drop (length s - 0) s ≡ []
drop_all s = ap (λ n. drop n s) (let e : length s - 0 ≡ length s = omega arith in e) ∙ go s
  where
    go : (s : Text) → drop (length s) s ≡ []
    go [] = refl
    go (c ∷ s) = go s

no_padding : (c : ℕ) (s : Text) → prepend_zeros (suc 0 - length (c ∷ s)) (c ∷ s) ≡ c ∷ s
no_padding c s =
    ap (λ n. prepend_zeros n (c ∷ s)) (let e : suc 0 - length (c ∷ s) ≡ 0 = omega arith in e)
    ∙ unfold prepend_zeros in refl

point_at-zero : (s : Text) → point_at 0 s ≡ s ++ b'.' ∷ []
unfolding point_at
point_at-zero s = ap₂ (λ t u. t ++ b'.' ∷ u) (take_all s) (drop_all s)

-- A text that ends in a point is no amount.
to_minor_of_pointed :
    (d : ℕ) (s : Text) → all_digits s ≡ true → to_minor (s ++ b'.' ∷ []) d ≡ err invalid_format
unfolding to_minor
to_minor_of_pointed d s digits =
    let avoids = Avoids-of_digits b'.' s (unfold is_digit in refl) digits in
    let solid =
      trim_of_solid (s ++ b'.' ∷ [])
        (IsSolid-append s (b'.' ∷ []) (IsSolid-of_digits s digits) (unfold is_space in refl, tt)) in
    let (minus, sign, test) = signed_parts false (s ++ b'.' ∷ []) (
      Avoids-append b'-' s (b'.' ∷ []) (Avoids-of_digits b'-' s (unfold is_digit in refl) digits)
        (refl, tt)) in
    rw (solid, sign, split-append b'.' s [] avoids tt) (ground arith)

-- With no decimals the two functions do not fit together: `fromMinorUnits` writes a non-empty text of
-- digits with a point behind it, and `toMinorUnits` refuses that text, whatever the decimals.
pub from_minor_no_decimals :
    (d : ℕ) (ds : Text)
    → ds ≢ []
    → all_digits ds ≡ true
    → (from_minor ds 0 ≡ ok (ds ++ b'.' ∷ [])) × (to_minor (ds ++ b'.' ∷ []) d ≡ err invalid_format)
unfolding from_minor
from_minor_no_decimals d [] some_digit digits = absurd (some_digit refl)
from_minor_no_decimals d (c ∷ ds) some_digit digits =
    let (minus, sign, test) =
      signed_parts false (c ∷ ds)
        (Avoids-of_digits b'-' (c ∷ ds) (unfold is_digit in refl) digits) in
    let solid = trim_of_solid (c ∷ ds) (IsSolid-of_digits (c ∷ ds) digits) in
    (
      rw (solid, minus, sign, test, digits, no_padding c ds, point_at-zero (c ∷ ds)),
      to_minor_of_pointed d (c ∷ ds) digits,
    )
