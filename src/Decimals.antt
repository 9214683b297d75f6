-- ===== src/Decimals.antt =====
-- src/crp/decimals-registry.ts: amounts as decimal text, in major units ("25.00") and in minor units
-- ("2500"), and the in-memory registry of decimals.
pub mod Digits
pub mod Padding
pub mod RoundTrip
pub mod Signs
pub mod Meaning
pub mod Registry
pub mod Formatting
use xcf_concordium_facilitat.Base.{
  ℕ, zero, suc, ◌+◌, ◌-◌, Bool, true, false, not, ◌&&◌, Option, none, some, List, [], ◌∷◌, ◌++◌,
  if◌then◌else◌, is_empty, ltb, leb, ◌==◌, length, take, drop, get_elem?, Text, codes, text_eq,
  trim, starts_with, split, Num, as_natural,
}

-- The errors that the two conversions throw.
pub data AmountError : Type 0 where
  invalid_decimals invalid_format too_many_decimal_places : AmountError

pub data Result {ℓ} (A : Type ℓ) : Type ℓ where
  ok : A → Result A
  err : AmountError → Result A

unfoldable pub is_digit : ℕ → Bool
is_digit c = leb b'0' c && leb c b'9'

unfoldable pub all_digits : Text → Bool
unfolding is_digit
all_digits [] = true
all_digits (c ∷ s) = is_digit c && all_digits s

-- `/^\d+$/`
abbrev pub digits_plus : Text → Bool
digits_plus s = not (is_empty s) && all_digits s

-- `/^-?/`: the text behind an optional minus sign
unfoldable pub without_sign : Text → Text
without_sign [] = []
without_sign (c ∷ s) = if c == b'-' then s else c ∷ s

unfoldable pub is_negative : Text → Bool
is_negative [] = false
is_negative (c ∷ s) = c == b'-'

-- `/^\d+(\.\d+)?$/`, over the parts between the dots
abbrev pub amount_parts : List Text → Bool
amount_parts [] = false
amount_parts (i ∷ []) = digits_plus i
amount_parts (i ∷ f ∷ []) = digits_plus i && digits_plus f
amount_parts (i ∷ f ∷ g ∷ rest) = false

-- `s.replace("-", "")`: the first minus sign goes
unfoldable pub replace_minus : Text → Text
replace_minus [] = []
replace_minus (c ∷ s) = let rest = c ∷ replace_minus s in if c == b'-' then s else rest

-- `while (fracPart.length < decimals) fracPart += "0"`, in the rounds that are left
unfoldable pub append_zeros : ℕ → Text → Text
append_zeros zero s = s
append_zeros (suc n) s = append_zeros n (s ++ b'0' ∷ [])

-- `while (digits.length <= decimals) digits = "0" + digits`, in the rounds that are left
unfoldable pub prepend_zeros : ℕ → Text → Text
prepend_zeros zero s = s
prepend_zeros (suc n) s = prepend_zeros n (b'0' ∷ s)

-- `s.replace(/^0+/, "")`
unfoldable pub strip_zeros : Text → Text
strip_zeros [] = []
strip_zeros (c ∷ s) = let rest = strip_zeros s in if c == b'0' then rest else c ∷ s

-- `a || b` on strings
abbrev pub or_text : Text → Text → Text
or_text [] b = b
or_text (c ∷ s) b = c ∷ s

-- `combined.replace(/^0+/, "") || "0"`
unfoldable pub canonical_digits : Text → Text
unfolding strip_zeros
canonical_digits s = or_text (strip_zeros s) (b'0' ∷ [])

abbrev pub part_or_empty : Option Text → Text
part_or_empty none = []
part_or_empty (some p) = p

-- `negative && digits !== zero ? "-" + digits : digits`
abbrev pub with_sign : Bool → Text → Text → Text
with_sign negative zero_text s = if negative && not (text_eq s zero_text) then b'-' ∷ s else s

-- The tail of `toMinorUnits`, for a fractional part that fits.
unfoldable pub combine : ℕ → Bool → Text → Text → Text
unfolding append_zeros canonical_digits
combine d negative int_part frac =
    with_sign negative (b'0' ∷ [])
      (canonical_digits (int_part ++ append_zeros (d - length frac) frac))

-- `toMinorUnits`, for decimals that are an integer `d >= 0`
unfoldable pub to_minor : Text → ℕ → Result Text
unfolding without_sign is_negative replace_minus
to_minor amount d =
    let trimmed = trim amount in
    let parts = split b'.' (replace_minus trimmed) in
    let int_part = or_text (part_or_empty (get_elem? parts 0)) (b'0' ∷ []) in
    let frac = part_or_empty (get_elem? parts 1) in
    if not (amount_parts (split b'.' (without_sign trimmed)))
    then err invalid_format
    else if ltb d (length frac)
    then err too_many_decimal_places
    else ok (combine d (is_negative trimmed) int_part frac)

unfoldable pub to_minor_units : Text → Num → Result Text
unfolding to_minor
to_minor_units amount decimals = elim (as_natural decimals) [
  | none ↦ err invalid_decimals
  | some d ↦ to_minor amount d
]

-- The text that `fromMinorUnits` takes for zero: `"0.0".padEnd(decimals + 2, "0")`
unfoldable pub zero_major : ℕ → Text
unfolding append_zeros
zero_major d = append_zeros (d + 2 - 3) (b'0' ∷ b'.' ∷ b'0' ∷ [])

-- `${digits.slice(0, digits.length - decimals)}.${digits.slice(digits.length - decimals)}`
unfoldable pub point_at : ℕ → Text → Text
point_at d digits = take (length digits - d) digits ++ b'.' ∷ drop (length digits - d) digits

-- `fromMinorUnits`, for decimals that are an integer `d >= 0`
unfoldable pub from_minor : Text → ℕ → Result Text
unfolding without_sign is_negative replace_minus prepend_zeros zero_major point_at
from_minor amount d =
    let trimmed = trim amount in
    let digits = replace_minus trimmed in
    let padded = prepend_zeros (suc d - length digits) digits in
    if digits_plus (without_sign trimmed)
    then ok (with_sign (is_negative trimmed) (zero_major d) (point_at d padded))
    else err invalid_format

unfoldable pub from_minor_units : Text → Num → Result Text
unfolding from_minor
from_minor_units amount decimals = elim (as_natural decimals) [
  | none ↦ err invalid_decimals
  | some d ↦ from_minor amount d
]
