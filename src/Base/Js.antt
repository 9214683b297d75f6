-- ===== src/Base/Js.antt =====
-- JavaScript numbers and dynamic values, as far as the program looks at them.
use Prim.Native.Nat.{ℕ}
use mathlib.Core.Path.{◌≡◌}
use mathlib.Core.Logic.{◌↔◌}
use native.Mathlib.Omega.{arith}
use mathlib.Core.Bool.{Bool, true, false, not, ◌&&◌}
use mathlib.Core.Option.{Option, none, some}
use mathlib.Core.List.{[]}
use xcf_concordium_facilitat.Base.Lists.{is_empty, ◌==◌, ltb, if◌then◌else◌}
use xcf_concordium_facilitat.Base.Strings.{Text, codes, text_eq, trim, lower}

-- `negsuc n` is -(n + 1).
pub data ℤ : Type 0 where
  pos : ℕ → ℤ
  negsuc : ℕ → ℤ

-- A double: `infinite true` is +∞; `fraction z k` is a number that is no integer, its floor `z` and
-- its fractional part, which `k` names.
pub data Num : Type 0 where
  nan : Num
  infinite : Bool → Num
  whole : ℤ → Num
  fraction : ℤ → ℕ → Num

abbrev pub int_eq : ℤ → ℤ → Bool
int_eq (pos m) (pos n) = m == n
int_eq (negsuc m) (negsuc n) = m == n
int_eq _ _ = false

pub int_eq_iff : (a b : ℤ) → (int_eq a b ≡ true) ↔ (a ≡ b)
int_eq_iff (pos m) (pos n) = ground arith
int_eq_iff (pos m) (negsuc n) = ground arith
int_eq_iff (negsuc m) (pos n) = ground arith
int_eq_iff (negsuc m) (negsuc n) = ground arith

abbrev bool_eq : Bool → Bool → Bool
bool_eq true b = b
bool_eq false b = not b

-- `a === b` on numbers
unfoldable pub num_eq : Num → Num → Bool
num_eq (infinite a) (infinite b) = bool_eq a b
num_eq (whole a) (whole b) = int_eq a b
num_eq (fraction a j) (fraction b k) = int_eq a b && j == k
num_eq _ _ = false

abbrev pub is_nan : Num → Bool
is_nan nan = true
is_nan _ = false

-- `Number.isFinite(n) ? Math.floor(n) : null`
abbrev pub finite_floor : Num → Option ℤ
finite_floor (whole z) = some z
finite_floor (fraction z k) = some z
finite_floor _ = none

-- `Number.isFinite(n) && n > 0`
abbrev pub is_finite_positive : Num → Bool
is_finite_positive (whole (pos n)) = ltb 0 n
is_finite_positive (fraction (pos n) k) = true
is_finite_positive _ = false

-- `Number.isInteger(n) && n >= 0`, with the number
abbrev pub as_natural : Num → Option ℕ
as_natural (whole (pos n)) = some n
as_natural _ = none

-- A value of unknown type. Property names are texts, as all strings are.
mutual
  pub data Value : Type 0 where
    undefined null : Value
    bool : Bool → Value
    num : Num → Value
    str : Text → Value
    arr : Items → Value
    obj : Fields → Value

  pub data Items : Type 0 where
    nil : Items
    cons : Value → Items → Items

  pub data Fields : Type 0 where
    end : Fields
    field : Text → Value → Fields → Fields

abbrev pub find_field : Text → Fields → Value
find_field k end = undefined
find_field k (field j v fs) = let rest = find_field k fs in if text_eq j k then v else rest

-- `v?.k`. Of the values that are no object, none has a property that the program reads.
abbrev pub get : Value → Text → Value
get (obj fs) k = find_field k fs
get v k = undefined

-- `a ?? b`
abbrev pub coalesce : Value → Value → Value
coalesce undefined b = b
coalesce null b = b
coalesce a b = a

abbrev pub is_undefined : Value → Bool
is_undefined undefined = true
is_undefined v = false

-- `!v`
abbrev pub is_falsy : Value → Bool
is_falsy undefined = true
is_falsy null = true
is_falsy (bool false) = true
is_falsy (num nan) = true
is_falsy (num (whole (pos n))) = n == 0
is_falsy (str s) = is_empty s
is_falsy v = false

-- `isPlainObject(v) ? v : {}`
abbrev pub plain_object_or_empty : Value → Value
plain_object_or_empty (obj fs) = obj fs
plain_object_or_empty v = obj end

-- What the runtime's conversions give where they parse or print a number, or walk an object:
-- `Number(s)` of a string, `String(n)` of a number, and both of an array or object; and what
-- `toUpperCase` makes of a code unit that is not ASCII.
pub record Runtime : Type 0 where
  pub number_of_text : Text → Num
  pub text_of_number : Num → Text
  pub number_of_object : Value → Num
  pub text_of_object : Value → Text
  pub upper_of_wide : ℕ → Text

-- `process.env` and `Number.parseInt(raw, 10)`, `none` where it is not finite
pub record Environment : Type 0 where
  pub variable : Text → Option Text
  pub parse_int : Text → Option ℤ

abbrev pub int_or : ℤ → Option ℤ → ℤ
int_or default none = default
int_or default (some v) = v

-- `String(v)`
unfoldable pub to_string : Runtime → Value → Text
unfolding codes
to_string rt undefined = codes "undefined"
to_string rt null = codes "null"
to_string rt (bool true) = codes "true"
to_string rt (bool false) = codes "false"
to_string rt (num n) = rt.text_of_number n
to_string rt (str s) = s
to_string rt v = rt.text_of_object v

-- `Number(v)`
unfoldable pub to_number : Runtime → Value → Num
to_number rt undefined = nan
to_number rt null = whole (pos 0)
to_number rt (bool true) = whole (pos 1)
to_number rt (bool false) = whole (pos 0)
to_number rt (num n) = n
to_number rt (str s) = rt.number_of_text s
to_number rt v = rt.number_of_object v

-- `String(v ?? "").trim()`
unfoldable pub trimmed_string : Runtime → Value → Text
unfolding to_string
trimmed_string rt v = trim (to_string rt (coalesce v (str [])))

-- `asBooleanish` of src/routes/crp.payments.ts
unfoldable pub as_booleanish : Runtime → Value → Bool
unfolding trimmed_string codes
as_booleanish rt v =
    let s = lower (trimmed_string rt v) in
    if text_eq s (codes "1")
    then true
    else if text_eq s (codes "true")
    then true
    else if text_eq s (codes "yes")
    then true
    else if text_eq s (codes "y")
    then true
    else text_eq s (codes "on")
