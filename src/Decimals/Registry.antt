-- ===== src/Decimals/Registry.antt =====
-- src/crp/decimals-registry.ts: the registry of decimals in memory, and src/worker/decimalsRegistry.ts
-- with src/worker/pltDecimals.ts: the two registries by network and token. A `Map` is the list of its
-- entries, in the order of their insertion.
use xcf_concordium_facilitat.Base.{
  ℕ, ◌==◌, ◌-◌, ◌+◌, ◌++◌, Option, none, some, List, [], ◌∷◌, if◌then◌else◌, leb, is_empty, take,
  drop, length, Text, codes, text_eq, starts_with, Num, Value, as_natural,
}
use xcf_concordium_facilitat.Base.Js.{num, obj, Fields, end, field}
use xcf_concordium_facilitat.Decimals.{prepend_zeros}

module _ {V : Type 0} where
  -- `map.set(k, v)`: an old entry keeps its place.
  unfoldable pub map_set : Text → V → List (Text × V) → List (Text × V)
  map_set k v [] = (k, v) ∷ []
  map_set k v (e ∷ es) =
      let rest = map_set k v es in if text_eq e.0 k then (k, v) ∷ es else e ∷ rest

  -- `map.get(k)`
  unfoldable pub map_get : Text → List (Text × V) → Option V
  map_get k [] = none
  map_get k (e ∷ es) = let rest = map_get k es in if text_eq e.0 k then some e.1 else rest

-- `typeof v === "number" && Number.isInteger(v) && v >= 0`
abbrev natural_value : Value → Option ℕ
natural_value (num n) = as_natural n
natural_value v = none

abbrev set_if_natural : Text → Option ℕ → List (Text × ℕ) → List (Text × ℕ)
unfolding map_set
set_if_natural k none registry = registry
set_if_natural k (some n) registry = map_set k n registry

-- The loop of `loadFromEnv`
unfoldable pub load_entries : Fields → List (Text × ℕ) → List (Text × ℕ)
unfolding set_if_natural
load_entries end registry = registry
load_entries (field k v fs) registry = load_entries fs (set_if_natural k (natural_value v) registry)

abbrev load_parsed : Option Value → List (Text × ℕ) → List (Text × ℕ)
unfolding load_entries
load_parsed (some (obj fs)) registry = load_entries fs registry
load_parsed v registry = registry

-- `loadFromEnv`, over PLT_DECIMALS_OVERRIDES; `parse` is JSON.parse, `none` where it throws. An
-- array, whose keys are its indices, is left out.
unfoldable pub load_from_env :
    (Text → Option Value) → Option Text → List (Text × ℕ) → List (Text × ℕ)
unfolding load_parsed
load_from_env parse none registry = registry
load_from_env parse (some raw) registry =
    if is_empty raw then registry else load_parsed (parse raw) registry

unfoldable pub default_entries : List (Text × ℕ)
unfolding codes
default_entries = (codes "usd:test", 2) ∷ []

-- The registry after the module is loaded
unfoldable pub initial_registry : (Text → Option Value) → Option Text → List (Text × ℕ)
unfolding load_from_env default_entries
initial_registry parse overrides = load_from_env parse overrides default_entries

-- `getDecimals`
unfoldable pub get_decimals : Text → List (Text × ℕ) → Option ℕ
unfolding map_get
get_decimals token_id registry = map_get token_id registry

-- `setDecimals`; `none` where it throws
unfoldable pub set_decimals : Text → Num → List (Text × ℕ) → Option (List (Text × ℕ))
unfolding map_set
set_decimals token_id decimals registry = elim (as_natural decimals) [
  | none ↦ none
  | some n ↦ some (map_set token_id n registry)
]

-- `PltTokenInfo`, without the hints
pub record PltTokenInfo : Type 0 where
  pub network : Text
  pub token_id : Text
  pub decimals : ℕ

-- `PltDecimalsRegistry.makeKey`
unfoldable pub make_key : Text → Text → Text
unfolding codes
make_key network token_id = network ++ codes "::" ++ token_id

-- `PltDecimalsRegistry.add`
unfoldable pub add_info : PltTokenInfo → List (Text × PltTokenInfo) → List (Text × PltTokenInfo)
unfolding map_set make_key
add_info info by_key = map_set (make_key info.network info.token_id) info by_key

-- `PltDecimalsRegistry.get`
unfoldable pub get_info : Text → Text → List (Text × PltTokenInfo) → Option PltTokenInfo
unfolding map_get make_key
get_info network token_id by_key = map_get (make_key network token_id) by_key

-- `getPltDecimals`, of the one entry that the module has
unfoldable pub get_plt_decimals : Text → Text → Option ℕ
unfolding codes map_get
get_plt_decimals network token_id =
    map_get (network ++ codes "|" ++ token_id) ((codes "concordium:testnet|usd:test", 2) ∷ [])

-- `s.replace(/0+$/, '')`
abbrev pub cons_unless_zero : ℕ → Text → Text
cons_unless_zero c [] = if c == b'0' then [] else c ∷ []
cons_unless_zero c (d ∷ s) = c ∷ d ∷ s

unfoldable pub strip_end_zeros : Text → Text
strip_end_zeros [] = []
strip_end_zeros (c ∷ s) = cons_unless_zero c (strip_end_zeros s)

abbrev pub with_fraction : Text → Text → Text
with_fraction int_part [] = int_part
with_fraction int_part (c ∷ s) = int_part ++ b'.' ∷ c ∷ s

unfoldable pub format_digits : Text → ℕ → Text
unfolding prepend_zeros strip_end_zeros
format_digits digits decimals =
    let padded =
      if leb (length digits) decimals
      then prepend_zeros (decimals - length digits + 1) digits
      else digits in
    with_fraction (take (length padded - decimals) padded)
      (strip_end_zeros (drop (length padded - decimals) padded))

-- `formatPltAmount`
unfoldable pub format_plt_amount : Text → ℕ → Text
unfolding format_digits starts_with codes
format_plt_amount minor_amount decimals =
    if is_empty minor_amount
    then codes "0"
    else if starts_with (codes "-") minor_amount
    then b'-' ∷ format_digits (drop 1 minor_amount) decimals
    else format_digits minor_amount decimals
