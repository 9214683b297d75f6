-- ===== src/Alias.antt =====
-- src/http/crpExactMatchAlias.ts: the handler of GET /payments/exact-match. It looks a challenge up
-- by the tuple in the query and, unless told not to, asks for an event of its amount to its address.
pub mod Soundness
use xcf_concordium_facilitat.Base.{
  ℕ, Bool, true, false, not, ◌&&◌, ◌||◌, Option, none, some, List, [], ◌∷◌, if◌then◌else◌, ltb, leb,
  is_empty, keep, find, any, Text, codes, text_eq, includes, trim, lower, ℤ, Num, num_eq, int_eq,
  Value, Runtime, get, coalesce, is_undefined, to_number, finite_floor,
}
use xcf_concordium_facilitat.Base.Js.{nan, whole, pos, negsuc, undefined, null, str}
use xcf_concordium_facilitat.NetworkId.{normalize_network_id, network_candidates}
use xcf_concordium_facilitat.Decimals.{AmountError, ok, err, to_minor_units}
use xcf_concordium_facilitat.Store.{Challenge, PltEvent, PltAsset, Db}
use xcf_concordium_facilitat.Store.Search.{PaymentSearchFilters, search_payments}

-- `asTrimmedString`
unfoldable pub as_trimmed_string : Value → Text
unfolding trim
as_trimmed_string (str s) = trim s
as_trimmed_string v = []

abbrev finite_or_nan : Num → Num
finite_or_nan n = elim (finite_floor n) [ none ↦ nan | some z ↦ n ]

-- `asNumberOrNaN`
unfoldable pub as_number_or_nan : Runtime → Value → Num
unfolding to_number
as_number_or_nan rt undefined = nan
as_number_or_nan rt null = nan
as_number_or_nan rt v = finite_or_nan (to_number rt v)

-- `asBooleanish`
unfoldable pub is_booleanish : Value → Bool
unfolding as_trimmed_string lower codes
is_booleanish v =
    includes (lower (as_trimmed_string v))
      (codes "1" ∷ codes "true" ∷ codes "yes" ∷ codes "y" ∷ codes "on" ∷ [])

-- What the handler reads of the query; the decimals are `decimalsFromQuery`.
pub record ExactMatchQuery : Type 0 where
  pub merchant_id : Text
  pub nonce : Text
  pub network : Text
  pub token_id : Text
  pub amount : Text
  pub pay_to : Text
  pub asset_type : Text
  pub decimals_from_query : Option Num
  pub require_event : Bool

-- `a || b` on strings
abbrev or_else : Text → Text → Text
or_else [] other = other
or_else (c ∷ s) other = c ∷ s

abbrev unless_nan : Num → Option Num
unless_nan nan = none
unless_nan n = some n

abbrev required_unless : Value → Bool
unfolding is_booleanish
required_unless v = if is_undefined v then true else is_booleanish v

unfoldable pub read_query : Runtime → Value → ExactMatchQuery
unfolding codes as_trimmed_string as_number_or_nan normalize_network_id required_unless
read_query rt q = record {
  merchant_id =
      or_else (as_trimmed_string (get q (codes "merchantId")))
        (as_trimmed_string (get q (codes "merchant_id")));
  nonce = as_trimmed_string (get q (codes "nonce"));
  network = normalize_network_id (as_trimmed_string (get q (codes "network")));
  token_id =
      or_else (as_trimmed_string (get q (codes "tokenId")))
        (as_trimmed_string (get q (codes "token_id")));
  amount = as_trimmed_string (get q (codes "amount"));
  pay_to =
      or_else (as_trimmed_string (get q (codes "payTo")))
        (as_trimmed_string (get q (codes "pay_to")));
  asset_type =
      or_else
        (as_trimmed_string (coalesce (get q (codes "assetType")) (get q (codes "asset_type"))))
        (codes "PLT");
  decimals_from_query = unless_nan (as_number_or_nan rt (get q (codes "decimals")));
  require_event =
      required_unless (coalesce (get q (codes "requireEvent")) (get q (codes "require_event")));
}

unfoldable pub lacks_parameter : ExactMatchQuery → Bool
lacks_parameter q =
    is_empty q.merchant_id
    || is_empty q.nonce
    || is_empty q.network
    || is_empty q.token_id
    || is_empty q.amount
    || is_empty q.pay_to

pub data DecimalsSource : Type 0 where
  from_query from_db by_default : DecimalsSource

pub record ResolvedInfo : Type 0 where
  pub decimals : Num
  pub network_genesis_index : ℤ
  pub decimals_source : DecimalsSource

abbrev int_ltb : ℤ → ℤ → Bool
int_ltb (pos m) (pos n) = ltb m n
int_ltb (pos m) (negsuc n) = false
int_ltb (negsuc m) (pos n) = true
int_ltb (negsuc m) (negsuc n) = ltb n m

abbrev higher : PltAsset → Option PltAsset → PltAsset
higher a none = a
higher a (some b) = if int_ltb a.network_genesis_index b.network_genesis_index then b else a

-- `ORDER BY network_genesis_index DESC LIMIT 1`, the first in the table of several
unfoldable pub highest_genesis : List PltAsset → Option PltAsset
highest_genesis [] = none
highest_genesis (a ∷ rest) = some (higher a (highest_genesis rest))

abbrev genesis_or_zero : Option PltAsset → ℤ
genesis_or_zero none = pos 0
genesis_or_zero (some a) = a.network_genesis_index

abbrev resolved_by : Option PltAsset → ResolvedInfo
resolved_by none = record {
  decimals = whole (pos 2);
  network_genesis_index = pos 0;
  decimals_source = by_default;
}
resolved_by (some a) = record {
  decimals = whole a.decimals;
  network_genesis_index = a.network_genesis_index;
  decimals_source = from_db;
}

-- `resolveDecimalsAndGenesisIndex`; the decimals of the query are finite.
unfoldable pub resolve_decimals_and_genesis_index :
    Text → Text → Option Num → List PltAsset → ResolvedInfo
unfolding highest_genesis network_candidates
resolve_decimals_and_genesis_index network token_id (some d) assets = record {
  decimals = d;
  network_genesis_index = genesis_or_zero (
      highest_genesis (
        keep (λ a. includes a.network (network_candidates network) && text_eq a.asset_id token_id)
          assets));
  decimals_source = from_query;
}
resolve_decimals_and_genesis_index network token_id none assets = resolved_by (
    highest_genesis (
      keep
        (λ a.
          includes a.network (network_candidates network)
          && text_eq a.asset_id token_id
          && a.enabled)
        assets))

abbrev is_addressed : Option Text → Text → Bool
is_addressed none to = false
is_addressed (some a) to = text_eq a to

-- The `WHERE` clause of `hasMatchingPltEvent`
unfoldable pub is_matching_event : Text → ℤ → Text → Text → Text → PltEvent → Bool
unfolding network_candidates
is_matching_event network genesis token_id pay_to amount_minor e =
    includes e.network (network_candidates network)
    && int_eq e.network_genesis_index genesis
    && text_eq e.asset_id token_id
    && is_addressed e.to_address pay_to
    && text_eq e.amount_raw amount_minor

unfoldable pub has_matching_plt_event : Text → ℤ → Text → Text → Text → List PltEvent → Bool
unfolding is_matching_event
has_matching_plt_event network genesis token_id pay_to amount_minor events =
    any (is_matching_event network genesis token_id pay_to amount_minor) events

unfoldable pub alias_filters : ExactMatchQuery → PaymentSearchFilters
unfolding network_candidates
alias_filters q = record {
  merchant_id = some q.merchant_id;
  network = some q.network;
  network_candidates = network_candidates q.network;
  token_id = some q.token_id;
  pay_to = some q.pay_to;
  status = none;
  limit = some (whole (pos 100));
}

-- The test of `rows.find`
unfoldable pub is_alias_match : ExactMatchQuery → Num → Challenge → Bool
unfolding trim
is_alias_match q decimals row =
    text_eq row.nonce q.nonce
    && text_eq row.amount q.amount
    && text_eq (trim row.asset.asset_type) q.asset_type
    && text_eq (trim row.asset.token_id) q.token_id
    && num_eq row.asset.decimals decimals

-- The answers: 400 for missing parameters and for an amount without minor units, else 200
pub data Aliased : Type 0 where
  missing_parameters : Aliased
  bad_amount : AmountError → ResolvedInfo → Aliased
  no_match : ResolvedInfo → Aliased
  no_event : Challenge → Text → ResolvedInfo → Aliased
  exact_match : Challenge → ResolvedInfo → Aliased

-- The gate on an event, for a challenge that matches
unfoldable pub gate : ExactMatchQuery → ResolvedInfo → Challenge → List PltEvent → Aliased
unfolding to_minor_units has_matching_plt_event
gate q resolved row events = elim (to_minor_units q.amount resolved.decimals) [
  | err e ↦ bad_amount e resolved
  | ok amount_minor ↦
      if has_matching_plt_event q.network resolved.network_genesis_index q.token_id q.pay_to
        amount_minor events
      then exact_match row resolved
      else no_event row amount_minor resolved
]

-- The handler, after the query is read and checked
unfoldable pub answer_query : ExactMatchQuery → Db → Aliased
unfolding resolve_decimals_and_genesis_index alias_filters is_alias_match gate search_payments
answer_query q db =
    let resolved =
      resolve_decimals_and_genesis_index q.network q.token_id q.decimals_from_query db.assets in
    elim (find (is_alias_match q resolved.decimals)
      (search_payments (alias_filters q) db.challenges)) [
        | none ↦ no_match resolved
        | some row ↦
            if q.require_event then gate q resolved row db.events else exact_match row resolved
      ]

unfoldable pub exact_match_alias : Runtime → Value → Db → Aliased
unfolding read_query lacks_parameter answer_query
exact_match_alias rt query db =
    if lacks_parameter (read_query rt query)
    then missing_parameters
    else answer_query (read_query rt query) db
