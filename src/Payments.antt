-- ===== src/Payments.antt =====
-- src/routes/crp.payments.ts: the shared helpers of the payment routes, from the JSON body to the
-- tuple that is matched. The four routes are in the modules below.
pub mod Services
pub mod Create
pub mod Match
pub mod Listing
pub mod Claiming
pub mod Fulfill
pub mod Settle
pub mod Claims
pub mod Ledger
pub mod Matching
pub mod Receipts
use xcf_concordium_facilitat.Base.{
  ℕ, Bool, true, false, not, ◌&&◌, ◌||◌, Option, none, some, List, [], ◌∷◌, if◌then◌else◌, is_empty,
  find, leb, ltb, any, Text, codes, text_eq, includes, lower, trim, ℤ, Num, num_eq, is_nan,
  finite_floor, is_finite_positive, Value, get, coalesce, is_undefined, Runtime, to_number,
  trimmed_string, as_booleanish, length,
}
use xcf_concordium_facilitat.Base.Js.{whole, pos, num}
use xcf_concordium_facilitat.NetworkId.{normalize_network_id, network_candidates}
use xcf_concordium_facilitat.Store.{Asset, Challenge, PltAsset, Db}
use xcf_concordium_facilitat.Store.Search.{PaymentSearchFilters, search_payments}
use xcf_concordium_facilitat.Store.Assets.{get_plt_asset, get_default_network_genesis_index}

-- `toCrpAsset`
unfoldable pub to_crp_asset : Runtime → Value → Asset
unfolding trimmed_string codes
to_crp_asset rt raw = record {
  asset_type = trimmed_string rt (get raw (codes "type"));
  token_id = trimmed_string rt (get raw (codes "tokenId"));
  decimals = to_number rt (coalesce (get raw (codes "decimals")) (num (whole (pos 0))));
}

-- `toOptionalGenesisIndex`
unfoldable pub to_optional_genesis_index : Runtime → Value → Option ℤ
unfolding to_number
to_optional_genesis_index rt raw = finite_floor (to_number rt raw)

abbrev pub or_else {ℓ} : {A : Type ℓ} → Option A → Option A → Option A
or_else none b = b
or_else (some a) b = some a

-- `ngi`, the genesis index under either of its names
unfoldable pub requested_genesis_index : Runtime → Value → Option ℤ
unfolding to_optional_genesis_index codes
requested_genesis_index rt body =
    or_else (to_optional_genesis_index rt (get body (codes "networkGenesisIndex")))
      (to_optional_genesis_index rt (get body (codes "network_genesis_index")))

is_hex_digit : ℕ → Bool
is_hex_digit c = leb b'0' c && leb c b'9' || leb b'a' c && leb c b'f'

-- `toOptionalTxHash`
unfoldable pub to_optional_tx_hash : Runtime → Value → Option Text
unfolding trimmed_string is_hex_digit
to_optional_tx_hash rt raw =
    let s = trimmed_string rt raw in
    let hex = lower s in
    if is_empty s
    then none
    else if leb 32 (length hex) && leb (length hex) 128 && not (any (λ c. not (is_hex_digit c)) hex)
    then some hex
    else some s

-- `CrpMatchRequest`, the "gold tuple"
pub record PaymentTuple : Type 0 where
  pub merchant_id : Text
  pub nonce : Text
  pub network : Text
  pub asset : Asset
  pub amount : Text
  pub pay_to : Text

-- The tuple of a request body, trimmed and with its network normalized.
unfoldable pub read_tuple : Runtime → Value → PaymentTuple
unfolding trimmed_string to_crp_asset codes
read_tuple rt body = record {
  merchant_id = trimmed_string rt (get body (codes "merchantId"));
  nonce = trimmed_string rt (get body (codes "nonce"));
  network = normalize_network_id (trimmed_string rt (get body (codes "network")));
  asset = to_crp_asset rt (get body (codes "asset"));
  amount = trimmed_string rt (get body (codes "amount"));
  pay_to = trimmed_string rt (get body (codes "payTo"));
}

-- "Basic validation to avoid nonsense tuples."
unfoldable pub is_incomplete : PaymentTuple → Bool
is_incomplete t =
    is_empty t.merchant_id
    || is_empty t.nonce
    || is_empty t.network
    || is_empty t.asset.asset_type
    || is_empty t.asset.token_id
    || is_nan t.asset.decimals
    || is_empty t.amount
    || is_empty t.pay_to

unfoldable pub plt : Text
unfolding codes
plt = codes "PLT"

-- What `normalizeAssetWithRegistry` returns; `resolved` holds `asset`, `networkGenesisIndex` and
-- whether `decimalsSource` is the registry.
pub data AssetNorm : Type 0 where
  resolved : Asset → ℤ → Bool → AssetNorm
  asset_disabled : AssetNorm
  decimals_mismatch : Num → ℤ → AssetNorm

abbrev genesis_or : ℤ → Option ℤ → ℤ
genesis_or default none = default
genesis_or default (some z) = z

against_registry : Asset → ℤ → PltAsset → AssetNorm
against_registry asset ngi reg =
    if not reg.enabled
    then asset_disabled
    else if is_finite_positive asset.decimals && not (num_eq asset.decimals (whole reg.decimals))
    then decimals_mismatch asset.decimals reg.decimals
    else resolved (record asset { decimals = whole reg.decimals }) ngi true

-- `normalizeAssetWithRegistry`; `default` is what `getDefaultNetworkGenesisIndex` gives.
unfoldable pub normalize_asset_with_registry :
    ℤ → Text → Asset → Option ℤ → List PltAsset → AssetNorm
unfolding against_registry
normalize_asset_with_registry default network asset network_genesis_index assets =
    let ngi = genesis_or default network_genesis_index in
    if not (text_eq asset.asset_type plt)
    then resolved asset ngi false
    else elim (get_plt_asset network ngi asset.token_id assets) [
      | none ↦ resolved asset ngi false
      | some reg ↦ against_registry asset ngi reg
    ]

abbrev only_candidate : List Text → Option Text
only_candidate (n ∷ []) = some n
only_candidate _ = none

-- The filters of `findExactMatch`, whose limit is 250
unfoldable pub exact_match_filters : PaymentTuple → PaymentSearchFilters
exact_match_filters t = record {
  merchant_id = some t.merchant_id;
  network = only_candidate (network_candidates t.network);
  network_candidates = [];
  token_id = some t.asset.token_id;
  pay_to = some t.pay_to;
  status = none;
  limit = some (whole (pos 250));
}

-- The comparison in memory
unfoldable pub is_exact_match : PaymentTuple → Challenge → Bool
is_exact_match t row =
    text_eq row.nonce t.nonce
    && text_eq row.amount t.amount
    && includes (trim row.network) (network_candidates t.network)
    && text_eq row.asset.asset_type t.asset.asset_type
    && text_eq row.asset.token_id t.asset.token_id
    && num_eq row.asset.decimals t.asset.decimals

-- `findExactMatch`
unfoldable pub find_exact_match : PaymentTuple → List Challenge → Option Challenge
unfolding exact_match_filters is_exact_match
find_exact_match t challenges =
    find (is_exact_match t) (search_payments (exact_match_filters t) challenges)
