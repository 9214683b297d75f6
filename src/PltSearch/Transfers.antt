-- ===== src/PltSearch/Transfers.antt =====
-- src/routes/crp.plt.ts: GET /v1/crp/plt/search, the transfers of registered tokens, the latest first.
use xcf_concordium_facilitat.Base.{
  ℕ, Bool, true, false, ◌&&◌, ◌||◌, ◌++◌, Option, none, some, List, [], ◌∷◌, if◌then◌else◌, ltb,
  leb, is_empty, keep, take, Text, codes, text_eq, includes, trim, lower, ℤ, int_eq, finite_floor,
  Value, Runtime, get, is_falsy, to_string,
}
use xcf_concordium_facilitat.Base.Js.{pos, negsuc, undefined, null, bool, num}
use xcf_concordium_facilitat.Base.Sorting.{sort_by}
use xcf_concordium_facilitat.NetworkId.{normalize_network_id, network_candidates}
use xcf_concordium_facilitat.Store.{PltEvent, PltAsset}

-- `parseBoolLoose`
unfoldable pub parse_bool_loose : Runtime → Value → Option Bool
unfolding codes to_string lower trim
parse_bool_loose rt undefined = none
parse_bool_loose rt null = none
parse_bool_loose rt v =
    let s = lower (trim (to_string rt v)) in
    if includes s (codes "1" ∷ codes "true" ∷ codes "yes" ∷ codes "y" ∷ [])
    then some true
    else if includes s (codes "0" ∷ codes "false" ∷ codes "no" ∷ codes "n" ∷ [])
    then some false
    else none

pub record TransferFilter : Type 0 where
  pub network : Option Text
  pub network_genesis_index : Option ℤ
  pub token_id : Option Text
  pub to : Option Text
  pub amount_minor : Option Text
  pub include_disabled : Bool
  pub limit : ℕ

-- `v ? String(v) : undefined`
abbrev text_given : Runtime → Value → Option Text
unfolding to_string
text_given rt v = if is_falsy v then none else some (to_string rt v)

abbrev network_given : Option Text → Option Text
unfolding normalize_network_id
network_given none = none
network_given (some s) = if is_empty s then none else some (normalize_network_id s)

abbrev pub floor_given : Value → Option ℤ
floor_given (num n) = finite_floor n
floor_given v = none

abbrev false_unless : Option Bool → Bool
false_unless none = false
false_unless (some b) = b

abbrev disabled_given : Runtime → Value → Bool
unfolding parse_bool_loose
disabled_given rt (bool b) = b
disabled_given rt v = false_unless (parse_bool_loose rt v)

-- `Math.max(1, Math.min(100, n))`, and 50 where there is no number
abbrev pub transfer_limit : Option ℤ → ℕ
transfer_limit none = 50
transfer_limit (some (negsuc n)) = 1
transfer_limit (some (pos n)) = if ltb 100 n then 100 else if ltb n 1 then 1 else n

unfoldable pub read_transfer_filter : Runtime → Value → TransferFilter
unfolding codes text_given network_given disabled_given
read_transfer_filter rt q = record {
  network = network_given (text_given rt (get q (codes "network")));
  network_genesis_index = floor_given (get q (codes "networkGenesisIndex"));
  token_id = text_given rt (get q (codes "tokenId"));
  to = text_given rt (get q (codes "to"));
  amount_minor = text_given rt (get q (codes "amountMinor"));
  include_disabled = disabled_given rt (get q (codes "includeDisabled"));
  limit = transfer_limit (floor_given (get q (codes "limit")));
}

-- An event and the registered asset that it is of
pub record Joined : Type 0 where
  pub event : PltEvent
  pub asset : PltAsset

-- The condition of the `JOIN`
unfoldable pub is_asset_of : PltEvent → PltAsset → Bool
is_asset_of e a =
    text_eq a.asset_id e.asset_id
    && text_eq a.network e.network
    && int_eq a.network_genesis_index e.network_genesis_index

unfoldable pub joined_with : PltEvent → List PltAsset → List Joined
unfolding is_asset_of
joined_with e [] = []
joined_with e (a ∷ rest) =
    let others = joined_with e rest in
    if is_asset_of e a then record { event = e; asset = a } ∷ others else others

unfoldable pub join_assets : List PltEvent → List PltAsset → List Joined
unfolding joined_with
join_assets [] assets = []
join_assets (e ∷ es) assets = joined_with e assets ++ join_assets es assets

-- No candidate filters nothing.
abbrev in_candidates : List Text → Text → Bool
in_candidates [] column = true
in_candidates (c ∷ cs) column = includes column (c ∷ cs)

abbrev in_network : Option Text → Text → Bool
unfolding network_candidates
in_network none column = true
in_network (some n) column =
    if is_empty n then true else in_candidates (network_candidates n) column

abbrev in_genesis : Option ℤ → ℤ → Bool
in_genesis none column = true
in_genesis (some z) column = int_eq column z

abbrev is_text : Option Text → Text → Bool
is_text none column = true
is_text (some s) column = if is_empty s then true else text_eq column s

abbrev is_nullable_text : Option Text → Option Text → Bool
is_nullable_text none column = true
is_nullable_text (some s) none = is_empty s
is_nullable_text (some s) (some a) = if is_empty s then true else text_eq a s

-- The filters of the query
unfoldable pub passes_filters : TransferFilter → Joined → Bool
unfolding in_network
passes_filters f j =
    in_network f.network j.event.network
    && in_genesis f.network_genesis_index j.event.network_genesis_index
    && is_text f.token_id j.event.asset_id
    && is_nullable_text f.to j.event.to_address
    && is_text f.amount_minor j.event.amount_raw

-- The `WHERE` clause
unfoldable pub selects_transfer : TransferFilter → Joined → Bool
unfolding passes_filters
selects_transfer f j = passes_filters f j && (f.include_disabled || j.asset.enabled)

-- `ORDER BY e.occurred_at DESC`
unfoldable pub occurred_later : Joined → Joined → Bool
occurred_later a b = leb b.event.occurred_at a.event.occurred_at

-- The handler of GET /v1/crp/plt/search; a row keeps the event and the asset, of which
-- `rowToPltTransfer` shows a part.
unfoldable pub search_transfers : Runtime → Value → List PltEvent → List PltAsset → List Joined
unfolding read_transfer_filter join_assets selects_transfer occurred_later sort_by
search_transfers rt q events assets =
    let f = read_transfer_filter rt q in
    take f.limit (sort_by occurred_later (keep (selects_transfer f) (join_assets events assets)))
