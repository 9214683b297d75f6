-- ===== src/Payments/Listing.antt =====
-- src/routes/crp.payments.ts: the handler of GET /payments/search.
use xcf_concordium_facilitat.Base.{
  Option, none, some, List, [], if◌then◌else◌, is_empty, Text, codes, text_eq, trim, starts_with,
  Num, Value, Runtime, get, is_undefined, to_number,
}
use xcf_concordium_facilitat.Base.Js.{str, whole, pos}
use xcf_concordium_facilitat.NetworkId.{normalize_network_id, ccd_prefix}
use xcf_concordium_facilitat.Store.{
  Status, pending, fulfilled, expired, invalid, policy_failed, Challenge,
}
use xcf_concordium_facilitat.Store.Search.{PaymentSearchFilters, search_payments}

-- `typeof v === "string" && v.trim() !== "" ? v.trim() : undefined`
abbrev trimmed_given : Value → Option Text
unfolding trim
trimmed_given (str s) = if is_empty (trim s) then none else some (trim s)
trimmed_given v = none

abbrev normalized_given : Option Text → Option Text
unfolding normalize_network_id
normalized_given none = none
normalized_given (some n) = some (normalize_network_id n)

-- The filter on the status: absent, a status, or a text that Postgres refuses as one
pub data StatusGiven : Type 0 where
  any_status unknown_status : StatusGiven
  one_status : Status → StatusGiven

abbrev status_of : Text → StatusGiven
unfolding codes text_eq
status_of s =
    if text_eq s (codes "pending")
    then one_status pending
    else if text_eq s (codes "fulfilled")
    then one_status fulfilled
    else if text_eq s (codes "expired")
    then one_status expired
    else if text_eq s (codes "invalid")
    then one_status invalid
    else if text_eq s (codes "policy_failed")
    then one_status policy_failed
    else unknown_status

abbrev status_given : Option Text → StatusGiven
unfolding status_of
status_given none = any_status
status_given (some s) = status_of s

abbrev limit_given : Runtime → Value → Option Num
unfolding to_number
limit_given rt v = if is_undefined v then none else some (to_number rt v)

unfoldable pub listing_filters : Runtime → Value → Option Status → PaymentSearchFilters
unfolding codes trimmed_given normalized_given limit_given
listing_filters rt q status = record {
  merchant_id = trimmed_given (get q (codes "merchantId"));
  network = normalized_given (trimmed_given (get q (codes "network")));
  network_candidates = [];
  token_id = trimmed_given (get q (codes "tokenId"));
  pay_to = trimmed_given (get q (codes "payTo"));
  status = status;
  limit = limit_given rt (get q (codes "limit"));
}

abbrev chain_shown : Option Text → Option Text
unfolding trim starts_with ccd_prefix
chain_shown none = none
chain_shown (some n) =
    if is_empty (trim n) then none else if starts_with ccd_prefix n then some n else none

abbrev limit_shown : Option Num → Num
limit_shown none = whole (pos 25)
limit_shown (some n) = n

-- The answers: 200 with the filters and the rows, 500 where the query fails
pub data Listed : Type 0 where
  listed : PaymentSearchFilters → Option Text → Num → List Challenge → Listed
  listing_failed : Listed

abbrev list_with : PaymentSearchFilters → List Challenge → Listed
unfolding chain_shown search_payments
list_with f rows = listed f (chain_shown f.network) (limit_shown f.limit) (search_payments f rows)

unfoldable pub list_payments : Runtime → Value → List Challenge → Listed
unfolding codes listing_filters status_given trimmed_given list_with
list_payments rt q rows = elim (status_given (trimmed_given (get q (codes "status")))) [
  | any_status ↦ list_with (listing_filters rt q none) rows
  | unknown_status ↦ listing_failed
  | one_status s ↦ list_with (listing_filters rt q (some s)) rows
]
