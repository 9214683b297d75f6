-- ===== src/Store/Search.antt =====
-- src/store/match.pg.ts: `searchPayments` selects from `challenges` by the filters that are given,
-- newest first. Rows of the same age come in the table's order, one of the orders that SQL allows.
use xcf_concordium_facilitat.Base.{
  ℕ, Bool, true, false, ◌&&◌, Option, none, some, List, [], ◌∷◌, if◌then◌else◌, is_empty, keep,
  take, leb, ltb, Text, text_eq, includes, Num,
}
use xcf_concordium_facilitat.Base.Js.{whole, fraction, pos, negsuc, nan, infinite}
use xcf_concordium_facilitat.NetworkId.{network_candidates}
use xcf_concordium_facilitat.Store.{
  Status, pending, fulfilled, expired, invalid, policy_failed, Challenge,
}

pub record PaymentSearchFilters : Type 0 where
  pub merchant_id : Option Text
  pub network : Option Text
  pub network_candidates : List Text
  pub token_id : Option Text
  pub pay_to : Option Text
  pub status : Option Status
  pub limit : Option Num

abbrev status_eq : Status → Status → Bool
status_eq pending pending = true
status_eq fulfilled fulfilled = true
status_eq expired expired = true
status_eq invalid invalid = true
status_eq policy_failed policy_failed = true
status_eq _ _ = false

-- `if (value) where += " AND column = $n"`: an absent or empty text filters nothing.
abbrev pub matches_text : Option Text → Text → Bool
matches_text none column = true
matches_text (some v) column = if is_empty v then true else text_eq column v

abbrev matches_status : Option Status → Status → Bool
matches_status none column = true
matches_status (some v) column = status_eq column v

-- One candidate is compared by `=`, several by `= ANY(...)`, none filters nothing.
abbrev pub matches_network : List Text → Text → Bool
matches_network [] column = true
matches_network (c ∷ cs) column = includes column (c ∷ cs)

abbrev pub candidates_of_filter : Option Text → List Text
candidates_of_filter none = []
candidates_of_filter (some n) = if is_empty n then [] else network_candidates n

abbrev pub or_candidates : List Text → List Text → List Text
or_candidates [] other = other
or_candidates (c ∷ cs) other = c ∷ cs

-- `effectiveNetworkCandidates`
abbrev pub effective_network_candidates : PaymentSearchFilters → List Text
effective_network_candidates f = or_candidates f.network_candidates (candidates_of_filter f.network)

-- The `WHERE` clause
unfoldable pub selects : PaymentSearchFilters → Challenge → Bool
selects f row =
    matches_text f.merchant_id row.merchant_id
    && matches_network (effective_network_candidates f) row.network
    && matches_text f.token_id row.asset.token_id
    && matches_text f.pay_to row.pay_to
    && matches_status f.status row.status

-- `Math.max(1, Math.min(100, n))` on a natural number
abbrev pub clamp_limit : ℕ → ℕ
clamp_limit n = if ltb 100 n then 100 else if ltb n 1 then 1 else n

-- `effectiveLimit`; 25 if the limit is no finite number
unfoldable pub effective_limit : Option Num → ℕ
effective_limit none = 25
effective_limit (some nan) = 25
effective_limit (some (infinite s)) = 25
effective_limit (some (whole (pos n))) = clamp_limit n
effective_limit (some (whole (negsuc n))) = 1
effective_limit (some (fraction (pos n) k)) = clamp_limit n
effective_limit (some (fraction (negsuc n) k)) = 1

-- `ORDER BY created_at DESC`
unfoldable pub insert_newest : Challenge → List Challenge → List Challenge
insert_newest c [] = c ∷ []
insert_newest c (d ∷ ds) =
    let rest = insert_newest c ds in if leb d.created_at c.created_at then c ∷ d ∷ ds else d ∷ rest

unfoldable pub newest_first : List Challenge → List Challenge
unfolding insert_newest
newest_first [] = []
newest_first (c ∷ cs) = insert_newest c (newest_first cs)

unfoldable pub search_payments : PaymentSearchFilters → List Challenge → List Challenge
unfolding selects effective_limit newest_first
search_payments f rows = take (effective_limit f.limit) (newest_first (keep (selects f) rows))
