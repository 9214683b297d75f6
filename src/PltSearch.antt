-- ===== src/PltSearch.antt =====
-- src/plt/pltSearch.ts and src/http/pltEventsRoute.ts: GET /v1/crp/plt/events, a read of the table of
-- events by filters, newest block first. A row is the event itself; what Postgres makes of a text
-- that is compared with a number is a parameter.
pub mod Results
pub mod Transfers
pub mod Joins
use xcf_concordium_facilitat.Base.{
  ℕ, suc, Bool, true, false, not, ◌&&◌, ◌||◌, Option, none, some, List, [], ◌∷◌, if◌then◌else◌, ltb,
  leb, ◌==◌, is_empty, keep, take, length, Text, codes, text_eq, lower, ℤ, Num, int_eq,
  finite_floor, is_finite_positive, Runtime,
}
use xcf_concordium_facilitat.Base.Js.{pos, negsuc, whole, fraction, nan, infinite}
use xcf_concordium_facilitat.Base.Sorting.{sort_by}
use xcf_concordium_facilitat.Store.{PltEvent}
use xcf_concordium_facilitat.Store.Search.{matches_text}

-- Whether the connection is made, whether a text is a numeric, how numerics compare, and whether
-- the fractional part that a name stands for is rounded up
pub record Postgres : Type 0 where
  pub connects : Bool
  pub is_numeric : Text → Bool
  pub numeric_le : Text → Text → Bool
  pub rounds_up : ℕ → Bool

pub record PltEventSearchFilter : Type 0 where
  pub from_address : Option Text
  pub to_address : Option Text
  pub asset_id : Option Text
  pub network_genesis_index : Option Num
  pub finalized : Option Bool
  pub min_amount_raw : Option Text
  pub max_amount_raw : Option Text
  pub limit : Option Num

-- A filter on a column that can be NULL
abbrev pub matches_nullable : Option Text → Option Text → Bool
matches_nullable none column = true
matches_nullable (some v) none = is_empty v
matches_nullable (some v) (some a) = if is_empty v then true else text_eq a v

-- On an integer column; a number that is no integer makes the query fail.
abbrev pub matches_index : Option Num → ℤ → Bool
matches_index (some (whole z)) column = int_eq column z
matches_index n column = true

abbrev bool_is : Bool → Bool → Bool
bool_is true b = b
bool_is false b = not b

abbrev pub matches_finalized : Option Bool → Bool → Bool
matches_finalized none column = true
matches_finalized (some v) column = bool_is v column

abbrev pub at_least : Postgres → Option Text → Text → Bool
at_least pg none column = true
at_least pg (some v) column = if is_empty v then true else pg.numeric_le v column

abbrev pub at_most : Postgres → Option Text → Text → Bool
at_most pg none column = true
at_most pg (some v) column = if is_empty v then true else pg.numeric_le column v

-- `buildWhereClause`
unfoldable pub selects_event : Postgres → PltEventSearchFilter → PltEvent → Bool
selects_event pg f e =
    matches_nullable f.from_address e.from_address
    && matches_nullable f.to_address e.to_address
    && matches_text f.asset_id e.asset_id
    && matches_index f.network_genesis_index e.network_genesis_index
    && matches_finalized f.finalized e.finalized
    && at_least pg f.min_amount_raw e.amount_raw
    && at_most pg f.max_amount_raw e.amount_raw

abbrev takes_index : Option Num → Bool
takes_index none = true
takes_index (some (whole z)) = true
takes_index (some n) = false

abbrev takes_amount : Postgres → Option Text → Bool
takes_amount pg none = true
takes_amount pg (some v) = is_empty v || pg.is_numeric v

-- Postgres can read the parameters of the query.
unfoldable pub accepts : Postgres → PltEventSearchFilter → Bool
accepts pg f =
    takes_index f.network_genesis_index
    && takes_amount pg f.min_amount_raw
    && takes_amount pg f.max_amount_raw

-- `Math.min(Math.max(n, 1), 500)`
abbrev pub clamp_500 : ℕ → ℕ
clamp_500 n = if ltb 500 n then 500 else if ltb n 1 then 1 else n

-- The same for the number between `n` and `n + 1` with a fractional part, which LIMIT rounds
abbrev pub clamp_between : Bool → ℕ → ℕ
clamp_between up n = if ltb n 1 then 1 else if ltb 499 n then 500 else if up then suc n else n

-- The `LIMIT`; 50 if the limit is 0, or no finite number
unfoldable pub event_limit : Postgres → Option Num → ℕ
event_limit pg none = 50
event_limit pg (some nan) = 50
event_limit pg (some (infinite s)) = 50
event_limit pg (some (whole (pos n))) = if n == 0 then 50 else clamp_500 n
event_limit pg (some (whole (negsuc n))) = 1
event_limit pg (some (fraction (pos n) k)) = clamp_between (pg.rounds_up k) n
event_limit pg (some (fraction (negsuc n) k)) = 1

-- `ORDER BY block_height DESC, event_index ASC`
unfoldable pub before : PltEvent → PltEvent → Bool
before a b =
    ltb b.block_height a.block_height
    || a.block_height == b.block_height && leb a.event_index b.event_index

-- `searchPltEventsWithNewClient`; `none` where it throws
unfoldable pub search_plt_events :
    Postgres → PltEventSearchFilter → List PltEvent → Option (List PltEvent)
unfolding selects_event accepts event_limit before sort_by
search_plt_events pg f events =
    if pg.connects && accepts pg f
    then some (take (event_limit pg f.limit) (sort_by before (keep (selects_event pg f) events)))
    else none

-- The query of the route; a parameter that is given twice is left out of the model.
pub record PltEventsQueryString : Type 0 where
  pub from : Option Text
  pub to : Option Text
  pub asset_id : Option Text
  pub network_genesis : Option Text
  pub finalized : Option Text
  pub min_amount : Option Text
  pub max_amount : Option Text
  pub limit : Option Text

abbrev unless_empty : Option Text → Option Text
unless_empty none = none
unless_empty (some s) = if is_empty s then none else some s

abbrev if_finite : Num → Option Num
if_finite n = elim (finite_floor n) [ none ↦ none | some z ↦ some n ]

abbrev number_given : Runtime → Option Text → Option Num
number_given rt none = none
number_given rt (some s) = if is_empty s then none else if_finite (rt.number_of_text s)

abbrev read_finalized : Option Text → Option Bool
unfolding codes lower text_eq
read_finalized none = none
read_finalized (some s) =
    if text_eq (lower s) (codes "true") || text_eq (lower s) (codes "1")
    then some true
    else if text_eq (lower s) (codes "false") || text_eq (lower s) (codes "0")
    then some false
    else none

abbrev if_positive : Option Num → Option Num
if_positive none = none
if_positive (some n) = if is_finite_positive n then some n else none

unfoldable pub filter_of_query : Runtime → PltEventsQueryString → PltEventSearchFilter
unfolding read_finalized
filter_of_query rt q = record {
  from_address = unless_empty q.from;
  to_address = unless_empty q.to;
  asset_id = unless_empty q.asset_id;
  network_genesis_index = number_given rt q.network_genesis;
  finalized = read_finalized q.finalized;
  min_amount_raw = unless_empty q.min_amount;
  max_amount_raw = unless_empty q.max_amount;
  limit = if_positive (number_given rt q.limit);
}

-- The answers: 200 with the events and their number, and 500
pub data EventsFound : Type 0 where
  events_found : List PltEvent → ℕ → EventsFound
  plt_events_query_failed : EventsFound

unfoldable pub get_plt_events :
    Runtime → Postgres → PltEventsQueryString → List PltEvent → EventsFound
unfolding filter_of_query search_plt_events
get_plt_events rt pg q events = elim (search_plt_events pg (filter_of_query rt q) events) [
  | none ↦ plt_events_query_failed
  | some rows ↦ events_found rows (length rows)
]
