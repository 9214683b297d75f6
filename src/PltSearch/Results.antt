-- ===== src/PltSearch/Results.antt =====
-- Which events the route returns, and in what order.
use mathlib.Core.Path.{subst}
use mathlib.Core.Option.{some-injective}
use xcf_concordium_facilitat.Base.{
  ℕ, ◌≤◌, ◌≡◌, ap, ◌∙◌, true, ◌&&◌, Option, none, some, List, arith, inl, inr, Bool-cases,
  Option-cases, keep, length, In, In-keep, In-keep', In-take, In-take', length-take, Num, Runtime,
}
use xcf_concordium_facilitat.Base.Js.{pos, negsuc, whole, fraction, nan, infinite}
use xcf_concordium_facilitat.Base.Sorting.{
  sort_by, In-sort_by, In-sort_by', length-sort_by, IsSorted, IsOrder, sort_by-IsSorted,
  take-IsSorted,
}
use xcf_concordium_facilitat.Store.{PltEvent}
use xcf_concordium_facilitat.PltSearch.{
  Postgres, PltEventSearchFilter, selects_event, accepts, event_limit, before, search_plt_events,
  PltEventsQueryString, filter_of_query, events_found, get_plt_events,
}

before-IsOrder : IsOrder before
unfolding before
before-IsOrder = record { total = λ a b h. ground arith; trans = λ a b c h k. ground arith }

event_limit_bound : (pg : Postgres) (l : Option Num) → event_limit pg l ≤ 500
unfolding event_limit
event_limit_bound pg none = omega arith
event_limit_bound pg (some nan) = omega arith
event_limit_bound pg (some (infinite s)) = omega arith
event_limit_bound pg (some (whole (pos n))) = ground arith
event_limit_bound pg (some (whole (negsuc n))) = omega arith
event_limit_bound pg (some (fraction (pos n) k)) = ground arith
event_limit_bound pg (some (fraction (negsuc n) k)) = omega arith

-- What a search gives
pub record IsFound (pg : Postgres) (f : PltEventSearchFilter) (events found : List PltEvent)
    : Type 0 where
  pub bounded : length found ≤ 500
  pub sound : (e : PltEvent) → In e found → (selects_event pg f e ≡ true) × In e events
  pub sorted : IsSorted before found
  pub complete :
      length (keep (selects_event pg f) events) ≤ event_limit pg f.limit
      → (e : PltEvent) → In e events
      → selects_event pg f e ≡ true
      → In e found

search_plt_events-IsFound :
    (pg : Postgres) (f : PltEventSearchFilter) (events found : List PltEvent)
    → search_plt_events pg f events ≡ some found
    → IsFound pg f events found
unfolding search_plt_events
search_plt_events-IsFound pg f events found h = elim (Bool-cases (pg.connects && accepts pg f)) [
  | inr refused ↦ cc (rw (refused, search_plt_events) at h)
  | inl run ↦
      let n = event_limit pg f.limit in
      let chosen = keep (selects_event pg f) events in
      subst (IsFound pg f events) (some-injective _ found (rw (run, search_plt_events) at h))
        (record {
          bounded =
              let j = event_limit_bound pg f.limit in
              let k = length-take n (sort_by before chosen) in omega arith;
          sound = λ e there.
              In-keep (selects_event pg f) events e
                (In-sort_by before e chosen (In-take n (sort_by before chosen) e there));
          sorted =
              take-IsSorted before n (sort_by before chosen)
                (sort_by-IsSorted before before-IsOrder chosen);
          complete = λ room e there yes_e.
              In-take' n (sort_by before chosen) e
                (let k = length-sort_by before chosen in omega arith)
                (In-sort_by' before e chosen (In-keep' (selects_event pg f) events e yes_e there));
        })
]

-- What the route answers: at most 500 events, each of the table and selected by the filters that the
-- query gives, in the order of falling block heights and, within a block, of rising event indices;
-- the count is their number; and all the selected events, if they are not more than the limit.
pub get_plt_events-IsFound :
    (rt : Runtime) (pg : Postgres) (q : PltEventsQueryString) (events found : List PltEvent)
    (count : ℕ)
    → get_plt_events rt pg q events ≡ events_found found count
    → (count ≡ length found) × IsFound pg (filter_of_query rt q) events found
unfolding get_plt_events
get_plt_events-IsFound rt pg q events found count h =
    elim (Option-cases (search_plt_events pg (filter_of_query rt q) events)) [
      | inl thrown ↦ cc (rw (thrown, get_plt_events) at h)
      | inr (rows, is_rows) ↦
          let same : events_found rows (length rows) ≡ events_found found count =
            rw (is_rows, get_plt_events) at h in
          let rows_same : rows ≡ found = cc in
          (
            cc,
            search_plt_events-IsFound pg (filter_of_query rt q) events found
                (is_rows ∙ ap some rows_same),
          )
    ]
