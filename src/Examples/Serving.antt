-- ===== src/Examples/Serving.antt =====
-- The routes over events and challenges, and the readiness checks, on concrete requests.
use xcf_concordium_facilitat.Base.{
  ℕ, length, ◌≤◌, In, ◌≡◌, refl, ◌++◌, true, none, some, [], ◌∷◌, Text, codes, trim, is_space,
  Value, All,
}
use xcf_concordium_facilitat.Base.Js.{undefined, str, obj, end}
use xcf_concordium_facilitat.Base.Sorting.{IsSorted, insert_by}
use xcf_concordium_facilitat.PltSearch.{
  Postgres, PltEventsQueryString, filter_of_query, events_found, get_plt_events,
}
use xcf_concordium_facilitat.PltSearch.Results.{IsFound, get_plt_events-IsFound}
use xcf_concordium_facilitat.PltSearch.Transfers.{
  Joined, read_transfer_filter, occurred_later, search_transfers,
}
use xcf_concordium_facilitat.PltSearch.Joins.{IsShown, search_transfers-IsShown}
use xcf_concordium_facilitat.Challenges.{Json, Row, get_status, Tables}
use xcf_concordium_facilitat.Challenges.Upserts.{ReadsBack}
use xcf_concordium_facilitat.Challenges.Routes.{
  ChallengeBody, is_blank_header, lacks_field, payload_of, posted_created, posted_again,
  post_challenge, shown, get_challenge_status,
}
use xcf_concordium_facilitat.Challenges.Posting.{IsPost, post_challenge-get_challenge_status}
use xcf_concordium_facilitat.Readiness.{
  ReadyzMetrics, selected, health_timeout, Surroundings, run_checks,
}
use xcf_concordium_facilitat.Readiness.Counters.{IsVerdict, IsCounted, run_checks-IsCounted}
use xcf_concordium_facilitat.Examples.Data.{plain_runtime, event, registry}

abbrev postgres : Postgres
postgres = record {
  connects = true;
  is_numeric = λ s. true;
  numeric_le = λ a b. true;
  rounds_up = λ k. true;
}

-- All the events of a token
abbrev of_token : PltEventsQueryString
unfolding codes
of_token = record {
  from = none;
  to = none;
  asset_id = some (codes "EUDemo");
  network_genesis = none;
  finalized = some (codes "TRUE");
  min_amount = none;
  max_amount = none;
  limit = none;
}

finds_the_event :
    get_plt_events plain_runtime postgres of_token (event ∷ []) ≡ events_found (event ∷ []) 1
unfolding get_plt_events insert_by
finds_the_event = refl

get_plt_events-IsFound_example :
    (length (event ∷ []) ≡ length (event ∷ []))
    × IsFound postgres (filter_of_query plain_runtime of_token) (event ∷ []) (event ∷ [])
get_plt_events-IsFound_example =
    get_plt_events-IsFound plain_runtime postgres of_token (event ∷ []) (event ∷ [])
      (length (event ∷ [])) finds_the_event

abbrev kept_text : Value → Text
kept_text (str s) = s
kept_text v = []

abbrev json : Json
json = record { stringify = kept_text; stored = λ v. v; date = λ s. some 5000 }

abbrev iso : ℕ → Text
iso n = []

abbrev shop : Text
unfolding codes
shop = codes "shop"

abbrev body : ChallengeBody
unfolding codes
body = record {
  nonce = codes "n1";
  network = codes "concordium:testnet";
  asset = str (codes "asset");
  amount = codes "1.5";
  pay_to = codes "addr";
  expiry = codes "soon";
  policy = undefined;
  metadata = undefined;
}

body-IsPost : IsPost json iso shop body 5000
unfolding shop body is_blank_header lacks_field codes trim is_space
body-IsPost = record { named = refl; complete = refl; dated = refl; printed = refl }

body-ReadsBack : ReadsBack json (payload_of iso shop body 5000)
unfolding payload_of body
body-ReadsBack = record { asset = refl; policy = refl; metadata = refl }

post_challenge-get_challenge_status_example :
    (row : Row) × (post_challenge json iso (some shop) body 1 []
      ≡ (posted_created row, [] ++ row ∷ []))
    × (get_challenge_status (some shop) body.nonce ([] ++ row ∷ []) ≡ shown row)
    × (post_challenge json iso (some shop) body 2 ([] ++ row ∷ [])
        ≡ (posted_again row, [] ++ row ∷ []))
unfolding get_status
post_challenge-get_challenge_status_example =
    post_challenge-get_challenge_status json iso shop body 5000 1 2 [] body-IsPost refl
      body-ReadsBack

abbrev no_tables : Tables
no_tables = record { challenges = []; receipts = [] }

-- A database that answers and a proxy that does not
abbrev half_up : Surroundings
half_up = record {
  environment = record { variable = λ k. none; parse_int = λ s. none };
  database = λ url. selected;
  wallet_proxy = λ url ms. health_timeout;
}

abbrev no_checks : ReadyzMetrics
no_checks = record { total_checks = 0; success = 0; db_failures = 0; wallet_proxy_failures = 0 }

run_checks-IsCounted_example :
    All IsVerdict (run_checks plain_runtime (half_up ∷ half_up ∷ []) no_checks).0
    × IsCounted no_checks
        (run_checks plain_runtime (half_up ∷ half_up ∷ []) no_checks).0
        (run_checks plain_runtime (half_up ∷ half_up ∷ []) no_checks).1
run_checks-IsCounted_example = run_checks-IsCounted plain_runtime (half_up ∷ half_up ∷ []) no_checks

search_transfers-IsShown_example :
    (length (search_transfers plain_runtime (obj end) (event ∷ []) registry) ≤ 100)
    × IsSorted occurred_later (search_transfers plain_runtime (obj end) (event ∷ []) registry)
    × ((j : Joined)
        → In j (search_transfers plain_runtime (obj end) (event ∷ []) registry)
        → IsShown (read_transfer_filter plain_runtime (obj end)) (event ∷ []) registry j)
search_transfers-IsShown_example =
    search_transfers-IsShown plain_runtime (obj end) (event ∷ []) registry
