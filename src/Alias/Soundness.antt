-- ===== src/Alias/Soundness.antt =====
-- What GET /payments/exact-match vouches for.
use mathlib.Core.Path.{subst}
use xcf_concordium_facilitat.Base.{
  ◌≡◌, refl, sym, ap, ◌∙◌, Bool, true, false, ◌&&◌, ◌||◌, some, none, List, arith, inl, inr,
  Bool-cases, Option-cases, is_empty, find, find_sound, any, In, Text, text_eq_iff, includes, trim,
  int_eq_iff, num_eq, Option, Runtime, Value, get, codes, [], ◌∷◌,
}
use xcf_concordium_facilitat.NetworkId.{normalize_network_id, network_candidates}
use xcf_concordium_facilitat.NetworkId.Laws.{normalize_network_id_idempotent}
use xcf_concordium_facilitat.NetworkId.Candidates.{network_candidates_some}
use xcf_concordium_facilitat.Decimals.{Result, ok, err, to_minor_units}
use xcf_concordium_facilitat.Store.{Challenge, PltEvent, Db}
use xcf_concordium_facilitat.Store.Search.{
  selects, matches_text, matches_network, or_candidates, candidates_of_filter, search_payments,
}
use xcf_concordium_facilitat.Store.Results.{search_payments_sound}
use xcf_concordium_facilitat.Store.Insertions.{any_some}
use xcf_concordium_facilitat.Alias.{
  ExactMatchQuery, read_query, lacks_parameter, ResolvedInfo, resolve_decimals_and_genesis_index,
  is_matching_event, has_matching_plt_event, alias_filters, is_alias_match, exact_match,
  as_trimmed_string, is_addressed, gate, answer_query, exact_match_alias,
}

-- A challenge that has the tuple of the query, with the resolved decimals
pub record IsQueried (q : ExactMatchQuery) (resolved : ResolvedInfo) (row : Challenge)
    : Type 0 where
  pub merchant_id : row.merchant_id ≡ q.merchant_id
  pub nonce : row.nonce ≡ q.nonce
  pub network : includes row.network (network_candidates q.network) ≡ true
  pub asset_type : trim row.asset.asset_type ≡ q.asset_type
  pub token_id : row.asset.token_id ≡ q.token_id
  pub decimals : num_eq row.asset.decimals resolved.decimals ≡ true
  pub amount : row.amount ≡ q.amount
  pub pay_to : row.pay_to ≡ q.pay_to

-- An event that pays the amount of the query to its address
pub record IsPayment (q : ExactMatchQuery) (resolved : ResolvedInfo) (e : PltEvent) : Type 0 where
  pub amount : to_minor_units q.amount resolved.decimals ≡ ok e.amount_raw
  pub network : includes e.network (network_candidates q.network) ≡ true
  pub network_genesis_index : e.network_genesis_index ≡ resolved.network_genesis_index
  pub asset_id : e.asset_id ≡ q.token_id
  pub to_address : e.to_address ≡ some q.pay_to

matches_network_some :
    (candidates other : List Text) (column : Text)
    → is_empty candidates ≡ false
    → matches_network (or_candidates candidates other) column ≡ true
    → includes column candidates ≡ true
matches_network_some [] other column full h = cc
matches_network_some (c ∷ cs) other column full h = h

matches_text-some :
    (v column : Text) → is_empty v ≡ false → matches_text (some v) column ≡ true → column ≡ v
matches_text-some v column full h = (text_eq_iff column v).0 (rw full at h)

five :
    (a b c d e : Bool)
    → (a && b && c && d && e) ≡ true
    → (a ≡ true) × (b ≡ true) × (c ≡ true) × (d ≡ true) × (e ≡ true)
five a b c d e h = ground arith

-- The parameters that are required are there, and the network is a name that the code has read.
record IsComplete (q : ExactMatchQuery) : Type 0 where
  pub merchant_id : is_empty q.merchant_id ≡ false
  pub token_id : is_empty q.token_id ≡ false
  pub pay_to : is_empty q.pay_to ≡ false
  pub candidates : is_empty (network_candidates q.network) ≡ false

no_disjunct :
    (a b c d e f : Bool)
    → (a || b || c || d || e || f) ≡ false
    → (a ≡ false) × (c ≡ false) × (d ≡ false) × (f ≡ false)
no_disjunct a b c d e f h = ground arith

lacks_nothing :
    (q : ExactMatchQuery)
    → lacks_parameter q ≡ false
    → (is_empty q.merchant_id ≡ false)
      × (is_empty q.network ≡ false)
      × (is_empty q.token_id ≡ false)
      × (is_empty q.pay_to ≡ false)
unfolding lacks_parameter
lacks_nothing q h = no_disjunct _ _ _ _ _ _ h

normalized_query :
    (rt : Runtime) (query : Value)
    → normalize_network_id (read_query rt query).network ≡ (read_query rt query).network
unfolding read_query
normalized_query rt query =
    normalize_network_id_idempotent (as_trimmed_string (get query (codes "network")))

read_query-IsComplete :
    (rt : Runtime) (query : Value)
    → lacks_parameter (read_query rt query) ≡ false
    → IsComplete (read_query rt query)
read_query-IsComplete rt query h =
    let (merchant, network, token, address) = lacks_nothing (read_query rt query) h in
    record {
      merchant_id = merchant;
      token_id = token;
      pay_to = address;
      candidates =
          network_candidates_some (read_query rt query).network
            (ap is_empty (normalized_query rt query) ∙ network);
    }

selects-IsQueried :
    (q : ExactMatchQuery) (resolved : ResolvedInfo) (row : Challenge)
    → IsComplete q
    → selects (alias_filters q) row ≡ true
    → is_alias_match q resolved.decimals row ≡ true
    → IsQueried q resolved row
unfolding selects alias_filters is_alias_match
selects-IsQueried q resolved row c h test =
    let (merchant, network, token, address, status) = five _ _ _ _ _ h in
    let (nonce, amount, kind, token', decimals) = five _ _ _ _ _ test in
    record {
      merchant_id = matches_text-some q.merchant_id row.merchant_id c.merchant_id merchant;
      nonce = (text_eq_iff row.nonce q.nonce).0 nonce;
      network =
          matches_network_some (network_candidates q.network)
            (candidates_of_filter (some q.network)) row.network c.candidates network;
      asset_type = (text_eq_iff (trim row.asset.asset_type) q.asset_type).0 kind;
      token_id = matches_text-some q.token_id row.asset.token_id c.token_id token;
      decimals = decimals;
      amount = (text_eq_iff row.amount q.amount).0 amount;
      pay_to = matches_text-some q.pay_to row.pay_to c.pay_to address;
    }

is_addressed-some : (o : Option Text) (to : Text) → is_addressed o to ≡ true → o ≡ some to
is_addressed-some none to h = cc
is_addressed-some (some a) to h = ap some ((text_eq_iff a to).0 h)

matching-IsPayment :
    (q : ExactMatchQuery) (resolved : ResolvedInfo) (minor : Text) (e : PltEvent)
    → to_minor_units q.amount resolved.decimals ≡ ok minor
    → is_matching_event q.network resolved.network_genesis_index q.token_id q.pay_to minor e ≡ true
    → IsPayment q resolved e
unfolding is_matching_event
matching-IsPayment q resolved minor e converted h =
    let (network, genesis, token, address, amount) = five _ _ _ _ _ h in
    record {
      amount = converted ∙ ap ok (sym ((text_eq_iff e.amount_raw minor).0 amount));
      network = network;
      network_genesis_index =
          (int_eq_iff e.network_genesis_index resolved.network_genesis_index).0 genesis;
      asset_id = (text_eq_iff e.asset_id q.token_id).0 token;
      to_address = is_addressed-some e.to_address q.pay_to address;
    }

-- What the answer `exact_match` of the alias says of the database
pub record Vouched (q : ExactMatchQuery) (resolved : ResolvedInfo) (row : Challenge) (db : Db)
    : Type 0 where
  pub is_resolved :
      resolved
      ≡ resolve_decimals_and_genesis_index q.network q.token_id q.decimals_from_query db.assets
  pub listed : In row db.challenges
  pub queried : IsQueried q resolved row
  pub paid : q.require_event ≡ true → (e : PltEvent) × In e db.events × IsPayment q resolved e

gate_sound :
    (q : ExactMatchQuery) (resolved r : ResolvedInfo) (row row' : Challenge)
    (events : List PltEvent)
    → gate q resolved row events ≡ exact_match row' r
    → (row ≡ row') × (resolved ≡ r) × ((e : PltEvent) × In e events × IsPayment q resolved e)
unfolding gate has_matching_plt_event
gate_sound q resolved r row row' events h =
    converted (to_minor_units q.amount resolved.decimals) refl
  where
    Found : Type 0
    Found = (row ≡ row') × (resolved ≡ r) × ((e : PltEvent) × In e events × IsPayment q resolved e)

    converted : (m : Result Text) → to_minor_units q.amount resolved.decimals ≡ m → Found
    converted (err e) is_m = cc (rw (is_m, gate) at h)
    converted (ok minor) is_m =
        elim (Bool-cases (
          any (is_matching_event q.network resolved.network_genesis_index q.token_id q.pay_to minor)
            events)) [
              | inr missing ↦ cc (rw (is_m, missing, gate, has_matching_plt_event) at h)
              | inl found ↦
                  let (e, there, matching) = any_some _ events found in
                  let same : exact_match row resolved ≡ exact_match row' r =
                    rw (is_m, found, gate, has_matching_plt_event) at h in
                  (cc, cc, (e, there, matching-IsPayment q resolved minor e is_m matching))
            ]

answer_query-Vouched :
    (q : ExactMatchQuery) (db : Db) (row : Challenge) (resolved : ResolvedInfo)
    → IsComplete q
    → answer_query q db ≡ exact_match row resolved
    → Vouched q resolved row db
unfolding answer_query
answer_query-Vouched q db row resolved complete h =
    let info =
      resolve_decimals_and_genesis_index q.network q.token_id q.decimals_from_query db.assets in
    let rows = search_payments (alias_filters q) db.challenges in
    elim (Option-cases (find (is_alias_match q info.decimals) rows)) [
      | inl missing ↦ cc (rw (missing, answer_query) at h)
      | inr (found, is_found) ↦
          let (test, listed) = find_sound (is_alias_match q info.decimals) rows found is_found in
          let (chosen, there) =
            (search_payments_sound (alias_filters q) db.challenges).1 found listed in
          let queried = selects-IsQueried q info found complete chosen test in
          elim (Bool-cases q.require_event) [
            | inl gated ↦
                let (same, info_same, paid) =
                  gate_sound q info resolved found row db.events
                    (rw (is_found, gated, answer_query) at h) in
                subst (λ x. Vouched q resolved x db) same
                  (subst (λ r. Vouched q r found db) info_same
                    (record {
                      is_resolved = refl;
                      listed = there;
                      queried = queried;
                      paid = λ on. paid;
                    }))
            | inr ungated ↦
                let same : exact_match found info ≡ exact_match row resolved =
                  rw (is_found, ungated, answer_query) at h in
                let row_same : found ≡ row = cc in
                let info_same : info ≡ resolved = cc in
                subst (λ x. Vouched q resolved x db) row_same
                  (subst (λ r. Vouched q r found db) info_same
                    (record {
                      is_resolved = refl;
                      listed = there;
                      queried = queried;
                      paid = λ on. cc;
                    }))
          ]
    ]

-- What the alias vouches for: if it answers `exact_match` with a challenge, then the challenge is
-- in the table and has the tuple of the query, with the decimals that the query gives, or
-- else the registry, or else 2; and unless the query turns the gate off, the table holds an event of the token, of
-- whatever type, to the address of the query, on an equivalent network, whose amount is that of the
-- query in minor units.
pub exact_match_alias-Vouched :
    (rt : Runtime) (query : Value) (db : Db) (row : Challenge) (resolved : ResolvedInfo)
    → exact_match_alias rt query db ≡ exact_match row resolved
    → Vouched (read_query rt query) resolved row db
unfolding exact_match_alias
exact_match_alias-Vouched rt query db row resolved h =
    elim (Bool-cases (lacks_parameter (read_query rt query))) [
      | inl lacking ↦ cc (rw (lacking, exact_match_alias) at h)
      | inr complete ↦
          answer_query-Vouched (read_query rt query) db row resolved
            (read_query-IsComplete rt query complete) (rw (complete, exact_match_alias) at h)
    ]
