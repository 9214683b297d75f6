-- ===== src/Payments/Fulfill.antt =====
-- POST /v1/crp/payments/fulfill: an event on the chain settles a pending challenge.
pub mod Proofs
pub mod Decisions
use xcf_concordium_facilitat.Base.{
  ℕ, suc, Bool, true, false, not, ◌&&◌, ◌||◌, Option, none, some, List, [], ◌∷◌, if◌then◌else◌,
  is_empty, keep, ltb, ◌==◌, Text, codes, text_eq, includes, trim, ℤ, int_eq, Num, Value, get,
  coalesce, is_undefined, Runtime, as_booleanish,
}
use xcf_concordium_facilitat.NetworkId.{normalize_network_id, network_candidates}
use xcf_concordium_facilitat.Decimals.{AmountError, ok, err, to_minor_units}
use xcf_concordium_facilitat.Store.{
  Asset, Status, pending, fulfilled, expired, invalid, policy_failed, Proof, Payload, proof,
  Receipt, Challenge, PltEvent, Claim, Db, has_key,
}
use xcf_concordium_facilitat.Payments.{
  PaymentTuple, read_tuple, is_incomplete, requested_genesis_index, to_optional_tx_hash, plt,
  AssetNorm, resolved, asset_disabled, decimals_mismatch, normalize_asset_with_registry,
  find_exact_match,
}
use xcf_concordium_facilitat.Payments.Services.{Services, default_genesis}
use xcf_concordium_facilitat.Payments.Claiming.{
  ClaimResult, claimed, event_claimed, claim_lookup_failed, claim_plt_event,
}
use xcf_concordium_facilitat.Webhook.{WebhookResult, post_payment_webhook}
use Proofs.{build_proof}

-- The answers, in the order in which the handler can give them. Each of them but `exact_match` says
-- that no webhook was attempted, but for `query_failed`, the answer of the server to an exception.
pub data Fulfilled : Type 0 where
  bad_request : Fulfilled
  tx_hash_required : Fulfilled
  disabled : Fulfilled
  mismatch : Num → ℤ → Fulfilled
  no_match : Fulfilled
  bad_amount : AmountError → Fulfilled
  no_event : Challenge → Fulfilled
  event_taken : Challenge → Text → Text → Fulfilled
  claim_failed : Fulfilled
  challenge_update_failed : Fulfilled
  transaction_failed : Fulfilled
  query_failed : Fulfilled
  exact_match : Challenge → WebhookResult → Fulfilled

-- The HTTP status code
unfoldable pub code_of : Fulfilled → ℕ
code_of bad_request = 400
code_of tx_hash_required = 400
code_of (mismatch p r) = 400
code_of (bad_amount e) = 400
code_of (event_taken c m n) = 409
code_of claim_failed = 500
code_of challenge_update_failed = 500
code_of transaction_failed = 500
code_of query_failed = 500
code_of _ = 200

-- `requireEvent ?? require_event`, true if both are absent
unfoldable pub require_event_of : Runtime → Value → Bool
unfolding as_booleanish codes
require_event_of rt body =
    let raw = coalesce (get body (codes "requireEvent")) (get body (codes "require_event")) in
    if is_undefined raw then true else as_booleanish rt raw

unfoldable pub tx_hash_of : Runtime → Value → Option Text
unfolding to_optional_tx_hash codes
tx_hash_of rt body =
    to_optional_tx_hash rt (coalesce (get body (codes "txHash")) (get body (codes "tx_hash")))

abbrev pub is_address : Text → Option Text → Bool
is_address a none = false
is_address a (some b) = text_eq b a

-- The `WHERE` clause of `findPltEventByTx`
unfoldable pub is_event_of : List Text → ℤ → Text → Text → Text → Text → PltEvent → Bool
unfolding codes
is_event_of nets ngi token_id pay_to amount_minor tx_hash e =
    includes e.network nets
    && int_eq e.network_genesis_index ngi
    && text_eq e.asset_id token_id
    && is_address pay_to e.to_address
    && text_eq e.amount_raw amount_minor
    && text_eq e.transaction_hash tx_hash
    && text_eq e.event_type (codes "transfer")

abbrev earlier : PltEvent → Option PltEvent → Option PltEvent
earlier e none = some e
earlier e (some d) = if ltb d.event_index e.event_index then some d else some e

-- `ORDER BY event_index ASC LIMIT 1`
unfoldable pub first_event : List PltEvent → Option PltEvent
first_event [] = none
first_event (e ∷ es) = earlier e (first_event es)

unfoldable pub find_plt_event_by_tx :
    List Text → ℤ → Text → Text → Text → Text → List PltEvent → Option PltEvent
unfolding first_event is_event_of
find_plt_event_by_tx nets ngi token_id pay_to amount_minor tx_hash events =
    first_event (keep (is_event_of nets ngi token_id pay_to amount_minor tx_hash) events)

-- What the transaction is to write: the claim of an event, and the receipt of a challenge.
pub record Settlement : Type 0 where
  pub tuple : PaymentTuple
  pub row : Challenge
  pub event : PltEvent
  pub claim : Claim
  pub receipt : Receipt

-- The outcome of the reads before the transaction: an answer, a settlement, or, for a request that
-- asks for no event, the matched row.
pub data Decision : Type 0 where
  answer : Fulfilled → Decision
  settle : Settlement → Decision
  no_gate : PaymentTuple → Challenge → Decision
  again : PaymentTuple → Challenge → Decision

unfoldable pub settlement_of :
    Services → PaymentTuple → ℤ → Challenge → PltEvent → Text → Settlement
settlement_of sv t ngi row e amount_minor =
    let p = build_proof sv.runtime t row e amount_minor in
    record {
      tuple = t;
      row = row;
      event = e;
      claim = record {
        network = normalize_network_id e.network;
        network_genesis_index = ngi;
        tx_hash = e.transaction_hash;
        event_index = e.event_index;
        merchant_id = t.merchant_id;
        nonce = t.nonce;
      };
      receipt = record {
        jws = sv.sign_jws p;
        payload = proof p;
        facilitator_key_id = some sv.current_kid;
      };
    }

-- The search for the event, for a tuple of PLT
unfoldable pub decide_event : Services → PaymentTuple → ℤ → Challenge → Text → Db → Decision
unfolding settlement_of find_plt_event_by_tx
decide_event sv t ngi row tx_hash db = elim (to_minor_units t.amount t.asset.decimals) [
  | err e ↦ answer (bad_amount e)
  | ok amount_minor ↦
      elim (find_plt_event_by_tx (network_candidates t.network) ngi t.asset.token_id t.pay_to
        amount_minor tx_hash db.events) [
          | none ↦ answer (no_event row)
          | some e ↦ settle (settlement_of sv t ngi row e amount_minor)
        ]
]

-- `match.status === "fulfilled" && match.receipt?.jws`
abbrev has_jws : Option Receipt → Bool
has_jws none = false
has_jws (some r) = not (is_empty r.jws)

abbrev is_fulfilled : Status → Bool
is_fulfilled fulfilled = true
is_fulfilled _ = false

unfoldable pub already_settled : Challenge → Bool
already_settled row = is_fulfilled row.status && has_jws row.receipt

-- Behind the gate: PLT with a required event, which has its transaction hash.
unfoldable pub decide_row :
    Services → Bool → Option Text → PaymentTuple → ℤ → Challenge → Db → Decision
unfolding decide_event already_settled
decide_row sv require_event tx_hash t ngi row db =
    if already_settled row
    then again t row
    else if not (require_event && text_eq t.asset.asset_type plt)
    then no_gate t row
    else elim tx_hash [ none ↦ answer tx_hash_required | some h ↦ decide_event sv t ngi row h db ]

abbrev pub is_missing : Option Text → Bool
is_missing none = true
is_missing (some h) = false

-- The exact match of a tuple whose asset is resolved
unfoldable pub decide_match :
    Services → Bool → Option Text → PaymentTuple → ℤ → Option Challenge → Db → Decision
unfolding decide_row
decide_match sv require_event tx_hash t ngi none db = answer no_match
decide_match sv require_event tx_hash t ngi (some row) db =
    decide_row sv require_event tx_hash t ngi row db

unfoldable pub decide_asset :
    Services → Bool → Option Text → PaymentTuple → AssetNorm → Db → Decision
unfolding decide_match
decide_asset sv require_event tx_hash t (resolved asset ngi from_db) db =
    let t' = record t { asset = asset } in
    decide_match sv require_event tx_hash t' ngi (find_exact_match t' db.challenges) db
decide_asset sv require_event tx_hash t asset_disabled db = answer disabled
decide_asset sv require_event tx_hash t (decimals_mismatch provided registry) db =
    answer (mismatch provided registry)

-- The two checks that answer before any query
abbrev pub answers_early : Bool → Option Text → PaymentTuple → Bool
unfolding is_incomplete
answers_early require_event tx_hash t =
    is_incomplete t || (require_event && text_eq t.asset.asset_type plt && is_missing tx_hash)

-- Whether the handler comes to a query
unfoldable pub makes_queries : Services → Value → Bool
unfolding answers_early tx_hash_of require_event_of
makes_queries sv body = not (
    answers_early (require_event_of sv.runtime body) (tx_hash_of sv.runtime body)
      (read_tuple sv.runtime body))

-- The handler up to the transaction
unfoldable pub decide : Services → Value → Db → Decision
unfolding tx_hash_of require_event_of
decide sv body db =
    let t = read_tuple sv.runtime body in
    let require_event = require_event_of sv.runtime body in
    let tx_hash = tx_hash_of sv.runtime body in
    let later =
      decide_asset sv require_event tx_hash t
        (normalize_asset_with_registry (default_genesis sv) t.network t.asset
          (requested_genesis_index sv.runtime body) db.assets)
        db in
    if is_incomplete t
    then answer bad_request
    else if require_event && text_eq t.asset.asset_type plt && is_missing tx_hash
    then answer tx_hash_required
    else later
