-- ===== src/Payments/Settle.antt =====
-- The transaction of POST /v1/crp/payments/fulfill, and the whole handler.
pub mod Branches
pub mod Outcomes
pub mod Rereads
pub mod Repeats
use xcf_concordium_facilitat.Base.{
  ℕ, suc, Bool, true, false, ◌&&◌, Option, none, some, List, [], ◌∷◌, if◌then◌else◌, ◌==◌, Text,
  Value,
}
use xcf_concordium_facilitat.Store.{fulfilled, Receipt, Challenge, Claim, Db, has_key}
use xcf_concordium_facilitat.Payments.{PaymentTuple, find_exact_match}
use xcf_concordium_facilitat.Payments.Services.{Services}
use xcf_concordium_facilitat.Payments.Claiming.{
  ClaimResult, claimed, event_claimed, claim_lookup_failed, claim_plt_event,
}
use xcf_concordium_facilitat.Payments.Fulfill.{
  Fulfilled, event_taken, claim_failed, challenge_update_failed, transaction_failed, exact_match,
  Settlement, answer, settle, no_gate, again, Decision, decide, makes_queries, query_failed,
}
use xcf_concordium_facilitat.Webhook.{post_payment_webhook}

-- Which query fails, if any: one of those before the transaction, one of the transaction, or the search
-- for the row after it. A failed `COMMIT` has written nothing, or everything, where only its
-- acknowledgement is lost.
pub data Outage : Type 0 where
  no_outage at_read at_connect at_begin at_claim at_update at_commit at_acknowledgement at_reread :
      Outage

abbrev pub with_receipt : Receipt → ℕ → Challenge → Challenge
with_receipt r now c = record c { status = fulfilled; receipt = some r; updated_at = now }

-- `UPDATE public.challenges ... WHERE merchant_id = $1 AND nonce = $2`
unfoldable pub set_fulfilled : Text → Text → Receipt → ℕ → List Challenge → List Challenge
set_fulfilled merchant_id nonce r now [] = []
set_fulfilled merchant_id nonce r now (c ∷ cs) =
    let rest = set_fulfilled merchant_id nonce r now cs in
    (if has_key merchant_id nonce c then with_receipt r now c else c) ∷ rest

-- The number of rows that the `UPDATE` finds
unfoldable pub row_count : Text → Text → List Challenge → ℕ
row_count merchant_id nonce [] = 0
row_count merchant_id nonce (c ∷ cs) =
    let rest = row_count merchant_id nonce cs in
    if has_key merchant_id nonce c then suc rest else rest

-- What the transaction came to: committed, committed without an acknowledgement, or rolled back with
-- an answer.
pub data Committed : Type 0 where
  committed unacknowledged : Committed
  rolled_back : Fulfilled → Committed

-- The database with both writes
abbrev pub settled_db : Settlement → ℕ → List Claim → Db → Db
settled_db s now claims db = record db {
  challenges = set_fulfilled s.tuple.merchant_id s.tuple.nonce s.receipt now db.challenges;
  claims = claims;
}

unfoldable pub write_receipt : Settlement → Outage → ℕ → List Claim → Db → Committed × Db
write_receipt s when now claims db =
    let rows = row_count s.tuple.merchant_id s.tuple.nonce db.challenges in
    elim when [
      | at_update ↦ (rolled_back transaction_failed, db)
      | at_commit ↦
          if rows == 1
          then (rolled_back transaction_failed, db)
          else (rolled_back challenge_update_failed, db)
      | at_acknowledgement ↦
          if rows == 1
          then (unacknowledged, settled_db s now claims db)
          else (rolled_back challenge_update_failed, db)
      | _ ↦
          if rows == 1
          then (committed, settled_db s now claims db)
          else (rolled_back challenge_update_failed, db)
    ]

unfoldable pub after_claim :
    Settlement → Outage → ℕ → ClaimResult → List Claim → Db → Committed × Db
unfolding write_receipt
after_claim s when now (claimed inserted) claims db = write_receipt s when now claims db
after_claim s _ now (event_claimed m n) claims db = (rolled_back (event_taken s.row m n), db)
after_claim s _ now claim_lookup_failed claims db = (rolled_back claim_failed, db)

-- From `pool.connect()` to `client.release()`; `snapshot` is as in `claim_plt_event`.
unfoldable pub run_transaction : Settlement → List Claim → Outage → ℕ → Db → Committed × Db
unfolding after_claim
run_transaction s snapshot when now db =
    let (result, claims) = claim_plt_event s.claim snapshot db.claims in
    let done = after_claim s when now result claims db in
    elim when [
      | at_connect ↦ (rolled_back query_failed, db)
      | at_begin ↦ (rolled_back transaction_failed, db)
      | at_claim ↦ (rolled_back transaction_failed, db)
      | _ ↦ done
    ]

abbrev row_or : Challenge → Option Challenge → Challenge
row_or row none = row
row_or row (some updated) = updated

-- The last part of the handler: the row is read again and posted to the merchant. Nothing catches a
-- failure of this search.
unfoldable pub notify : Services → Outage → PaymentTuple → Challenge → Db → Fulfilled
notify sv when t row db =
    let payment = row_or row (find_exact_match t db.challenges) in
    let posted =
      exact_match payment (post_payment_webhook sv.runtime sv.env sv.send t.merchant_id payment) in
    elim when [ at_reread ↦ query_failed | _ ↦ posted ]

unfoldable pub after_transaction : Services → Settlement → Outage → Committed × Db → Fulfilled × Db
unfolding notify
after_transaction sv s when (committed, db) = (notify sv when s.tuple s.row db, db)
after_transaction sv s when (unacknowledged, db) = (transaction_failed, db)
after_transaction sv s when (rolled_back answered, db) = (answered, db)

abbrev pub fails_before : Outage → Bool
fails_before at_read = true
fails_before _ = false

unfoldable pub carry_out : Services → Decision → Outage → ℕ → Db → Fulfilled × Db
unfolding run_transaction after_transaction
carry_out sv (answer f) when now db = (f, db)
carry_out sv (again t row) when now db =
    (exact_match row (post_payment_webhook sv.runtime sv.env sv.send t.merchant_id row), db)
carry_out sv (no_gate t row) when now db = (notify sv when t row db, db)
carry_out sv (settle s) when now db =
    after_transaction sv s when (run_transaction s db.claims when now db)

-- The handler, with no other request between its reads and its transaction
unfoldable pub fulfill_payment : Services → Value → Outage → ℕ → Db → Fulfilled × Db
unfolding decide makes_queries carry_out
fulfill_payment sv body when now db =
    if fails_before when && makes_queries sv body
    then (query_failed, db)
    else carry_out sv (decide sv body db) when now db
