-- ===== src/Payments/Ledger/Invariant.antt =====
-- The ledger's keys, claims and receipts through every sequence of steps.
use mathlib.Core.Path.{subst}
use mathlib.Core.Option.{some-injective}
use xcf_concordium_facilitat.Base.{ℕ, ◌≡◌, sym, ap, ◌∙◌, Bool, some, List, inl, inr, In, Within}
use xcf_concordium_facilitat.NetworkId.{normalize_network_id}
use xcf_concordium_facilitat.NetworkId.Laws.{normalize_network_id_idempotent}
use xcf_concordium_facilitat.Store.{Proof, proof, Receipt, Challenge, Claim, Db}
use xcf_concordium_facilitat.Payments.Services.{Services}
use xcf_concordium_facilitat.Payments.Claiming.{claimed, canonical_claim, claim_plt_event}
use xcf_concordium_facilitat.Payments.Claims.{claim_plt_event-claimed}
use xcf_concordium_facilitat.Payments.Fulfill.{Settlement}
use xcf_concordium_facilitat.Payments.Fulfill.Proofs.{build_proof}
use xcf_concordium_facilitat.Payments.Fulfill.Decisions.{IsSettlement, decide-settle}
use xcf_concordium_facilitat.Payments.Receipts.{
  claim-network, claim-tx_hash, claim-event_index, claim-genesis, claim-merchant_id, claim-nonce,
  receipt-payload,
}
use xcf_concordium_facilitat.Payments.Settle.{settled_db}
use xcf_concordium_facilitat.Payments.Settle.Branches.{run_transaction-cases}
use xcf_concordium_facilitat.Payments.Ledger.{
  Step, create, commit, observe, register, Reach, here, next, Backs, Pays, IsLedger,
}
use xcf_concordium_facilitat.Payments.Ledger.Tables.{
  claims_kept, claims_new, claims_unique_after, create-IsLedger, observe-IsLedger,
}
use xcf_concordium_facilitat.Payments.Ledger.Writes.{IsWritten, set_fulfilled-In}

proof-injective : {p q : Proof} → proof p ≡ proof q → p ≡ q
proof-injective h = cc

module _ {sv : Services} {earlier : Db} {s : Settlement} (d : IsSettlement sv earlier s) where
  claim-Backs : Backs s.event (canonical_claim s.claim)
  claim-Backs = record {
    network =
        ap normalize_network_id (claim-network d) ∙ normalize_network_id_idempotent s.event.network;
    genesis = claim-genesis d;
    tx_hash = claim-tx_hash d;
    event_index = claim-event_index d;
  }

  payload-tx_hash :
      (r : Receipt) (p : Proof) (c : Challenge)
      → c.receipt ≡ some s.receipt
      → c.receipt ≡ some r
      → r.payload ≡ proof p
      → p.transaction_hash ≡ s.event.transaction_hash
  unfolding build_proof
  payload-tx_hash r p c wrote has pays =
      let same : r ≡ s.receipt = some-injective r s.receipt (sym has ∙ wrote) in
      ap (λ (q : Proof). q.transaction_hash)
        (proof-injective (sym pays ∙ ap (λ (x : Receipt). x.payload) same ∙ receipt-payload d))

  module _ (snapshot : List Claim) (now : ℕ) (db : Db) (events : Within earlier.events db.events)
      (within : Within snapshot db.claims) (inserted : Bool)
      (won : (claim_plt_event s.claim snapshot db.claims).0 ≡ claimed inserted)
      (l : IsLedger db) where
    written-paid :
        (row : Challenge) (r : Receipt) (p : Proof)
        → IsWritten s.tuple.merchant_id s.tuple.nonce s.receipt row
        → row.receipt ≡ some r
        → r.payload ≡ proof p
        → (c : Claim) × In c (claim_plt_event s.claim snapshot db.claims).1 × Pays c row p
    written-paid row r p w has pays =
        let (c, there, event, owner) =
          claim_plt_event-claimed s.claim snapshot db.claims within won in
        (
          c,
          there,
          record {
            merchant_id = sym owner.merchant_id ∙ claim-merchant_id d ∙ sym w.merchant_id;
            nonce = sym owner.nonce ∙ claim-nonce d ∙ sym w.nonce;
            tx_hash =
                sym event.tx_hash
                ∙ claim-tx_hash d
                ∙ sym (payload-tx_hash r p row w.receipt has pays);
          },
        )

    settled-IsLedger : IsLedger (settled_db s now (claim_plt_event s.claim snapshot db.claims).1 db)
    settled-IsLedger = record {
      events_unique = l.events_unique;
      claims_unique = claims_unique_after s.claim snapshot db.claims l.claims_unique;
      claims_backed = λ c h. elim (claims_new s.claim snapshot db.claims c h) [
        | inl old ↦ l.claims_backed c old
        | inr new ↦ (s.event, events s.event d.listed, subst (Backs s.event) (sym new) claim-Backs)
      ];
      receipts_paid = λ row r p h has pays.
          elim (set_fulfilled-In s.tuple.merchant_id s.tuple.nonce s.receipt now db.challenges row
            h) [
              | inl old ↦
                  let (c, there, paid) = l.receipts_paid row r p old has pays in
                  (c, claims_kept s.claim snapshot db.claims c there, paid)
              | inr new ↦ written-paid row r p new has pays
            ];
    }

Step-IsLedger : {sv : Services} {db db' : Db} → Step sv db db' → IsLedger db → IsLedger db'
Step-IsLedger (create body now db) l = create-IsLedger _ body now db l
Step-IsLedger (commit s body earlier snapshot when now db decided events within) l =
    elim (run_transaction-cases s snapshot when now db) [
      | inr rolled ↦ subst IsLedger (sym (ap (λ x. x.1) rolled.result)) l
      | inl done ↦ subst IsLedger (sym (ap (λ x. x.1) done.result)) (
          settled-IsLedger (decide-settle _ body earlier s decided) snapshot now db events within
            done.inserted done.claim l)
    ]
Step-IsLedger (observe e db fresh) l = observe-IsLedger e db fresh l
Step-IsLedger (register assets db) l = record {
  events_unique = l.events_unique;
  claims_unique = l.claims_unique;
  claims_backed = l.claims_backed;
  receipts_paid = l.receipts_paid;
}

-- Whatever requests and worker steps follow each other, and however old the reads of a settlement
-- are when it commits: if the keys of events and claims are unique at the start, every claim is for
-- an event of the table and every proof of a challenge is for a transaction it has claimed, then
-- this holds after every sequence of steps.
pub Reach-IsLedger :
    (sv : Services) (start db : Db) → Reach sv start db → IsLedger start → IsLedger db
Reach-IsLedger sv start db here l = l
Reach-IsLedger sv start db (next before step) l =
    Step-IsLedger step (Reach-IsLedger sv start _ before l)
