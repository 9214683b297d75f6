-- ===== src/Payments/Settle/Branches.antt =====
-- The two ends of the transaction: it commits both writes, or it leaves the database as it was.
use xcf_concordium_facilitat.Base.{
  ℕ, ◌≡◌, ◌⊎◌, refl, Bool, ◌==◌, if◌then◌else◌, List, arith, inl, inr, Bool-cases,
}
use xcf_concordium_facilitat.Store.{Claim, Db}
use xcf_concordium_facilitat.Payments.Claiming.{
  ClaimResult, claimed, event_claimed, claim_lookup_failed, claim_plt_event,
}
use xcf_concordium_facilitat.Payments.Fulfill.{
  Fulfilled, event_taken, claim_failed, challenge_update_failed, transaction_failed, query_failed,
  Settlement,
}
use xcf_concordium_facilitat.Payments.Settle.{
  Outage, at_connect, at_begin, at_claim, at_update, at_commit, at_acknowledgement, row_count,
  Committed, committed, unacknowledged, settled_db, rolled_back, write_receipt, after_claim,
  run_transaction,
}

-- How a transaction that writes can end
pub data IsEnding (when : Outage) : Committed → Type 0 where
  acknowledged : IsEnding when committed
  acknowledgement_lost : when ≡ at_acknowledgement → IsEnding when unacknowledged

module _ (s : Settlement) (snapshot : List Claim) (when : Outage) (now : ℕ) (db : Db) where
  pub record IsCommit : Type 0 where
    pub inserted : Bool
    pub claim : (claim_plt_event s.claim snapshot db.claims).0 ≡ claimed inserted
    pub one_row : row_count s.tuple.merchant_id s.tuple.nonce db.challenges ≡ 1
    pub ending : Committed
    pub is_ending : IsEnding when ending
    pub result :
        run_transaction s snapshot when now db
        ≡ (ending, settled_db s now (claim_plt_event s.claim snapshot db.claims).1 db)

  pub record IsRollback : Type 0 where
    pub answer : Fulfilled
    pub result : run_transaction s snapshot when now db ≡ (rolled_back answer, db)

-- Nothing written, or both
Writes : Settlement → Outage → ℕ → List Claim → Db → Committed × Db → Type 0
Writes s when now claims db w =
    ((a : Fulfilled) × (w ≡ (rolled_back a, db)))
    ⊎ ((row_count s.tuple.merchant_id s.tuple.nonce db.challenges ≡ 1)
        × (ending : Committed) × IsEnding when ending
        × (w ≡ (ending, settled_db s now claims db)))

by_rows :
    (s : Settlement) (when : Outage) (now : ℕ) (claims : List Claim) (db : Db) (ending : Committed)
    → IsEnding when ending
    → Writes s when now claims db (
        if row_count s.tuple.merchant_id s.tuple.nonce db.challenges == 1
        then (ending, settled_db s now claims db)
        else (rolled_back challenge_update_failed, db))
unfolding Writes
by_rows s when now claims db ending is =
    elim (Bool-cases (row_count s.tuple.merchant_id s.tuple.nonce db.challenges == 1)) [
      | inl one ↦ inr (ground arith, ending, is, rw one)
      | inr other ↦ inl (challenge_update_failed, rw other)
    ]

write_receipt-cases :
    (s : Settlement) (when : Outage) (now : ℕ) (claims : List Claim) (db : Db)
    → Writes s when now claims db (write_receipt s when now claims db)
unfolding write_receipt Writes
write_receipt-cases s at_update now claims db = inl (transaction_failed, refl)
write_receipt-cases s at_commit now claims db =
    elim (Bool-cases (row_count s.tuple.merchant_id s.tuple.nonce db.challenges == 1)) [
      | inl one ↦ inl (transaction_failed, rw one)
      | inr other ↦ inl (challenge_update_failed, rw other)
    ]
write_receipt-cases s at_acknowledgement now claims db =
    by_rows s at_acknowledgement now claims db unacknowledged (acknowledgement_lost refl)
write_receipt-cases s when now claims db = by_rows s when now claims db committed acknowledged

AfterClaim : Settlement → Outage → ℕ → ClaimResult → List Claim → Db → Type 0
AfterClaim s when now r claims db =
    ((a : Fulfilled) × (after_claim s when now r claims db ≡ (rolled_back a, db)))
    ⊎ ((inserted : Bool) × (r ≡ claimed inserted)
        × (row_count s.tuple.merchant_id s.tuple.nonce db.challenges ≡ 1)
        × (ending : Committed) × IsEnding when ending
        × (after_claim s when now r claims db ≡ (ending, settled_db s now claims db)))

AfterClaim-cases :
    (s : Settlement) (when : Outage) (now : ℕ) (r : ClaimResult) (claims : List Claim) (db : Db)
    → AfterClaim s when now r claims db
unfolding AfterClaim after_claim Writes
AfterClaim-cases s when now (claimed inserted) claims db =
    elim (write_receipt-cases s when now claims db) [
      | inl rolled ↦ inl rolled
      | inr (one, ending, is, done) ↦ inr (inserted, refl, one, ending, is, done)
    ]
AfterClaim-cases s when now (event_claimed m n) claims db = inl (event_taken s.row m n, refl)
AfterClaim-cases s when now claim_lookup_failed claims db = inl (claim_failed, refl)

-- The transaction commits the claim and the receipt together, or it answers and writes nothing.
pub run_transaction-cases :
    (s : Settlement) (snapshot : List Claim) (when : Outage) (now : ℕ) (db : Db)
    → IsCommit s snapshot when now db ⊎ IsRollback s snapshot when now db
unfolding run_transaction AfterClaim
run_transaction-cases s snapshot at_connect now db =
    inr (record { answer = query_failed; result = refl })
run_transaction-cases s snapshot at_begin now db =
    inr (record { answer = transaction_failed; result = refl })
run_transaction-cases s snapshot at_claim now db =
    inr (record { answer = transaction_failed; result = refl })
run_transaction-cases s snapshot when now db =
    let (r, claims) = claim_plt_event s.claim snapshot db.claims in
    elim (AfterClaim-cases s when now r claims db) [
      | inl (a, rolled) ↦ inr (record { answer = a; result = rolled })
      | inr (inserted, won, one, ending, is, done) ↦ inl (record {
        inserted = inserted;
        claim = won;
        one_row = one;
        ending = ending;
        is_ending = is;
        result = done;
      })
    ]
