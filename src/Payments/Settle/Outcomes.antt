-- ===== src/Payments/Settle/Outcomes.antt =====
-- The handler of /payments/fulfill as a whole: when it writes, what, and what it then answers.
use xcf_concordium_facilitat.Base.{
  ℕ, ◌≡◌, ◌≢◌, ◌⊎◌, refl, sym, ap, ◌∙◌, false, ◌&&◌, Option, none, some, List, [], ◌∷◌, ◌++◌, inl,
  inr, Bool-cases, Text, ℤ, Value,
}
use mathlib.Core.Path.{subst}
use xcf_concordium_facilitat.Store.{Claim, Challenge, Db}
use xcf_concordium_facilitat.Payments.{
  PaymentTuple, read_tuple, is_incomplete, AssetNorm, resolved, asset_disabled, decimals_mismatch,
}
use xcf_concordium_facilitat.Payments.Services.{Services}
use xcf_concordium_facilitat.Payments.Claiming.{is_taken, canonical_claim, claim_plt_event}
use xcf_concordium_facilitat.Payments.Fulfill.{
  Fulfilled, transaction_failed, query_failed, makes_queries, code_of, Settlement, Decision, answer,
  settle, no_gate, again, require_event_of, tx_hash_of, already_settled, decide_row, decide_match,
  decide_asset, decide,
}
use xcf_concordium_facilitat.Payments.Settle.{
  Outage, no_outage, at_acknowledgement, at_reread, row_count, Committed, committed, settled_db,
  write_receipt, after_claim, run_transaction, notify, after_transaction, fails_before, carry_out,
  fulfill_payment,
}
use xcf_concordium_facilitat.Payments.Settle.Branches.{
  IsEnding, acknowledged, acknowledgement_lost, IsCommit, run_transaction-cases,
}

Decision-cases :
    (d : Decision) → ((s : Settlement) × (d ≡ settle s)) ⊎ ((s : Settlement) → d ≡ settle s → ⊥)
Decision-cases (settle s) = inl (s, refl)
Decision-cases (answer f) = inr (λ s h. cc)
Decision-cases (no_gate t row) = inr (λ s h. cc)
Decision-cases (again t row) = inr (λ s h. cc)

-- How a request that wrote answers: from the row as it stands after the commit, or with an error,
-- where the acknowledgement of the commit is lost or the search for that row fails.
pub data IsAnswered (sv : Services) (s : Settlement) (when : Outage) (db : Db)
    : Fulfilled → Type 0 where
  posted : IsAnswered sv s when db (notify sv no_outage s.tuple s.row db)
  commit_unknown : when ≡ at_acknowledgement → IsAnswered sv s when db transaction_failed
  row_unread : when ≡ at_reread → IsAnswered sv s when db query_failed

-- A request that wrote: it decided on a settlement, and both writes of its transaction stand.
pub record IsSettled (sv : Services) (body : Value) (when : Outage) (now : ℕ) (db : Db)
    : Type 0 where
  pub settlement : Settlement
  pub decided : decide sv body db ≡ settle settlement
  pub commits : IsCommit settlement db.claims when now db
  pub answered :
      IsAnswered sv settlement when
        (fulfill_payment sv body when now db).1
        (fulfill_payment sv body when now db).0
  pub written :
      (fulfill_payment sv body when now db).1
      ≡ settled_db settlement now (claim_plt_event settlement.claim db.claims db.claims).1 db

carry_out-unsettled :
    (sv : Services) (when : Outage) (now : ℕ) (db : Db) (d : Decision)
    → ((s : Settlement) → d ≡ settle s → ⊥)
    → (carry_out sv d when now db).1 ≡ db
unfolding carry_out
carry_out-unsettled sv when now db (answer f) never = refl
carry_out-unsettled sv when now db (no_gate t row) never = refl
carry_out-unsettled sv when now db (again t row) never = refl
carry_out-unsettled sv when now db (settle s) never = absurd (never s refl)

notify-IsAnswered :
    (sv : Services) (s : Settlement) (when : Outage) (db : Db)
    → IsAnswered sv s when db (notify sv when s.tuple s.row db)
unfolding notify
notify-IsAnswered sv s at_reread db = row_unread refl
notify-IsAnswered sv s when db = posted

after_transaction-IsAnswered :
    (sv : Services) (s : Settlement) (when : Outage) (ending : Committed) (db : Db)
    → IsEnding when ending
    → ((after_transaction sv s when (ending, db)).1 ≡ db)
      × IsAnswered sv s when db (after_transaction sv s when (ending, db)).0
unfolding after_transaction
after_transaction-IsAnswered sv s when _ db acknowledged = (refl, notify-IsAnswered sv s when db)
after_transaction-IsAnswered sv s when _ db (acknowledgement_lost lost) =
    (refl, commit_unknown lost)

-- The handler stops before its decision, or carries it out.
fulfill_payment-cases :
    (sv : Services) (body : Value) (when : Outage) (now : ℕ) (db : Db)
    → (fulfill_payment sv body when now db ≡ (query_failed, db))
      ⊎ (fulfill_payment sv body when now db ≡ carry_out sv (decide sv body db) when now db)
unfolding fulfill_payment
fulfill_payment-cases sv body when now db =
    elim (Bool-cases (fails_before when && makes_queries sv body)) [
      | inl stops ↦ inl (rw (fulfill_payment, stops) refl)
      | inr goes_on ↦ inr (rw (fulfill_payment, goes_on) refl)
    ]

unsettled :
    (sv : Services) (body : Value) (when : Outage) (now : ℕ) (db : Db)
    → ((s : Settlement) → decide sv body db ≡ settle s → ⊥)
    → (fulfill_payment sv body when now db).1 ≡ db
unsettled sv body when now db never = elim (fulfill_payment-cases sv body when now db) [
  | inl stopped ↦ ap (λ x. x.1) stopped
  | inr carried ↦
      ap (λ x. x.1) carried ∙ carry_out-unsettled sv when now db (decide sv body db) never
]

carry_out-IsSettled :
    (sv : Services) (body : Value) (when : Outage) (now : ℕ) (db : Db) (s : Settlement)
    → decide sv body db ≡ settle s
    → fulfill_payment sv body when now db ≡ carry_out sv (decide sv body db) when now db
    → IsCommit s db.claims when now db
    → IsSettled sv body when now db
unfolding carry_out
carry_out-IsSettled sv body when now db s e carried done =
    let db' = settled_db s now (claim_plt_event s.claim db.claims db.claims).1 db in
    let all : fulfill_payment sv body when now db ≡ after_transaction sv s when (done.ending, db') =
      carried
      ∙ ap (λ d. carry_out sv d when now db) e
      ∙ ap (after_transaction sv s when) done.result in
    let (same, answers) = after_transaction-IsAnswered sv s when done.ending db' done.is_ending in
    let written : (fulfill_payment sv body when now db).1 ≡ db' = ap (λ x. x.1) all ∙ same in
    record {
      settlement = s;
      decided = e;
      commits = done;
      answered =
          subst (λ (x : Db). IsAnswered sv s when x (fulfill_payment sv body when now db).0)
            (sym written) (subst (IsAnswered sv s when db') (sym (ap (λ x. x.0) all)) answers);
      written = written;
    }

-- All or nothing: with no other request between the reads and the transaction, whichever query
-- before, in or after the transaction fails, the handler leaves the database as it was, or it
-- commits the claim of the event and the receipt of exactly one challenge together. Having written,
-- it answers from the database after the commit, or with an error where the acknowledgement of the
-- commit was lost or the search for the row after it failed.
pub fulfill_payment-atomic :
    (sv : Services) (body : Value) (when : Outage) (now : ℕ) (db : Db)
    → ((fulfill_payment sv body when now db).1 ≡ db) ⊎ IsSettled sv body when now db
unfolding carry_out after_transaction
fulfill_payment-atomic sv body when now db = elim (fulfill_payment-cases sv body when now db) [
  | inl stopped ↦ inl (ap (λ x. x.1) stopped)
  | inr carried ↦ elim (Decision-cases (decide sv body db)) [
    | inr never ↦ inl (unsettled sv body when now db never)
    | inl (s, e) ↦ elim (run_transaction-cases s db.claims when now db) [
      | inl done ↦ inr (carry_out-IsSettled sv body when now db s e carried done)
      | inr rolled ↦ inl (
          ap (λ x. x.1)
            (carried
              ∙ ap (λ d. carry_out sv d when now db) e
              ∙ ap (after_transaction sv s when) rolled.result))
    ]
  ]
]

notified_code :
    (sv : Services) (s : Settlement) (when : Outage) (db : Db) (a : Fulfilled)
    → IsAnswered sv s when db a
    → code_of a ≢ 200
    → (when ≡ at_acknowledgement) ⊎ (when ≡ at_reread)
unfolding notify code_of
notified_code sv s when db _ posted bad = absurd (bad refl)
notified_code sv s when db _ (commit_unknown lost) bad = inl lost
notified_code sv s when db _ (row_unread failed) bad = inr failed

-- An answer with an error code leaves the database as it was, but for two outages, after which the
-- claim and the receipt may stand all the same: the lost acknowledgement of the commit, and the
-- failure of the search for the row after it.
pub fulfill_payment-error_causes :
    (sv : Services) (body : Value) (when : Outage) (now : ℕ) (db : Db)
    → code_of (fulfill_payment sv body when now db).0 ≢ 200
    → ((fulfill_payment sv body when now db).1 ≡ db)
      ⊎ (((when ≡ at_acknowledgement) ⊎ (when ≡ at_reread)) × IsSettled sv body when now db)
fulfill_payment-error_causes sv body when now db bad =
    elim (fulfill_payment-atomic sv body when now db) [
      | inl same ↦ inl same
      | inr done ↦ inr (notified_code sv done.settlement when _ _ done.answered bad, done)
    ]

-- The transaction of a settlement whose claim is free and whose row is alone
pub run_transaction-commits :
    (s : Settlement) (snapshot : List Claim) (now : ℕ) (db : Db)
    → is_taken (canonical_claim s.claim) db.claims ≡ false
    → row_count s.tuple.merchant_id s.tuple.nonce db.challenges ≡ 1
    → run_transaction s snapshot no_outage now db
      ≡ (committed, settled_db s now (db.claims ++ canonical_claim s.claim ∷ []) db)
unfolding run_transaction after_claim write_receipt claim_plt_event
run_transaction-commits s snapshot now db free one = rw (free, one)

decide_row-ungated :
    (sv : Services) (h : Option Text) (t : PaymentTuple) (ngi : ℤ) (row : Challenge) (db : Db)
    (s : Settlement)
    → decide_row sv false h t ngi row db ≡ settle s
    → ⊥
unfolding decide_row
decide_row-ungated sv h t ngi row db s e = elim (Bool-cases (already_settled row)) [
  | inl done ↦ cc (rw (done, decide_row) at e)
  | inr open_row ↦ cc (rw (open_row, decide_row) at e)
]

decide_match-ungated :
    (sv : Services) (h : Option Text) (t : PaymentTuple) (ngi : ℤ) (row : Option Challenge)
    (db : Db) (s : Settlement)
    → decide_match sv false h t ngi row db ≡ settle s
    → ⊥
unfolding decide_match
decide_match-ungated sv h t ngi none db s e = cc
decide_match-ungated sv h t ngi (some row) db s e = decide_row-ungated sv h t ngi row db s e

decide_asset-ungated :
    (sv : Services) (h : Option Text) (t : PaymentTuple) (n : AssetNorm) (db : Db) (s : Settlement)
    → decide_asset sv false h t n db ≡ settle s
    → ⊥
unfolding decide_asset
decide_asset-ungated sv h t (resolved asset ngi from_db) db s e =
    decide_match-ungated sv h (record t { asset = asset }) ngi _ db s e
decide_asset-ungated sv h t asset_disabled db s e = cc
decide_asset-ungated sv h t (decimals_mismatch p r) db s e = cc

decide-ungated :
    (sv : Services) (body : Value) (db : Db) (s : Settlement)
    → require_event_of sv.runtime body ≡ false
    → decide sv body db ≡ settle s
    → ⊥
unfolding decide
decide-ungated sv body db s off e = elim (Bool-cases (is_incomplete (read_tuple sv.runtime body))) [
  | inl bad ↦ cc (rw (bad, decide) at e)
  | inr complete ↦
      decide_asset-ungated sv (tx_hash_of sv.runtime body) (read_tuple sv.runtime body) _ db s
        (rw (complete, off, decide) at e)
]

-- A request that asks for no event, by a false `requireEvent`, fulfills nothing: the database stays
-- as it was.
pub fulfill_payment-ungated :
    (sv : Services) (body : Value) (when : Outage) (now : ℕ) (db : Db)
    → require_event_of sv.runtime body ≡ false
    → (fulfill_payment sv body when now db).1 ≡ db
fulfill_payment-ungated sv body when now db off =
    unsettled sv body when now db (λ s e. decide-ungated sv body db s off e)
