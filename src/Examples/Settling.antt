-- ===== src/Examples/Settling.antt =====
-- The fulfilling transaction and the ledger on one payment.
use mathlib.Core.Path.{subst}
use xcf_concordium_facilitat.Base.{
  is_empty, ◌≡◌, ◌≢◌, ◌⊎◌, refl, sym, ap, ◌∙◌, true, false, none, some, [], ◌∷◌, codes, arith, inl,
  inr, In, text_eq, to_string, trim, lower, as_booleanish,
}
use xcf_concordium_facilitat.Store.{Proof, Challenge, Receipt, PltEvent, Claim, Db}
use xcf_concordium_facilitat.Payments.Claiming.{claimed, is_taken, canonical_claim, claim_plt_event}
use xcf_concordium_facilitat.Payments.Claims.{SameEvent, SameOwner, claim_plt_event-claimed}
use xcf_concordium_facilitat.Payments.Fulfill.{
  exact_match, code_of, settlement_of, require_event_of,
}
use xcf_concordium_facilitat.Payments.Fulfill.Proofs.{build_proof}
use xcf_concordium_facilitat.Payments.Settle.{
  no_outage, at_acknowledgement, at_reread, settled_db, carry_out, notify, with_receipt,
  set_fulfilled, row_count, committed, write_receipt, after_claim, run_transaction,
  after_transaction, fulfill_payment,
}
use xcf_concordium_facilitat.Payments.Settle.Outcomes.{
  IsSettled, fulfill_payment-atomic, fulfill_payment-error_causes, run_transaction-commits,
  fulfill_payment-ungated,
}
use xcf_concordium_facilitat.Payments.Settle.Repeats.{fulfill_payment-repeated}
use xcf_concordium_facilitat.Webhook.{WebhookResult}
use xcf_concordium_facilitat.Payments.Ledger.{Reach, here, next, commit, IsLedger}
use xcf_concordium_facilitat.Payments.Ledger.Invariant.{Reach-IsLedger}
use xcf_concordium_facilitat.Payments.Ledger.Settled.{IsPaid, IsSingle, no_double_spend, one_owner}
use xcf_concordium_facilitat.Examples.Data.{
  services, fulfill_body, ungated_body, challenge, event, ready, paid,
}
use xcf_concordium_facilitat.Examples.Requests.{decides_to_settle}

the_event_free : is_taken (canonical_claim paid.claim) ready.claims ≡ false
unfolding is_taken
the_event_free = refl

the_row_alone : row_count paid.tuple.merchant_id paid.tuple.nonce ready.challenges ≡ 1
unfolding row_count settlement_of text_eq codes
the_row_alone = refl

abbrev settled : Db
settled = settled_db paid 4000 (canonical_claim paid.claim ∷ []) ready

pub settles : run_transaction paid [] no_outage 4000 ready ≡ (committed, settled)
settles = run_transaction-commits paid [] 4000 ready the_event_free the_row_alone

reaches : Reach services ready settled
reaches = subst (Reach services ready) (ap (λ x. x.1) settles) (
    next here (
      commit paid fulfill_body ready [] no_outage 4000 ready decides_to_settle (λ x h. h)
        (λ x h. h)))

one_event : (d e : PltEvent) → In d ready.events → In e ready.events → d ≡ e
one_event d e (inl x) (inl y) = x ∙ sym y
one_event d e (inr h) there = absurd h
one_event d e (inl x) (inr h) = absurd h

no_receipt : (row : Challenge) (r : Receipt) → In row ready.challenges → row.receipt ≡ some r → ⊥
no_receipt row r (inl e) has =
    let k : none ≡ some r = sym (ap (λ (x : Challenge). x.receipt) e) ∙ has in cc
no_receipt row r (inr h) has = absurd h

ready-IsLedger : IsLedger ready
ready-IsLedger = record {
  events_unique = λ d e hd he p. one_event d e hd he;
  claims_unique = λ c d hc hd same. absurd hc;
  claims_backed = λ c hc. absurd hc;
  receipts_paid = λ row r p h has pays. absurd (no_receipt row r h has);
}

Reach-IsLedger_example : IsLedger settled
Reach-IsLedger_example = Reach-IsLedger services ready settled reaches ready-IsLedger

abbrev paid_row : Challenge
paid_row = with_receipt paid.receipt 4000 challenge

is_paid : IsPaid settled paid_row (codes "t1")
unfolding set_fulfilled settlement_of build_proof codes text_eq
is_paid = record {
  listed = inl refl;
  receipt = paid.receipt;
  payload = build_proof services.runtime paid.tuple challenge event (codes "150");
  held = refl;
  proved = refl;
  names = refl;
}

is_single : IsSingle settled (codes "t1")
is_single d e hd he td te = ap (λ (x : PltEvent). x.event_index) (one_event d e hd he)

no_double_spend_example :
    (paid_row.merchant_id ≡ paid_row.merchant_id) × (paid_row.nonce ≡ paid_row.nonce)
no_double_spend_example =
    no_double_spend services ready settled paid_row paid_row (codes "t1") reaches ready-IsLedger
      is_single is_paid is_paid

one_owner_example :
    (paid.claim.merchant_id ≡ paid.claim.merchant_id) × (paid.claim.nonce ≡ paid.claim.nonce)
one_owner_example =
    one_owner services ready settled (canonical_claim paid.claim) (canonical_claim paid.claim)
      reaches ready-IsLedger (inl refl) (inl refl) refl refl

claims_it : (claim_plt_event paid.claim [] []).0 ≡ claimed true
unfolding claim_plt_event
claims_it = refl

claim_plt_event-claimed_example :
    (c : Claim) × In c (claim_plt_event paid.claim [] []).1
    × SameEvent paid.claim c
    × SameOwner paid.claim c
claim_plt_event-claimed_example = claim_plt_event-claimed paid.claim [] [] (λ x h. h) claims_it

fulfill_payment-atomic_example :
    ((fulfill_payment services fulfill_body no_outage 4000 ready).1 ≡ ready)
    ⊎ IsSettled services fulfill_body no_outage 4000 ready
fulfill_payment-atomic_example = fulfill_payment-atomic services fulfill_body no_outage 4000 ready

-- The search after the commit fails: the answer is an error, though both writes stand.
fails_after_commit : code_of (fulfill_payment services fulfill_body at_reread 4000 ready).0 ≢ 200
unfolding fulfill_payment carry_out run_transaction after_claim write_receipt after_transaction
    notify claim_plt_event code_of
fails_after_commit = rw (fulfill_payment, decides_to_settle, the_row_alone) (λ h. omega arith)

fulfill_payment-error_causes_example :
    ((fulfill_payment services fulfill_body at_reread 4000 ready).1 ≡ ready)
    ⊎ (((at_reread ≡ at_acknowledgement) ⊎ (at_reread ≡ at_reread))
        × IsSettled services fulfill_body at_reread 4000 ready)
fulfill_payment-error_causes_example =
    fulfill_payment-error_causes services fulfill_body at_reread 4000 ready fails_after_commit

wrote : (fulfill_payment services fulfill_body at_reread 4000 ready).1 ≡ settled
unfolding fulfill_payment carry_out run_transaction after_claim write_receipt after_transaction
    notify claim_plt_event
wrote = rw (fulfill_payment, decides_to_settle, the_row_alone) refl

stands : IsSettled services fulfill_body at_reread 4000 ready
stands = elim (fulfill_payment-atomic services fulfill_body at_reread 4000 ready) [
  | inr done ↦ done
  | inl same ↦
      let e : canonical_claim paid.claim ∷ [] ≡ [] = ap (λ x. x.claims) (sym wrote ∙ same) in cc
]

signs : (p : Proof) → is_empty (services.sign_jws p) ≡ false
unfolding codes
signs p = refl

fulfill_payment-repeated_example :
    (webhook : WebhookResult) × (fulfill_payment services fulfill_body no_outage 5000
        (fulfill_payment services fulfill_body at_reread 4000 ready).1
      ≡ (
        exact_match (with_receipt stands.settlement.receipt 4000 stands.settlement.row) webhook,
        (fulfill_payment services fulfill_body at_reread 4000 ready).1,
      ))
fulfill_payment-repeated_example =
    fulfill_payment-repeated services fulfill_body at_reread 4000 5000 ready signs stands

asks_for_no_event : require_event_of services.runtime ungated_body ≡ false
unfolding require_event_of as_booleanish to_string trim lower text_eq codes
asks_for_no_event = refl

fulfill_payment-ungated_example :
    (fulfill_payment services ungated_body no_outage 4000 ready).1 ≡ ready
fulfill_payment-ungated_example =
    fulfill_payment-ungated services ungated_body no_outage 4000 ready asks_for_no_event
