-- ===== src/Payments/Ledger/Tables.antt =====
-- The tables of the ledger after a claim, a creation and an observed event.
use mathlib.Core.Path.{subst}
use xcf_concordium_facilitat.Base.{
  ℕ, ◌≡◌, ◌⊎◌, sym, ap, ◌∙◌, true, false, some, none, List, [], ◌∷◌, ◌++◌, inl, inr, In, Within,
  In-append_left, In-append_cases, any_none, Value,
}
use xcf_concordium_facilitat.Store.{Challenge, PltEvent, Claim, Db}
use xcf_concordium_facilitat.Payments.Services.{Services}
use xcf_concordium_facilitat.Payments.Claiming.{
  same_key, is_taken, canonical_claim, claim_plt_event,
}
use xcf_concordium_facilitat.Payments.Claims.{same_key_sym, claim_plt_event-table}
use xcf_concordium_facilitat.Payments.Create.{create_payment, upsert_pending}
use xcf_concordium_facilitat.Payments.Ledger.{SamePlace, IsFresh, IsLedger}
use xcf_concordium_facilitat.Payments.Ledger.Writes.{upsert_pending-In, create_payment-cases}

-- The claims of a table that a claiming statement leaves
module _ (w : Claim) (snapshot claims : List Claim) where
  pub claims_kept : Within claims (claim_plt_event w snapshot claims).1
  claims_kept c h = elim (claim_plt_event-table w snapshot claims) [
    | inl same ↦ rw same h
    | inr (added, free) ↦ rw added (In-append_left c claims (canonical_claim w ∷ []) h)
  ]

  pub claims_new :
      (c : Claim)
      → In c (claim_plt_event w snapshot claims).1
      → In c claims ⊎ (c ≡ canonical_claim w)
  claims_new c h = elim (claim_plt_event-table w snapshot claims) [
    | inl same ↦ inl (rw same at h)
    | inr (added, free) ↦ In-append_cases c (canonical_claim w) claims (rw added at h)
  ]

  append_unique :
      is_taken (canonical_claim w) claims ≡ false
      → ((c d : Claim) → In c claims → In d claims → same_key c d ≡ true → c ≡ d)
      → (c d : Claim) → In c (claims ++ canonical_claim w ∷ [])
      → In d (claims ++ canonical_claim w ∷ [])
      → same_key c d ≡ true
      → c ≡ d
  unfolding is_taken
  append_unique free unique c d hc hd same =
      elim (In-append_cases c (canonical_claim w) claims hc) [
        | inl oc ↦ elim (In-append_cases d (canonical_claim w) claims hd) [
          | inl od ↦ unique c d oc od same
          | inr nd ↦
              let clash = any_none (same_key (canonical_claim w)) claims free c oc in
              let k : same_key (canonical_claim w) c ≡ true =
                same_key_sym c (canonical_claim w) (rw nd at same) in
              cc
        ]
        | inr nc ↦ elim (In-append_cases d (canonical_claim w) claims hd) [
          | inl od ↦
              let clash = any_none (same_key (canonical_claim w)) claims free d od in
              let k : same_key (canonical_claim w) d ≡ true = rw nc at same in cc
          | inr nd ↦ nc ∙ sym nd
        ]
      ]

  pub claims_unique_after :
      ((c d : Claim) → In c claims → In d claims → same_key c d ≡ true → c ≡ d)
      → (c d : Claim) → In c (claim_plt_event w snapshot claims).1
      → In d (claim_plt_event w snapshot claims).1
      → same_key c d ≡ true
      → c ≡ d
  claims_unique_after unique c d hc hd same = elim (claim_plt_event-table w snapshot claims) [
    | inl kept ↦ unique c d (rw kept at hc) (rw kept at hd) same
    | inr (added, free) ↦ append_unique free unique c d (rw added at hc) (rw added at hd) same
  ]

upsert-IsLedger :
    (row : Challenge) (db : Db)
    → row.receipt ≡ none
    → IsLedger db
    → IsLedger (record db { challenges = upsert_pending row db.challenges })
upsert-IsLedger row db empty l = record {
  events_unique = l.events_unique;
  claims_unique = l.claims_unique;
  claims_backed = l.claims_backed;
  receipts_paid = λ c r p h has pays. elim (upsert_pending-In row db.challenges c h) [
    | inl old ↦ l.receipts_paid c r p old has pays
    | inr new ↦ let k : some r ≡ none = sym has ∙ new ∙ empty in cc
  ];
}

pub create-IsLedger :
    (sv : Services) (body : Value) (now : ℕ) (db : Db)
    → IsLedger db
    → IsLedger (create_payment sv body now db).1
create-IsLedger sv body now db l = elim (create_payment-cases sv body now db) [
  | inl same ↦ subst IsLedger (sym same) l
  | inr (row, empty, same) ↦ subst IsLedger (sym same) (upsert-IsLedger row db empty l)
]

pub observe-IsLedger :
    (e : PltEvent) (db : Db)
    → IsFresh e db.events
    → IsLedger db
    → IsLedger (record db { events = e ∷ db.events })
observe-IsLedger e db fresh l = record {
  events_unique = unique;
  claims_unique = l.claims_unique;
  claims_backed = λ c h. let (d, there, backs) = l.claims_backed c h in (d, inr there, backs);
  receipts_paid = l.receipts_paid;
}
  where
    unique : (d f : PltEvent) → In d (e ∷ db.events) → In f (e ∷ db.events) → SamePlace d f → d ≡ f
    unique d f (inl x) (inl y) p = x ∙ sym y
    unique d f (inl x) (inr y) p = absurd (
        fresh f y (record {
          transaction_hash = sym p.transaction_hash ∙ ap (λ (z : PltEvent). z.transaction_hash) x;
          event_index = sym p.event_index ∙ ap (λ (z : PltEvent). z.event_index) x;
        }))
    unique d f (inr x) (inl y) p = absurd (
        fresh d x (record {
          transaction_hash = p.transaction_hash ∙ ap (λ (z : PltEvent). z.transaction_hash) y;
          event_index = p.event_index ∙ ap (λ (z : PltEvent). z.event_index) y;
        }))
    unique d f (inr x) (inr y) p = l.events_unique d f x y p
