-- ===== src/Payments/Settle/Repeats.antt =====
-- The request of a settlement that stands already, made once more.
use xcf_concordium_facilitat.Payments.Settle.Rereads.{marked, find_exact_match-set_fulfilled}
use mathlib.Core.Path.{subst}
use xcf_concordium_facilitat.Base.{
  ℕ, ◌≡◌, refl, sym, ap, ◌∙◌, Bool, true, false, not, ◌&&◌, Option, none, some, List, inl, inr,
  Bool-cases, Option-cases, is_empty, Text, text_eq_iff, text_eq, ℤ, Value,
}
use xcf_concordium_facilitat.Decimals.{to_minor_units}
use xcf_concordium_facilitat.Store.{Proof, Challenge, PltAsset, Claim, Db}
use xcf_concordium_facilitat.Payments.{
  PaymentTuple, read_tuple, is_incomplete, plt, AssetNorm, resolved, asset_disabled,
  decimals_mismatch, requested_genesis_index, normalize_asset_with_registry, find_exact_match,
}
use xcf_concordium_facilitat.NetworkId.{network_candidates}
use xcf_concordium_facilitat.Payments.Services.{Services, default_genesis}
use xcf_concordium_facilitat.Payments.Fulfill.Decisions.{
  IsSettlement, Result-cases, settle-injective, decide-settle,
}
use xcf_concordium_facilitat.Payments.Settle.Outcomes.{IsSettled}
use xcf_concordium_facilitat.Webhook.{WebhookResult, post_payment_webhook}
use xcf_concordium_facilitat.Payments.Fulfill.Proofs.{build_proof}
use xcf_concordium_facilitat.Payments.Claiming.{claim_plt_event}
use xcf_concordium_facilitat.Payments.Matching.{find_exact_match-IsMatch}
use xcf_concordium_facilitat.Payments.Fulfill.{
  Settlement, settle, again, settlement_of, decide_event, already_settled, decide_row, decide_match,
  decide_asset, decide, find_plt_event_by_tx, require_event_of, tx_hash_of, is_missing, exact_match,
}
use xcf_concordium_facilitat.Payments.Settle.{
  Outage, no_outage, with_receipt, settled_db, carry_out, fulfill_payment,
}

module _ (sv : Services) (t : PaymentTuple) (ngi : ℤ) where
  decide_event-tuple :
      (row : Challenge) (h : Text) (db : Db) (s : Settlement)
      → decide_event sv t ngi row h db ≡ settle s
      → s.tuple ≡ t
  unfolding decide_event settlement_of
  decide_event-tuple row h db s e = elim (Result-cases (to_minor_units t.amount t.asset.decimals)) [
    | inl (x, bad) ↦ cc (rw (bad, decide_event) at e)
    | inr (minor, good) ↦
        elim (Option-cases (
          find_plt_event_by_tx (network_candidates t.network) ngi t.asset.token_id t.pay_to minor h
            db.events)) [
              | inl missing ↦ cc (rw (good, missing, decide_event) at e)
              | inr (ev, found) ↦
                  ap (λ x. x.tuple) (sym (settle-injective (rw (good, found, decide_event) at e)))
            ]
  ]

  decide_row-tuple :
      (re : Bool) (h : Option Text) (row : Challenge) (db : Db) (s : Settlement)
      → decide_row sv re h t ngi row db ≡ settle s
      → s.tuple ≡ t
  unfolding decide_row
  decide_row-tuple re h row db s e = elim (Bool-cases (already_settled row)) [
    | inl done ↦ cc (rw (done, decide_row) at e)
    | inr open_row ↦ elim (Bool-cases (not (re && text_eq t.asset.asset_type plt))) [
      | inl free ↦ cc (rw (open_row, free, decide_row) at e)
      | inr gated ↦ elim (Option-cases h) [
        | inl missing ↦ cc (rw (open_row, gated, missing, decide_row) at e)
        | inr (hash, given) ↦
            decide_event-tuple row hash db s (rw (open_row, gated, given, decide_row) at e)
      ]
    ]
  ]

  decide_match-tuple :
      (re : Bool) (h : Option Text) (found : Option Challenge) (db : Db) (s : Settlement)
      → decide_match sv re h t ngi found db ≡ settle s
      → s.tuple ≡ t
  unfolding decide_match
  decide_match-tuple re h none db s e = cc
  decide_match-tuple re h (some row) db s e = decide_row-tuple re h row db s e

  decide_match-again :
      (re : Bool) (h : Option Text) (row : Challenge) (db : Db)
      → already_settled row ≡ true
      → decide_match sv re h t ngi (some row) db ≡ again t row
  unfolding decide_match decide_row
  decide_match-again re h row db done = rw (decide_row, done) refl

decide_asset-again :
    (sv : Services) (re : Bool) (h : Option Text) (t : PaymentTuple) (n : AssetNorm) (db db' : Db)
    (s : Settlement) (row : Challenge)
    → decide_asset sv re h t n db ≡ settle s
    → find_exact_match s.tuple db'.challenges ≡ some row
    → already_settled row ≡ true
    → decide_asset sv re h t n db' ≡ again s.tuple row
unfolding decide_asset
decide_asset-again sv re h t (resolved asset ngi from_db) db db' s row e found done =
    let t' = record t { asset = asset } in
    let same : s.tuple ≡ t' = decide_match-tuple sv t' ngi re h _ db s e in
    let found' : find_exact_match t' db'.challenges ≡ some row =
      subst (λ x. find_exact_match x db'.challenges ≡ some row) same found in
    ap (λ o. decide_match sv re h t' ngi o db') found'
    ∙ decide_match-again sv t' ngi re h row db' done
    ∙ ap (λ x. again x row) (sym same)
decide_asset-again sv re h t asset_disabled db db' s row e found done = cc
decide_asset-again sv re h t (decimals_mismatch p r) db db' s row e found done = cc

decide-again :
    (sv : Services) (body : Value) (db db' : Db) (s : Settlement) (row : Challenge)
    → decide sv body db ≡ settle s
    → db'.assets ≡ db.assets
    → find_exact_match s.tuple db'.challenges ≡ some row
    → already_settled row ≡ true
    → decide sv body db' ≡ again s.tuple row
unfolding decide
decide-again sv body db db' s row e same found done =
    let t = read_tuple sv.runtime body in
    let required = require_event_of sv.runtime body in
    let h = tx_hash_of sv.runtime body in
    let norm : List PltAsset → AssetNorm = λ assets.
      normalize_asset_with_registry (default_genesis sv) t.network t.asset
        (requested_genesis_index sv.runtime body) assets in
    elim (Bool-cases (is_incomplete t)) [
      | inl bad ↦ cc (rw bad at e)
      | inr complete ↦
          elim (Bool-cases (required && text_eq t.asset.asset_type plt && is_missing h)) [
            | inl bad ↦ cc (rw (complete, bad) at e)
            | inr fine ↦
                rw (complete, fine)
                  (ap (λ assets. decide_asset sv required h t (norm assets) db') same
                    ∙ decide_asset-again sv required h t (norm db.assets) db db' s row
                        (rw (complete, fine) at e) found done)
          ]
    ]

settled_receipt :
    (sv : Services) (db : Db) (s : Settlement)
    → ((p : Proof) → is_empty (sv.sign_jws p) ≡ false)
    → IsSettlement sv db s
    → is_empty s.receipt.jws ≡ false
unfolding settlement_of
settled_receipt sv db s signs i =
    ap (λ x. is_empty x.receipt.jws) i.parts
    ∙ signs (build_proof sv.runtime s.tuple s.row s.event i.amount_minor)

marked-row :
    (sv : Services) (db : Db) (s : Settlement) (now : ℕ)
    → IsSettlement sv db s
    → marked s.tuple.merchant_id s.tuple.nonce s.receipt now s.row
      ≡ with_receipt s.receipt now s.row
marked-row sv db s now i =
    let (there, same) = find_exact_match-IsMatch s.tuple db.challenges s.row i.named i.matched in
    let merchant = (text_eq_iff s.row.merchant_id s.tuple.merchant_id).1 same.merchant_id in
    let nonce = (text_eq_iff s.row.nonce s.tuple.nonce).1 same.nonce in rw (merchant, nonce) refl

decide-settled :
    (sv : Services) (body : Value) (db : Db) (s : Settlement) (now : ℕ) (claims : List Claim)
    → ((p : Proof) → is_empty (sv.sign_jws p) ≡ false)
    → decide sv body db ≡ settle s
    → decide sv body (settled_db s now claims db) ≡ again s.tuple (with_receipt s.receipt now s.row)
unfolding already_settled
decide-settled sv body db s now claims signs e =
    let i = decide-settle sv body db s e in
    let has = settled_receipt sv db s signs i in
    decide-again sv body db (settled_db s now claims db) s (with_receipt s.receipt now s.row) e refl
      (find_exact_match-set_fulfilled s.tuple s.tuple.merchant_id s.tuple.nonce s.receipt now
          db.challenges s.row i.matched
        ∙ ap some (marked-row sv db s now i))
      (rw has refl)

-- The request is safe to repeat: if a request has settled a payment, with whatever answer, and
-- signatures are not empty, then the same request, made on the database that it left, with no query
-- failing, answers `exact_match` with the challenge and the receipt that were written, and leaves
-- the database as it is.
pub fulfill_payment-repeated :
    (sv : Services) (body : Value) (when : Outage) (now later : ℕ) (db : Db)
    → ((p : Proof) → is_empty (sv.sign_jws p) ≡ false)
    → (done : IsSettled sv body when now db)
    → (webhook : WebhookResult) × (fulfill_payment sv body no_outage later
          (fulfill_payment sv body when now db).1
        ≡ (
          exact_match (with_receipt done.settlement.receipt now done.settlement.row) webhook,
          (fulfill_payment sv body when now db).1,
        ))
unfolding fulfill_payment carry_out
fulfill_payment-repeated sv body when now later db signs done =
    let s = done.settlement in
    let row = with_receipt s.receipt now s.row in
    let claims = (claim_plt_event s.claim db.claims db.claims).1 in
    let webhook = post_payment_webhook sv.runtime sv.env sv.send s.tuple.merchant_id row in
    let again_there : fulfill_payment sv body no_outage later (settled_db s now claims db)
        ≡ (exact_match row webhook, settled_db s now claims db) =
      ap (λ d. carry_out sv d no_outage later (settled_db s now claims db))
        (decide-settled sv body db s now claims signs done.decided) in
    (
      webhook,
      subst (λ (x : Db). fulfill_payment sv body no_outage later x ≡ (exact_match row webhook, x))
          (sym done.written) again_there,
    )
