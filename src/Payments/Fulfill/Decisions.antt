-- ===== src/Payments/Fulfill/Decisions.antt =====
-- What holds of every settlement that the handler of /payments/fulfill decides on.
use mathlib.Core.Option.{some-injective}
use mathlib.Core.Path.{subst}
use xcf_concordium_facilitat.Base.{
  ◌≡◌, ◌⊎◌, refl, sym, ◌∙◌, Bool, true, false, ◌&&◌, Option, some, List, [], ◌∷◌, ltb, Bool-cases,
  Option-cases, inl, inr, Text, text_eq, ℤ, In, In-keep, Value,
}
use xcf_concordium_facilitat.NetworkId.{network_candidates}
use xcf_concordium_facilitat.Decimals.{Result, ok, err, AmountError, to_minor_units}
use xcf_concordium_facilitat.Store.{Challenge, PltEvent, Db}
use xcf_concordium_facilitat.Payments.{
  PaymentTuple, read_tuple, is_incomplete, plt, AssetNorm, resolved, asset_disabled,
  decimals_mismatch, find_exact_match,
}
use xcf_concordium_facilitat.Payments.Services.{Services}
use xcf_concordium_facilitat.Payments.Matching.{IsNamed, is_incomplete-IsNamed}
use xcf_concordium_facilitat.Payments.Fulfill.{
  settle, Settlement, require_event_of, tx_hash_of, is_event_of, first_event, find_plt_event_by_tx,
  settlement_of, decide_event, already_settled, decide_row, decide_match, decide_asset, is_missing,
  decide,
}

-- The parts of a settlement, and the reads that they come from.
pub record IsSettlement (sv : Services) (db : Db) (s : Settlement) : Type 0 where
  pub ngi : ℤ
  pub amount_minor : Text
  pub tx_hash : Text
  pub parts : s ≡ settlement_of sv s.tuple ngi s.row s.event amount_minor
  pub converted : to_minor_units s.tuple.amount s.tuple.asset.decimals ≡ ok amount_minor
  pub listed : In s.event db.events
  pub fits :
      is_event_of
        (network_candidates s.tuple.network)
        ngi
        s.tuple.asset.token_id
        s.tuple.pay_to
        amount_minor
        tx_hash
        s.event
      ≡ true
  pub matched : find_exact_match s.tuple db.challenges ≡ some s.row
  pub open_row : already_settled s.row ≡ false
  pub named : IsNamed s.tuple

pub Result-cases : (r : Result Text) → ((e : AmountError) × (r ≡ err e)) ⊎ ((t : Text) × (r ≡ ok t))
Result-cases (err e) = inl (e, refl)
Result-cases (ok t) = inr (t, refl)

first_event-In : (es : List PltEvent) (e : PltEvent) → first_event es ≡ some e → In e es
unfolding first_event
first_event-In [] e h = cc
first_event-In (d ∷ es) e h = elim (Option-cases (first_event es)) [
  | inl nothing ↦ inl (sym (some-injective d e (rw nothing at h)))
  | inr (d', found) ↦ elim (Bool-cases (ltb d'.event_index d.event_index)) [
    | inl before ↦ inr (first_event-In es e (found ∙ rw (found, before) at h))
    | inr after ↦ inl (sym (some-injective d e (rw (found, after) at h)))
  ]
]

find_plt_event_by_tx_sound :
    (nets : List Text) (ngi : ℤ) (token_id pay_to amount_minor tx_hash : Text)
    (events : List PltEvent) (e : PltEvent)
    → find_plt_event_by_tx nets ngi token_id pay_to amount_minor tx_hash events ≡ some e
    → (is_event_of nets ngi token_id pay_to amount_minor tx_hash e ≡ true) × In e events
find_plt_event_by_tx_sound nets ngi token_id pay_to amount_minor tx_hash events e h =
    In-keep (is_event_of nets ngi token_id pay_to amount_minor tx_hash) events e
      (first_event-In _ e (unfold find_plt_event_by_tx in h))

pub settle-injective : {s t : Settlement} → settle s ≡ settle t → s ≡ t
settle-injective h = cc

module _ (sv : Services) (t : PaymentTuple) (ngi : ℤ) (row : Challenge) (db : Db) where
  decide_event-settle :
      (h : Text) (s : Settlement)
      → decide_event sv t ngi row h db ≡ settle s
      → find_exact_match t db.challenges ≡ some row
      → already_settled row ≡ false
      → IsNamed t
      → IsSettlement sv db s
  unfolding decide_event
  decide_event-settle h s e matched open_row named =
      elim (Result-cases (to_minor_units t.amount t.asset.decimals)) [
        | inl (x, bad) ↦ cc (rw (bad, decide_event) at e)
        | inr (minor, good) ↦
            elim (Option-cases (
              find_plt_event_by_tx (network_candidates t.network) ngi t.asset.token_id t.pay_to
                minor h db.events)) [
                  | inl missing ↦ cc (rw (good, missing, decide_event) at e)
                  | inr (ev, found) ↦
                      let (fits, listed) =
                        find_plt_event_by_tx_sound (network_candidates t.network) ngi
                          t.asset.token_id t.pay_to minor h db.events ev found in
                      subst (IsSettlement sv db)
                        (settle-injective (rw (good, found, decide_event) at e))
                        (record {
                          ngi = ngi;
                          amount_minor = minor;
                          tx_hash = h;
                          parts = refl;
                          converted = good;
                          listed = listed;
                          fits = fits;
                          matched = matched;
                          open_row = open_row;
                          named = named;
                        })
                ]
      ]

  decide_row-settle :
      (require_event : Bool) (tx_hash : Option Text) (s : Settlement)
      → decide_row sv require_event tx_hash t ngi row db ≡ settle s
      → find_exact_match t db.challenges ≡ some row
      → IsNamed t
      → IsSettlement sv db s
  unfolding decide_row
  decide_row-settle require_event tx_hash s e matched named =
      elim (Bool-cases (already_settled row)) [
        | inl done ↦ cc (rw (done, decide_row) at e)
        | inr open_row ↦ elim (Bool-cases (require_event && text_eq t.asset.asset_type plt)) [
          | inr off ↦ cc (rw (open_row, off, decide_row) at e)
          | inl gated ↦ elim (Option-cases tx_hash) [
            | inl missing ↦ cc (rw (open_row, gated, missing, decide_row) at e)
            | inr (h, given) ↦
                decide_event-settle h s (rw (open_row, gated, given, decide_row) at e) matched
                  open_row named
          ]
        ]
      ]

decide_asset-settle :
    (sv : Services) (require_event : Bool) (tx_hash : Option Text) (t : PaymentTuple)
    (n : AssetNorm) (db : Db) (s : Settlement)
    → decide_asset sv require_event tx_hash t n db ≡ settle s
    → IsNamed t
    → IsSettlement sv db s
unfolding decide_asset decide_match
decide_asset-settle sv require_event tx_hash t (resolved asset ngi from_db) db s e named =
    let t' : PaymentTuple = record t { asset = asset } in
    elim (Option-cases (find_exact_match t' db.challenges)) [
      | inl missing ↦ cc (rw (missing, decide_match) at e)
      | inr (row, found) ↦
          decide_row-settle sv t' ngi row db require_event tx_hash s (rw (found, decide_match) at e)
            found named
    ]
decide_asset-settle sv require_event tx_hash t asset_disabled db s e named = cc
decide_asset-settle sv require_event tx_hash t (decimals_mismatch p r) db s e named = cc

-- Every settlement comes from an open challenge and an event of the table that fits it.
pub decide-settle :
    (sv : Services) (body : Value) (db : Db) (s : Settlement)
    → decide sv body db ≡ settle s
    → IsSettlement sv db s
unfolding decide
decide-settle sv body db s e =
    let t = read_tuple sv.runtime body in
    let required = require_event_of sv.runtime body in
    let h = tx_hash_of sv.runtime body in
    elim (Bool-cases (is_incomplete t)) [
      | inl bad ↦ cc (rw bad at e)
      | inr complete ↦
          elim (Bool-cases (required && text_eq t.asset.asset_type plt && is_missing h)) [
            | inl bad ↦ cc (rw (complete, bad) at e)
            | inr fine ↦
                decide_asset-settle sv required h t _ db s (rw (complete, fine) at e)
                  (is_incomplete-IsNamed t complete)
          ]
    ]
