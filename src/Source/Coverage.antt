-- ===== src/Source/Coverage.antt =====
-- What one scan of the wallet proxy's answer finds.
use mathlib.Core.Path.{subst}
use xcf_concordium_facilitat.Base.{
  ℕ, ◌≤◌, ◌<◌, ◌≡◌, ◌⊎◌, ◌↔◌, refl, sym, ap, ◌∙◌, true, Option, none, some, List, [], ◌∷◌, arith,
  inl, inr, Bool-cases, Option-cases, ltb, ltb→lt, ltb_false→le, In, In-keep, In-keep', keep, Value,
  Runtime, ℤ,
}
use xcf_concordium_facilitat.Store.{PltEvent}
use xcf_concordium_facilitat.Source.{
  ConcordiumNodeConfig, Clock, tx_id, greater, best_of, is_new, is_token_transfer, event_of, id_or,
  events_of, scan,
}

greater_left : (best : ℕ) (id : Option ℕ) → best ≤ greater best id
greater_left best none = omega arith
greater_left best (some id) = ground arith

greater_right : (best id : ℕ) → id ≤ greater best (some id)
greater_right best id = ground arith

pub best_of-start : (best : ℕ) (txs : List Value) → best ≤ best_of best txs
unfolding best_of
best_of-start best [] = omega arith
best_of-start best (tx ∷ txs) =
    let a = greater_left best (tx_id tx) in
    let b = best_of-start (greater best (tx_id tx)) txs in omega arith

-- No id of the answer is greater than the best.
pub best_of-bound :
    (best : ℕ) (txs : List Value) (tx : Value) (id : ℕ)
    → In tx txs
    → tx_id tx ≡ some id
    → id ≤ best_of best txs
unfolding best_of
best_of-bound best [] tx id there h = absurd there
best_of-bound best (t ∷ txs) tx id (inl e) h =
    let at : tx_id t ≡ some id = ap tx_id (sym e) ∙ h in
    let a = greater_right best id in
    let b = best_of-start (greater best (some id)) txs in rw (at, best_of) (omega arith)
best_of-bound best (t ∷ txs) tx id (inr there) h =
    best_of-bound (greater best (tx_id t)) txs tx id there h

greater_raised : (best : ℕ) (id : Option ℕ) → best < greater best id → id ≡ some (greater best id)
greater_raised best none h = absurd (omega arith)
greater_raised best (some id) h = elim (Bool-cases (ltb best id)) [
  | inl more ↦ rw more refl
  | inr less ↦ absurd (let h' = rw less at h in omega arith)
]

-- The best is where the loop began, or the id of a transaction of the answer.
pub best_of-attained :
    (best : ℕ) (txs : List Value)
    → best < best_of best txs
    → (tx : Value) × In tx txs × (tx_id tx ≡ some (best_of best txs))
unfolding best_of
best_of-attained best [] h = absurd (omega arith)
best_of-attained best (t ∷ txs) h =
    elim (Bool-cases (ltb (greater best (tx_id t)) (best_of (greater best (tx_id t)) txs))) [
      | inl later ↦
          let (tx, there, at) = best_of-attained (greater best (tx_id t)) txs (ltb→lt _ _ later) in
          (tx, inr there, at)
      | inr first ↦
          let low =
            ltb_false→le (greater best (tx_id t)) (best_of (greater best (tx_id t)) txs) first in
          let high = best_of-start (greater best (tx_id t)) txs in
          let same : best_of (greater best (tx_id t)) txs ≡ greater best (tx_id t) = omega arith in
          let raised : best < greater best (tx_id t) = omega arith in
          (t, inl refl, greater_raised best (tx_id t) raised ∙ ap some (sym same))
    ]

module _ (rt : Runtime) (clock : Clock) (node : ConcordiumNodeConfig) (best : ℕ) where
  events_of-In :
      (txs : List Value) (tx : Value) (id : ℕ)
      → In tx txs
      → tx_id tx ≡ some id
      → is_token_transfer rt node.asset_id tx ≡ true
      → In (event_of rt clock node tx id) (events_of rt clock node best txs)
  unfolding events_of
  events_of-In [] tx id there at transfer = absurd there
  events_of-In (x ∷ xs) tx id (inl e) at transfer =
      let yes_x : is_token_transfer rt node.asset_id x ≡ true =
        ap (is_token_transfer rt node.asset_id) (sym e) ∙ transfer in
      let at_x : tx_id x ≡ some id = ap tx_id (sym e) ∙ at in
      rw (yes_x, at_x, events_of) (inl (ap (λ v. event_of rt clock node v id) e))
  events_of-In (x ∷ xs) tx id (inr later) at transfer =
      elim (Bool-cases (is_token_transfer rt node.asset_id x)) [
        | inl yes_x ↦ rw (yes_x, events_of) (inr (events_of-In xs tx id later at transfer))
        | inr no_x ↦ rw (no_x, events_of) (events_of-In xs tx id later at transfer)
      ]

  In-events_of :
      (txs : List Value) (e : PltEvent)
      → In e (events_of rt clock node best txs)
      → (tx : Value) × In tx txs
        × (is_token_transfer rt node.asset_id tx ≡ true)
        × (e ≡ event_of rt clock node tx (id_or best (tx_id tx)))
  unfolding events_of
  In-events_of [] e h = absurd h
  In-events_of (x ∷ xs) e h = elim (Bool-cases (is_token_transfer rt node.asset_id x)) [
    | inr no_x ↦
        let (tx, there, transfer, same) = In-events_of xs e (rw (no_x, events_of) at h) in
        (tx, inr there, transfer, same)
    | inl yes_x ↦ first yes_x (In-events_of xs e) (rw (yes_x, events_of) at h)
  ]
    where
      Origin : List Value → Type 0
      Origin vs =
          (tx : Value) × In tx vs
          × (is_token_transfer rt node.asset_id tx ≡ true)
          × (e ≡ event_of rt clock node tx (id_or best (tx_id tx)))

      first :
          is_token_transfer rt node.asset_id x ≡ true
          → (In e (events_of rt clock node best xs) → Origin xs)
          → (e ≡ event_of rt clock node x (id_or best (tx_id x)))
            ⊎ In e (events_of rt clock node best xs)
          → Origin (x ∷ xs)
      first yes_x rest (inl same) = (x, inl refl, yes_x, same)
      first yes_x rest (inr later) =
          let (tx, there, transfer, same) = rest later in (tx, inr there, transfer, same)

  -- Every new transfer of the token becomes an event.
  pub events_of-complete :
      (last : ℕ) (txs : List Value) (tx : Value) (id : ℕ)
      → In tx txs
      → tx_id tx ≡ some id
      → last < id
      → is_token_transfer rt node.asset_id tx ≡ true
      → In (event_of rt clock node tx id) (events_of rt clock node best (keep (is_new last) txs))
  unfolding is_new
  events_of-complete last txs tx id there at new transfer =
      let fresh : is_new last tx ≡ true = rw (at, is_new) (ground arith) in
      events_of-In (keep (is_new last) txs) tx id (In-keep' (is_new last) txs tx fresh there) at
        transfer

new_id :
    (last : ℕ) (tx : Value) → is_new last tx ≡ true → (id : ℕ) × (tx_id tx ≡ some id) × (last < id)
unfolding is_new
new_id last tx h = elim (Option-cases (tx_id tx)) [
  | inl missing ↦ cc (rw (missing, is_new) at h)
  | inr (id, at) ↦ (id, at, ltb→lt last id (rw (at, is_new) at h))
]

-- A scan of the proxy's answer yields exactly the events of the token's transfers after the cursor:
-- an event is among them if and only if it is the event of an answered transaction whose id is
-- greater than the cursor and which transfers the token.
pub scan-events :
    (rt : Runtime) (clock : Clock) (node : ConcordiumNodeConfig) (overlap : ℤ) (last : ℕ)
    (txs : List Value) (e : PltEvent)
    → In e (scan rt clock node overlap last txs).events ↔ (
        (tx : Value) × (id : ℕ) × In tx txs
        × (tx_id tx ≡ some id)
        × (last < id)
        × (is_token_transfer rt node.asset_id tx ≡ true)
        × (e ≡ event_of rt clock node tx id))
unfolding scan
scan-events rt clock node overlap last txs e = (
  λ h.
      let (tx, kept, transfer, same) =
        In-events_of rt clock node (best_of last txs) (keep (is_new last) txs) e h in
      let (fresh, there) = In-keep (is_new last) txs tx kept in
      let (id, at, above) = new_id last tx fresh in
      (
        tx,
        id,
        there,
        at,
        above,
        transfer,
        same ∙ ap (λ o. event_of rt clock node tx (id_or (best_of last txs) o)) at,
      ),
  λ (tx, id, there, at, above, transfer, same).
      subst (λ x. In x (events_of rt clock node (best_of last txs) (keep (is_new last) txs)))
        (sym same)
        (events_of-complete rt clock node (best_of last txs) last txs tx id there at above
          transfer),
)
