-- ===== src/Source/Windows.antt =====
-- A proxy that gives the first transactions after an id, up to the limit, has what the theorems on
-- the worker ask of a proxy.
use xcf_concordium_facilitat.Base.{
  ℕ, suc, zero, ◌≤◌, ◌<◌, ◌≡◌, refl, sym, ap, ◌∙◌, true, some, List, [], ◌∷◌, arith, take, keep,
  inl, inr, Bool-cases, Option-cases, ltb→lt, In, In-keep, In-keep', In-take, Text, Value,
}
use mathlib.Core.Path.{subst}
use mathlib.Core.Option.{some-injective}
use xcf_concordium_facilitat.Source.{Proxy, TransactionsParams, tx_id, is_new, transactions_of}
use xcf_concordium_facilitat.Source.Fetching.{IsGapless}
use xcf_concordium_facilitat.Source.Progress.{IsResponsive}
use xcf_concordium_facilitat.Source.Soundness.{IsTruthful}

-- The ids of an account's transactions ascend.
pub data IsAscending : List Value → Type 0 where
  none_left : IsAscending []
  one_more :
      {tx : Value} {txs : List Value} (id : ℕ)
      → tx_id tx ≡ some id
      → ((y : Value) → In y txs → is_new id y ≡ true)
      → IsAscending txs
      → IsAscending (tx ∷ txs)

pub is_new→lt : (last id : ℕ) (tx : Value) → tx_id tx ≡ some id → is_new last tx ≡ true → last < id
unfolding is_new
is_new→lt last id tx at h = ltb→lt last id (rw (at, is_new) at h)

-- The proxy gives the first transactions after the id asked for, up to the limit.
pub record IsWindow (account : Text) (history : List Value) (proxy : Proxy) : Type 0 where
  pub response : TransactionsParams → Value
  pub answers : (params : TransactionsParams) → proxy account params ≡ some (response params)
  pub lists :
      (params : TransactionsParams)
      → transactions_of (response params)
        ≡ some (take params.limit (keep (is_new params.from) history))

lt→is_new : (last id : ℕ) (tx : Value) → tx_id tx ≡ some id → last < id → is_new last tx ≡ true
unfolding is_new
lt→is_new last id tx at h = rw (at, is_new) (ground arith)

window_no_gap :
    (from n : ℕ) (txs : List Value) (tx last : Value) (id top : ℕ)
    → IsAscending txs
    → In tx txs
    → tx_id tx ≡ some id
    → from < id
    → In last (take n (keep (is_new from) txs))
    → tx_id last ≡ some top
    → id ≤ top
    → In tx (take n (keep (is_new from) txs))
window_no_gap from zero txs tx last id top up there at low inside end_at high = absurd inside
window_no_gap from (suc n) [] tx last id top up there at low inside end_at high = absurd there
window_no_gap from (suc n) (x ∷ xs) tx last id top (one_more i at_x later up) there at low inside
      end_at high =
    elim (Bool-cases (is_new from x)) [
      | inr old ↦ elim there [
        | inl e ↦ let young = ap (is_new from) (sym e) ∙ lt→is_new from id tx at low in cc
        | inr deeper ↦ rw old (
            window_no_gap from (suc n) xs tx last id top up deeper at low (rw old at inside) end_at
              high)
      ]
      | inl young ↦ elim there [
        | inl e ↦ rw young (inl e)
        | inr deeper ↦ elim (rw young at inside) [
          | inr on ↦
              rw young
                (inr (window_no_gap from n xs tx last id top up deeper at low on end_at high))
          | inl e ↦
              let same : top ≡ i = some-injective top i (sym end_at ∙ ap tx_id e ∙ at_x) in
              let after = is_new→lt i id tx at (later tx deeper) in absurd (omega arith)
        ]
      ]
    ]

pub IsWindow-IsGapless :
    (account : Text) (history : List Value) (proxy : Proxy)
    → IsAscending history
    → IsWindow account history proxy
    → IsGapless account history proxy
IsWindow-IsGapless account history proxy up w = record {
  no_gap = λ params resp txs answered listed tx id there at low last top inside end_at high.
      let same : resp ≡ w.response params =
        some-injective resp (w.response params) (sym answered ∙ w.answers params) in
      let window : txs ≡ take params.limit (keep (is_new params.from) history) =
        some-injective txs _ (sym listed ∙ ap transactions_of same ∙ w.lists params) in
      subst (In tx) (sym window) (
        window_no_gap params.from params.limit history tx last id top up there at low
          (subst (In last) window inside) end_at high);
}

first_taken :
    (n : ℕ) (tx : Value) (ys : List Value)
    → In tx ys
    → 0 < n
    → (t : Value) × In t (take n ys) × In t ys
first_taken zero tx ys there h = absurd (omega arith)
first_taken (suc n) tx [] there h = absurd there
first_taken (suc n) tx (y ∷ ys) there h = (y, inl refl, inl refl)

new_id : (last : ℕ) (tx : Value) → is_new last tx ≡ true → (id : ℕ) × (tx_id tx ≡ some id)
unfolding is_new
new_id last tx h = elim (Option-cases (tx_id tx)) [
  | inl missing ↦ cc (rw (missing, is_new) at h)
  | inr known ↦ known
]

pub IsWindow-IsResponsive :
    (account : Text) (history : List Value) (proxy : Proxy)
    → IsWindow account history proxy
    → IsResponsive account history proxy
IsWindow-IsResponsive account history proxy w = record {
  response = w.response;
  txs = λ params. take params.limit (keep (is_new params.from) history);
  answers = w.answers;
  lists = w.lists;
  next_tx = λ params tx id there at low some_left.
      let young = lt→is_new params.from id tx at low in
      let (t, taken, kept) =
        first_taken params.limit tx (keep (is_new params.from) history)
          (In-keep' (is_new params.from) history tx young there) some_left in
      let (fresh, listed) = In-keep (is_new params.from) history t kept in
      let (i, at_t) = new_id params.from t fresh in
      (t, i, taken, at_t, is_new→lt params.from i t at_t fresh);
}

pub IsWindow-IsTruthful :
    (account : Text) (history : List Value) (proxy : Proxy)
    → IsWindow account history proxy
    → IsTruthful account history proxy
IsWindow-IsTruthful account history proxy w = record {
  truthful = λ params resp txs answered listed tx there.
      let same : resp ≡ w.response params =
        some-injective resp (w.response params) (sym answered ∙ w.answers params) in
      let window : txs ≡ take params.limit (keep (is_new params.from) history) =
        some-injective txs _ (sym listed ∙ ap transactions_of same ∙ w.lists params) in
      (In-keep (is_new params.from) history tx (
        In-take params.limit (keep (is_new params.from) history) tx
          (subst (In tx) window there))).1;
}
