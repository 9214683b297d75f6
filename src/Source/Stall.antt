-- ===== src/Source/Stall.antt =====
-- The worker on the wallet proxy: where an overlap holds it.
use xcf_concordium_facilitat.Base.{
  ℕ, suc, zero, ◌-◌, ◌≤◌, ◌≡◌, refl, ap, ap₂, ◌∙◌, Bool, true, false, not, ◌&&◌, some, List, [],
  ◌∷◌, arith, map, length, take, keep, inl, inr, Bool-cases, Option-cases, ltb, ltb→lt,
  ltb_false→le, In, Text, Value, Runtime, ℤ,
}
use xcf_concordium_facilitat.Worker.{
  WorkerConfig, PltSourceResult, WorkerState, Storage, save_cursor, ticked, advance, store_events,
  run_tick, run_worker,
}
use xcf_concordium_facilitat.Source.{
  ConcordiumNodeConfig, Tick, tx_id, is_new, best_of, events_of, scan, source_of, params_since,
  not_negative,
}
use xcf_concordium_facilitat.Source.Coverage.{best_of-attained, best_of-start}
use xcf_concordium_facilitat.Source.Windows.{IsAscending, one_more, is_new→lt, IsWindow}
use xcf_concordium_facilitat.Source.Fetching.{source_of-answered, run_tick-stored}

-- Transactions after `from` and not after `last`
abbrev pub between : ℕ → ℕ → Value → Bool
between from last tx = is_new from tx && not (is_new last tx)

is_new-below :
    (low high : ℕ) (tx : Value) → low ≤ high → is_new high tx ≡ true → is_new low tx ≡ true
unfolding is_new
is_new-below low high tx le h = elim (Option-cases (tx_id tx)) [
  | inl missing ↦ cc (rw (missing, is_new) at h)
  | inr (id, at) ↦
      let above = ltb→lt high id (rw (at, is_new) at h) in rw (at, is_new) (ground arith)
]

nothing_between :
    (from last : ℕ) (txs : List Value)
    → ((y : Value) → In y txs → is_new last y ≡ true)
    → length (keep (between from last) txs) ≡ 0
nothing_between from last [] all = refl
nothing_between from last (x ∷ xs) all =
    let e = all x (inl refl) in
    let rest = nothing_between from last xs (λ y there. all y (inr there)) in
    elim (Bool-cases (is_new from x)) [ inl a ↦ rw (e, a) rest | inr b ↦ rw (e, b) rest ]

-- If enough transactions stand before the cursor, the answer holds no new one.
window_old :
    (from last n : ℕ) (txs : List Value)
    → IsAscending txs
    → n ≤ length (keep (between from last) txs)
    → (t : Value) → In t (take n (keep (is_new from) txs))
    → is_new last t ≡ false
window_old from last zero txs up many t there = absurd there
window_old from last (suc n) [] up many t there = absurd (omega arith)
window_old from last (suc n) (x ∷ xs) (one_more id at later up) many t there =
    elim (Bool-cases (is_new from x)) [
      | inr old ↦ window_old from last (suc n) xs up (rw old at many) t (rw old at there)
      | inl young ↦ elim (Bool-cases (is_new last x)) [
        | inr kept ↦ elim (rw young at there) [
          | inl same ↦ ap (is_new last) same ∙ kept
          | inr after ↦
              window_old from last n xs up (let m = rw (young, kept) at many in omega arith) t after
        ]
        | inl fresh ↦
            let none_between : length (keep (between from last) xs) ≡ 0 =
              nothing_between from last xs (λ y inside.
                is_new-below last id y (let f = is_new→lt last id x at fresh in omega arith)
                  (later y inside)) in
            let m = rw (young, fresh) at many in absurd (omega arith)
      ]
    ]

keep-none :
    {A : Type 0} (p : A → Bool) (xs : List A) → ((x : A) → In x xs → p x ≡ false) → keep p xs ≡ []
keep-none p [] h = refl
keep-none p (x ∷ xs) h = rw (h x (inl refl)) (keep-none p xs (λ y there. h y (inr there)))

best_of-old :
    (last : ℕ) (txs : List Value)
    → ((t : Value) → In t txs → is_new last t ≡ false)
    → best_of last txs ≡ last
unfolding is_new
best_of-old last txs old = elim (Bool-cases (ltb last (best_of last txs))) [
  | inr same ↦
      let low = ltb_false→le last (best_of last txs) same in
      let high = best_of-start last txs in omega arith
  | inl more ↦
      let (tx, there, at) = best_of-attained last txs (ltb→lt last (best_of last txs) more) in
      cc (rw (at, is_new, more) at (old tx there))
]

module _ (rt : Runtime) (node : ConcordiumNodeConfig) (overlap : ℤ) (history : List Value)
    (st : Storage) (cfg : WorkerConfig) (key : Text) where
  stalled_tick :
      (tick : ℕ) (t : Tick) (s : WorkerState)
      → IsAscending history
      → IsWindow node.account_address history t.proxy
      → 100
        ≤ length (
            keep
              (between (s.last_height_exclusive - not_negative overlap) s.last_height_exclusive)
              history)
      → run_tick st cfg key tick (source_of rt node overlap t) s ≡ ticked s
  unfolding params_since scan events_of store_events advance save_cursor
  stalled_tick tick t s up w many =
      let last = s.last_height_exclusive in
      let params = params_since overlap last in
      let txs = take params.limit (keep (is_new params.from) history) in
      let old : (x : Value) → In x txs → is_new last x ≡ false =
        window_old params.from last params.limit history up many in
      let best : best_of last txs ≡ last = best_of-old last txs old in
      let no_events : (scan rt t.clock node overlap last txs).events ≡ [] =
        rw (keep-none (is_new last) txs old) refl in
      let result : PltSourceResult = record { events = []; best_height = some last } in
      let fetched : source_of rt node overlap t last ≡ some result =
        source_of-answered rt node overlap t last (w.response params) txs (w.answers params)
          (w.lists params)
        ∙ ap₂ (λ es b. some (record { events = es; best_height = some b })) no_events best in
      let still : ltb last last ≡ false = ground arith in
      run_tick-stored st cfg key tick (source_of rt node overlap t) s result s.db fetched refl
      ∙ rw (save_cursor, advance, still) refl

  -- An overlap can hold the worker for ever: if at least 100 of the account's transactions, whose
  -- ids ascend, stand in the overlap before the cursor, and the proxy gives the first transactions
  -- after the id asked for, then no number of ticks changes the worker's state, whatever comes
  -- after the cursor.
  pub run_worker-stalls :
      (ticks : List Tick) (tick : ℕ) (s : WorkerState)
      → IsAscending history
      → ((t : Tick) → In t ticks → IsWindow node.account_address history t.proxy)
      → 100
        ≤ length (
            keep
              (between (s.last_height_exclusive - not_negative overlap) s.last_height_exclusive)
              history)
      → run_worker st cfg key tick (map (source_of rt node overlap) ticks) s ≡ s
  unfolding run_worker
  run_worker-stalls [] tick s up w many = refl
  run_worker-stalls (t ∷ ts) tick s up w many =
      elim (Bool-cases (ltb 0 cfg.max_ticks && ltb cfg.max_ticks (suc tick))) [
        | inl over ↦ rw (run_worker, over) refl
        | inr more ↦
            rw (run_worker, more, stalled_tick tick t s up (w t (inl refl)) many)
              (run_worker-stalls ts (suc tick) s up (λ x later. w x (inr later)) many)
      ]
