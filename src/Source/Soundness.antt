-- ===== src/Source/Soundness.antt =====
-- The worker on the wallet proxy: no event is made up.
use mathlib.Core.Path.{subst}
use mathlib.Core.Option.{some-injective}
use xcf_concordium_facilitat.Base.{
  ℕ, ◌≤◌, ◌<◌, ◌≡◌, ◌⊎◌, sym, true, Option, some, List, [], ◌∷◌, arith, map, inl, inr, Bool-cases,
  Option-cases, In, Within, Text, Value, Runtime, ℤ,
}
use xcf_concordium_facilitat.Store.{PltEvent, Db}
use xcf_concordium_facilitat.Store.Events.{insert_plt_transfers}
use xcf_concordium_facilitat.Store.Amounts.{IsRead, insert_plt_transfers-origin}
use xcf_concordium_facilitat.Worker.{
  WorkerConfig, PltSourceResult, WorkerState, Storage, store_events, run_tick, run_worker,
}
use xcf_concordium_facilitat.Worker.Progress.{state_of, run_worker-induction}
use xcf_concordium_facilitat.Worker.Insertion.{save_cursor-db}
use xcf_concordium_facilitat.Source.{
  ConcordiumNodeConfig, Clock, Proxy, TransactionsParams, Tick, tx_id, best_of, is_token_transfer,
  event_of, transactions_of, source_of,
}
use xcf_concordium_facilitat.Source.Coverage.{best_of-start, best_of-bound, scan-events}
use xcf_concordium_facilitat.Source.Fetching.{
  IsFetched, source_of-IsFetched, save_cursor-height, In-map,
}

-- The proxy answers with transactions of the account only.
pub record IsTruthful (account : Text) (history : List Value) (proxy : Proxy) : Type 0 where
  pub truthful :
      (params : TransactionsParams) (resp : Value) (txs : List Value)
      → proxy account params ≡ some resp
      → transactions_of resp ≡ some txs
      → Within txs history

store_events-origin :
    (st : Storage) (cfg : WorkerConfig) (tick : ℕ) (events : List PltEvent) (db db' : Db)
    → store_events st cfg tick events db ≡ some db'
    → (d : PltEvent) → In d db'.events
    → In d db.events ⊎ ((e : PltEvent) × In e events × IsRead st.numeric e d)
unfolding store_events
store_events-origin st cfg tick [] db db' h d there =
    inl (subst (λ (y : Db). In d y.events) (sym (some-injective db db' h)) there)
store_events-origin st cfg tick (e ∷ es) db db' h d there = elim (Bool-cases cfg.dry_run) [
  | inl dry ↦
      let same : db ≡ db' = some-injective db db' (rw (dry, store_events) at h) in
      inl (subst (λ (y : Db). In d y.events) (sym same) there)
  | inr wet ↦ elim (Bool-cases (st.insertion_fails tick)) [
    | inl fails ↦ cc (rw (wet, fails, store_events) at h)
    | inr answers ↦ elim (Option-cases (insert_plt_transfers st.numeric (e ∷ es) db)) [
      | inl refused ↦ cc (rw (wet, answers, refused, store_events) at h)
      | inr ((n, after), written) ↦
          let same : after ≡ db' =
            some-injective after db' (rw (wet, answers, written, store_events) at h) in
          insert_plt_transfers-origin st.numeric (e ∷ es) db after n written d
            (subst (λ (y : Db). In d y.events) (sym same) there)
    ]
  ]
]

-- The event, as of some time, of a transfer of the token whose id is between two heights, with its
-- amount as the database reads it
pub record IsOfTransfer (numeric : Text → Option Text) (rt : Runtime) (node : ConcordiumNodeConfig)
    (history : List Value) (low high : ℕ) (e : PltEvent) : Type 0 where
  pub clock : Clock
  pub tx : Value
  pub id : ℕ
  pub listed : In tx history
  pub has_id : tx_id tx ≡ some id
  pub transfer : is_token_transfer rt node.asset_id tx ≡ true
  pub above : low < id
  pub below : id ≤ high
  pub is_event : IsRead numeric (event_of rt clock node tx id) e

IsOfTransfer-widen :
    (numeric : Text → Option Text) (rt : Runtime) (node : ConcordiumNodeConfig)
    (history : List Value) (a b c d : ℕ) (e : PltEvent)
    → c ≤ a
    → b ≤ d
    → IsOfTransfer numeric rt node history a b e
    → IsOfTransfer numeric rt node history c d e
IsOfTransfer-widen numeric rt node history a b c d e low high t = record {
  clock = t.clock;
  tx = t.tx;
  id = t.id;
  listed = t.listed;
  has_id = t.has_id;
  transfer = t.transfer;
  above = let x = t.above in omega arith;
  below = let x = t.below in omega arith;
  is_event = t.is_event;
}

module _ (rt : Runtime) (node : ConcordiumNodeConfig) (overlap : ℤ) (history : List Value)
    (st : Storage) (cfg : WorkerConfig) (key : Text) where
  record IsGenuine (s s' : WorkerState) : Type 0 where
    pub height : s.last_height_exclusive ≤ s'.last_height_exclusive
    pub genuine :
        (e : PltEvent)
        → In e s'.db.events
        → In e s.db.events
          ⊎ IsOfTransfer st.numeric rt node history s.last_height_exclusive s'.last_height_exclusive
              e

  IsGenuine-refl : (s : WorkerState) → IsGenuine s s
  IsGenuine-refl s = record { height = omega arith; genuine = λ e there. inl there }

  IsGenuine-trans : (a b c : WorkerState) → IsGenuine a b → IsGenuine b c → IsGenuine a c
  IsGenuine-trans a b c f g =
      let x = f.height in
      let y = g.height in
      record {
        height = omega arith;
        genuine = λ e there. elim (g.genuine e there) [
          | inr new ↦ inr (
              IsOfTransfer-widen st.numeric rt node history b.last_height_exclusive
                c.last_height_exclusive a.last_height_exclusive c.last_height_exclusive e x
                (omega arith) new)
          | inl mid ↦ elim (f.genuine e mid) [
            | inl old ↦ inl old
            | inr new ↦ inr (
                IsOfTransfer-widen st.numeric rt node history a.last_height_exclusive
                  b.last_height_exclusive a.last_height_exclusive c.last_height_exclusive e
                  (omega arith) y new)
          ]
        ];
      }

  fetched_genuine :
      (t : Tick) (last : ℕ) (result : PltSourceResult)
      → IsTruthful node.account_address history t.proxy
      → (f : IsFetched rt node overlap t last result) → (e d : PltEvent) → In e result.events
      → IsRead st.numeric e d
      → IsOfTransfer st.numeric rt node history last (best_of last f.txs) d
  fetched_genuine t last result honest f e d there read =
      let (tx, id, listed, at, above, transfer, same) =
        (scan-events rt t.clock node overlap last f.txs e).0 (subst (In e) f.events there) in
      record {
        clock = t.clock;
        tx = tx;
        id = id;
        listed = honest.truthful _ f.resp f.txs f.answered f.listed tx listed;
        has_id = at;
        transfer = transfer;
        above = above;
        below = best_of-bound last f.txs tx id listed at;
        is_event = subst (λ x. IsRead st.numeric x d) same read;
      }

  run_tick-IsGenuine :
      (tick : ℕ) (t : Tick)
      → IsTruthful node.account_address history t.proxy
      → (s : WorkerState)
      → IsGenuine s (state_of (run_tick st cfg key tick (source_of rt node overlap t) s))
  unfolding run_tick
  run_tick-IsGenuine tick t honest s =
      elim (Option-cases (source_of rt node overlap t s.last_height_exclusive)) [
        | inl thrown ↦ rw (thrown, run_tick) (IsGenuine-refl s)
        | inr (result, fetched) ↦
            elim (Option-cases (store_events st cfg tick result.events s.db)) [
              | inl refused ↦ rw (fetched, refused, run_tick) (IsGenuine-refl s)
              | inr (db, written) ↦
                  let last = s.last_height_exclusive in
                  let f = source_of-IsFetched rt node overlap t last result fetched in
                  let start = best_of-start last f.txs in
                  let same =
                    save_cursor-db st cfg key tick result.best_height (record s { db = db }) in
                  let at_best =
                    save_cursor-height st cfg key tick (best_of last f.txs) result.best_height
                      (record s { db = db }) f.best_height start in
                  let origin = store_events-origin st cfg tick result.events s.db db written in
                  rw (fetched, written, run_tick)
                    (record {
                      height = omega arith;
                      genuine = λ e there.
                          elim (origin e (subst (λ (y : Db). In e y.events) same there)) [
                            | inl old ↦ inl old
                            | inr (given, new, read) ↦ inr (
                                IsOfTransfer-widen st.numeric rt node history last
                                  (best_of last f.txs) last _ e (omega arith) (omega arith)
                                  (fetched_genuine t last result honest f given e new read))
                          ];
                    })
            ]
      ]

-- No event is made up: if every tick's proxy answers with transactions of the account only, then each
-- event in the table after a run of the worker was there before, or is the event of a transfer of the
-- token in the account's history, with its amount as Postgres reads it, whose id is after the cursor
-- at the start and not after the cursor at the end.
pub run_worker_sound :
    (rt : Runtime) (node : ConcordiumNodeConfig) (overlap : ℤ) (history : List Value)
    (ticks : List Tick)
    → ((t : Tick) → In t ticks → IsTruthful node.account_address history t.proxy)
    → (st : Storage) (cfg : WorkerConfig) (key : Text) (tick : ℕ) (s : WorkerState) (e : PltEvent)
    → In e (run_worker st cfg key tick (map (source_of rt node overlap) ticks) s).db.events
    → In e s.db.events
      ⊎ IsOfTransfer st.numeric rt node history s.last_height_exclusive
          (run_worker st cfg key tick
            (map (source_of rt node overlap) ticks)
            s).last_height_exclusive
          e
run_worker_sound rt node overlap history ticks honest st cfg key tick s =
    let g =
      run_worker-induction (IsGenuine rt node overlap history st cfg key)
        (IsGenuine-refl rt node overlap history st cfg key)
        (IsGenuine-trans rt node overlap history st cfg key) st cfg key tick
        (map (source_of rt node overlap) ticks) s
        (λ n source a there.
          let (t, listed, same) = In-map (source_of rt node overlap) ticks source there in
          subst
            (λ x.
              IsGenuine rt node overlap history st cfg key a (state_of (run_tick st cfg key n x a)))
            (sym same)
            (run_tick-IsGenuine rt node overlap history st cfg key n t (honest t listed) a)) in
    g.genuine
