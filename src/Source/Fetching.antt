-- ===== src/Source/Fetching.antt =====
-- What one fetch from the wallet proxy, and one tick of the worker, do.
use mathlib.Core.Path.{subst}
use mathlib.Core.Option.{some-injective}
use xcf_concordium_facilitat.Base.{
  ℕ, ◌≤◌, ◌<◌, ◌≡◌, refl, sym, ap, ◌∙◌, false, Option, some, List, [], ◌∷◌, arith, map, inl, inr,
  Bool-cases, Option-cases, ltb, ltb_false→le, In, Within, Text, Value, Runtime, ℤ,
}
use xcf_concordium_facilitat.Store.{PltEvent, Db}
use xcf_concordium_facilitat.Store.Events.{insert_plt_transfers}
use xcf_concordium_facilitat.Worker.{
  WorkerConfig, PltSource, PltSourceResult, WorkerState, Storage, advance, save_cursor,
  store_events, run_tick,
}
use xcf_concordium_facilitat.Store.Insertions.{IsPlaced}
use xcf_concordium_facilitat.Store.Amounts.{insert_plt_transfers-IsPlaced}
use xcf_concordium_facilitat.Worker.Progress.{state_of, save_cursor-advance}
use xcf_concordium_facilitat.Source.{
  ConcordiumNodeConfig, Clock, Proxy, TransactionsParams, Tick, tx_id, best_of, event_of,
  transactions_of, scan, fetch_since, source_of, params_since,
}

-- What the documentation of the proxy says of `order=ascending`: an answer leaves out no
-- transaction of the account between the id asked for and the last one that it gives.
pub record IsGapless (account : Text) (history : List Value) (proxy : Proxy) : Type 0 where
  pub no_gap :
      (params : TransactionsParams) (resp : Value) (txs : List Value)
      → proxy account params ≡ some resp
      → transactions_of resp ≡ some txs
      → (tx : Value) (id : ℕ) → In tx history
      → tx_id tx ≡ some id
      → params.from < id
      → (last : Value) (top : ℕ) → In last txs
      → tx_id last ≡ some top
      → id ≤ top
      → In tx txs

-- What a source that does not throw has done
pub record IsFetched (rt : Runtime) (node : ConcordiumNodeConfig) (overlap : ℤ) (t : Tick)
    (last : ℕ) (result : PltSourceResult) : Type 0 where
  pub resp : Value
  pub txs : List Value
  pub answered : t.proxy node.account_address (params_since overlap last) ≡ some resp
  pub listed : transactions_of resp ≡ some txs
  pub events : result.events ≡ (scan rt t.clock node overlap last txs).events
  pub best_height : result.best_height ≡ some (best_of last txs)

pub source_of-IsFetched :
    (rt : Runtime) (node : ConcordiumNodeConfig) (overlap : ℤ) (t : Tick) (last : ℕ)
    (result : PltSourceResult)
    → source_of rt node overlap t last ≡ some result
    → IsFetched rt node overlap t last result
unfolding source_of fetch_since scan
source_of-IsFetched rt node overlap t last result h =
    elim (Option-cases (t.proxy node.account_address (params_since overlap last))) [
      | inl thrown ↦ cc (rw (thrown, source_of, fetch_since) at h)
      | inr (resp, answered) ↦ elim (Option-cases (transactions_of resp)) [
        | inl broken ↦ cc (rw (answered, broken, source_of, fetch_since) at h)
        | inr (txs, listed) ↦
            let same =
              some-injective _ result (rw (answered, listed, source_of, fetch_since) at h) in
            record {
              resp = resp;
              txs = txs;
              answered = answered;
              listed = listed;
              events = ap (λ x. x.events) (sym same);
              best_height = ap (λ x. x.best_height) (sym same);
            }
      ]
    ]

pub store_events-IsPlaced :
    (st : Storage) (cfg : WorkerConfig) (tick : ℕ) (events : List PltEvent) (db db' : Db)
    → cfg.dry_run ≡ false
    → store_events st cfg tick events db ≡ some db'
    → Within db.events db'.events × ((e : PltEvent) → In e events → IsPlaced e db'.events)
unfolding store_events
store_events-IsPlaced st cfg tick [] db db' wet h = (
  subst (λ (x : Db). Within db.events x.events) (some-injective db db' h) (λ x there. there),
  λ e there. absurd there,
)
store_events-IsPlaced st cfg tick (e ∷ es) db db' wet h =
    elim (Bool-cases (st.insertion_fails tick)) [
      | inl fails ↦ cc (rw (wet, fails, store_events) at h)
      | inr answers ↦ elim (Option-cases (insert_plt_transfers st.numeric (e ∷ es) db)) [
        | inl refused ↦ cc (rw (wet, answers, refused, store_events) at h)
        | inr ((n, after), written) ↦
            subst
              (λ (x : Db).
                Within db.events x.events × ((d : PltEvent) → In d (e ∷ es) → IsPlaced d x.events))
              (some-injective after db' (rw (wet, answers, written, store_events) at h))
              (insert_plt_transfers-IsPlaced st.numeric (e ∷ es) db after n written)
      ]
    ]

-- The worker's height after a tick that has not failed
pub advance-height :
    (cfg : WorkerConfig) (key : Text) (best : ℕ) (s : WorkerState)
    → s.last_height_exclusive ≤ best
    → (advance cfg key (some best) s).last_height_exclusive ≡ best
unfolding advance
advance-height cfg key best s h = elim (Bool-cases (ltb s.last_height_exclusive best)) [
  | inl more ↦ rw (more, advance)
  | inr same ↦
      let e = ltb_false→le s.last_height_exclusive best same in rw (same, advance) (omega arith)
]

pub save_cursor-height :
    (st : Storage) (cfg : WorkerConfig) (key : Text) (tick best : ℕ) (given : Option ℕ)
    (s : WorkerState)
    → given ≡ some best
    → s.last_height_exclusive ≤ best
    → (state_of (save_cursor st cfg key tick given s)).last_height_exclusive ≡ best
save_cursor-height st cfg key tick best given s is_best h =
    (save_cursor-advance st cfg key tick given s).0
    ∙ ap (λ o. (advance cfg key o s).last_height_exclusive) is_best
    ∙ advance-height cfg key best s h

pub In-map :
    {A B : Type 0} (f : A → B) (xs : List A) (y : B)
    → In y (map f xs)
    → (x : A) × In x xs × (y ≡ f x)
In-map f [] y h = absurd h
In-map f (x ∷ xs) y (inl e) = (x, inl refl, e)
In-map f (x ∷ xs) y (inr later) = let (z, there, e) = In-map f xs y later in (z, inr there, e)

-- The place of a transaction's event does not depend on the time.
pub IsPlaced-clock :
    (rt : Runtime) (node : ConcordiumNodeConfig) (c c' : Clock) (tx : Value) (id : ℕ)
    (events : List PltEvent)
    → IsPlaced (event_of rt c node tx id) events
    → IsPlaced (event_of rt c' node tx id) events
unfolding event_of
IsPlaced-clock rt node c c' tx id events p = record {
  event = p.event;
  stored = p.stored;
  transaction_hash = p.transaction_hash;
  event_index = p.event_index;
}

-- A source whose proxy answers
pub source_of-answered :
    (rt : Runtime) (node : ConcordiumNodeConfig) (overlap : ℤ) (t : Tick) (last : ℕ) (resp : Value)
    (txs : List Value)
    → t.proxy node.account_address (params_since overlap last) ≡ some resp
    → transactions_of resp ≡ some txs
    → source_of rt node overlap t last
      ≡ some (record {
        events = (scan rt t.clock node overlap last txs).events;
        best_height = some (best_of last txs);
      })
unfolding source_of fetch_since scan
source_of-answered rt node overlap t last resp txs answered listed =
    rw (source_of, fetch_since, answered, listed) refl

-- A tick whose source and whose insertion do not fail
pub run_tick-stored :
    (st : Storage) (cfg : WorkerConfig) (key : Text) (tick : ℕ) (source : PltSource)
    (s : WorkerState) (result : PltSourceResult) (db : Db)
    → source s.last_height_exclusive ≡ some result
    → store_events st cfg tick result.events s.db ≡ some db
    → run_tick st cfg key tick source s
      ≡ save_cursor st cfg key tick result.best_height (record s { db = db })
unfolding run_tick
run_tick-stored st cfg key tick source s result db fetched written =
    rw (run_tick, fetched, written) refl
