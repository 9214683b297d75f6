-- ===== src/Source/Complete.antt =====
-- The worker on the wallet proxy: no transfer below the cursor is missed.
use mathlib.Core.Path.{subst}
use xcf_concordium_facilitat.Base.{
  ℕ, ◌≤◌, ◌<◌, ◌≡◌, refl, sym, true, false, some, List, arith, map, inl, inr, Bool-cases,
  Option-cases, ltb, ltb→lt, ltb_false→le, In, Within, Text, Value, Runtime, ℤ,
}
use xcf_concordium_facilitat.Store.{Db}
use xcf_concordium_facilitat.Worker.{
  WorkerConfig, PltSourceResult, WorkerState, Storage, store_events, run_tick, run_worker,
}
use xcf_concordium_facilitat.Worker.Progress.{state_of, run_worker-induction}
use xcf_concordium_facilitat.Store.Insertions.{IsPlaced, IsPlaced-Within}
use xcf_concordium_facilitat.Worker.Insertion.{save_cursor-db}
use xcf_concordium_facilitat.Source.{
  ConcordiumNodeConfig, Clock, Tick, tx_id, best_of, is_token_transfer, event_of, source_of,
  params_since,
}
use xcf_concordium_facilitat.Source.Coverage.{best_of-attained, best_of-start, scan-events}
use xcf_concordium_facilitat.Source.Fetching.{
  IsGapless, IsFetched, source_of-IsFetched, store_events-IsPlaced, save_cursor-height, In-map,
  IsPlaced-clock,
}

module _ (rt : Runtime) (node : ConcordiumNodeConfig) (overlap : ℤ) (history : List Value)
    (st : Storage) (cfg : WorkerConfig) (key : Text) where
  -- No transfer of the history between the heights of two states is missing in the second.
  record IsCovered (s s' : WorkerState) : Type 0 where
    pub height : s.last_height_exclusive ≤ s'.last_height_exclusive
    pub kept : Within s.db.events s'.db.events
    pub covered :
        (clock : Clock) (tx : Value) (id : ℕ)
        → In tx history
        → tx_id tx ≡ some id
        → is_token_transfer rt node.asset_id tx ≡ true
        → s.last_height_exclusive < id
        → id ≤ s'.last_height_exclusive
        → IsPlaced (event_of rt clock node tx id) s'.db.events

  IsCovered-refl : (s : WorkerState) → IsCovered s s
  IsCovered-refl s = record {
    height = omega arith;
    kept = λ x there. there;
    covered = λ clock tx id there at transfer low high. absurd (omega arith);
  }

  IsCovered-trans : (a b c : WorkerState) → IsCovered a b → IsCovered b c → IsCovered a c
  IsCovered-trans a b c f g = record {
    height = let x = f.height in let y = g.height in omega arith;
    kept = λ x there. g.kept x (f.kept x there);
    covered = λ clock tx id there at transfer low high.
        elim (Bool-cases (ltb b.last_height_exclusive id)) [
          | inl after ↦
              g.covered clock tx id there at transfer (ltb→lt b.last_height_exclusive id after) high
          | inr before ↦
              IsPlaced-Within (event_of rt clock node tx id) b.db.events c.db.events g.kept (
                f.covered clock tx id there at transfer low
                  (ltb_false→le b.last_height_exclusive id before))
        ];
  }

  fetched_event :
      (t : Tick) (last : ℕ) (result : PltSourceResult)
      → IsGapless node.account_address history t.proxy
      → (f : IsFetched rt node overlap t last result) → (tx : Value) (id : ℕ) → In tx history
      → tx_id tx ≡ some id
      → is_token_transfer rt node.asset_id tx ≡ true
      → last < id
      → id ≤ best_of last f.txs
      → In (event_of rt t.clock node tx id) result.events
  unfolding params_since
  fetched_event t last result honest f tx id there at transfer low high =
      let (end_tx, inside, top) = best_of-attained last f.txs (omega arith) in
      let answered =
        honest.no_gap (params_since overlap last) f.resp f.txs f.answered f.listed tx id there at
          (omega arith) end_tx (best_of last f.txs) inside top high in
      subst (λ events. In (event_of rt t.clock node tx id) events) (sym f.events)
        ((scan-events rt t.clock node overlap last f.txs (event_of rt t.clock node tx id)).1
          (tx, id, answered, at, low, transfer, refl))

  run_tick-IsCovered :
      cfg.dry_run ≡ false
      → (tick : ℕ) (t : Tick) → IsGapless node.account_address history t.proxy
      → (s : WorkerState)
      → IsCovered s (state_of (run_tick st cfg key tick (source_of rt node overlap t) s))
  unfolding run_tick
  run_tick-IsCovered wet tick t honest s =
      elim (Option-cases (source_of rt node overlap t s.last_height_exclusive)) [
        | inl thrown ↦ rw (thrown, run_tick) (IsCovered-refl s)
        | inr (result, fetched) ↦
            elim (Option-cases (store_events st cfg tick result.events s.db)) [
              | inl refused ↦ rw (fetched, refused, run_tick) (IsCovered-refl s)
              | inr (db, written) ↦
                  let f =
                    source_of-IsFetched rt node overlap t s.last_height_exclusive result fetched in
                  let (kept, placed) =
                    store_events-IsPlaced st cfg tick result.events s.db db wet written in
                  let start = best_of-start s.last_height_exclusive f.txs in
                  let same =
                    save_cursor-db st cfg key tick result.best_height (record s { db = db }) in
                  let at_best =
                    save_cursor-height st cfg key tick (best_of s.last_height_exclusive f.txs)
                      result.best_height (record s { db = db }) f.best_height start in
                  rw (fetched, written, run_tick)
                    (record {
                      height = omega arith;
                      kept = subst (λ (x : Db). Within s.db.events x.events) (sym same) kept;
                      covered = λ clock tx id there at transfer low high.
                          subst (λ (x : Db). IsPlaced (event_of rt clock node tx id) x.events)
                            (sym same)
                            (IsPlaced-clock rt node t.clock clock tx id db.events (
                              placed (event_of rt t.clock node tx id) (
                                fetched_event t s.last_height_exclusive result honest f tx id there
                                  at transfer low (omega arith))));
                    })
            ]
      ]

-- No transfer is missed: if every tick's proxy leaves no gaps in its answers, then after a run of
-- the worker that is no dry run, also one that a failure of the proxy or of the database has ended,
-- the table of events has an event at the place of every transfer of the token whose id is after the cursor at the
-- start and not after the cursor at the end.
pub run_worker_complete :
    (rt : Runtime) (node : ConcordiumNodeConfig) (overlap : ℤ) (history : List Value)
    (ticks : List Tick)
    → ((t : Tick) → In t ticks → IsGapless node.account_address history t.proxy)
    → (st : Storage) (cfg : WorkerConfig) → cfg.dry_run ≡ false
    → (key : Text) (tick : ℕ) (s : WorkerState) (clock : Clock) (tx : Value) (id : ℕ)
    → In tx history
    → tx_id tx ≡ some id
    → is_token_transfer rt node.asset_id tx ≡ true
    → s.last_height_exclusive < id
    → id
      ≤ (run_worker st cfg key tick (map (source_of rt node overlap) ticks) s).last_height_exclusive
    → IsPlaced
        (event_of rt clock node tx id)
        (run_worker st cfg key tick (map (source_of rt node overlap) ticks) s).db.events
run_worker_complete rt node overlap history ticks honest st cfg wet key tick s =
    let c =
      run_worker-induction (IsCovered rt node overlap history st cfg key)
        (IsCovered-refl rt node overlap history st cfg key)
        (IsCovered-trans rt node overlap history st cfg key) st cfg key tick
        (map (source_of rt node overlap) ticks) s
        (λ n source a there.
          let (t, listed, same) = In-map (source_of rt node overlap) ticks source there in
          subst
            (λ x.
              IsCovered rt node overlap history st cfg key a (state_of (run_tick st cfg key n x a)))
            (sym same)
            (run_tick-IsCovered rt node overlap history st cfg key wet n t (honest t listed) a)) in
    c.covered
