-- ===== src/Worker/Insertion.antt =====
-- What the worker writes into the table of events, as steps of the ledger.
use mathlib.Core.Path.{subst}
use mathlib.Core.Option.{some-injective}
use xcf_concordium_facilitat.Base.{
  ℕ, ◌≡◌, refl, sym, ap, ◌∙◌, true, false, Option, none, some, List, [], ◌∷◌, arith, inl, inr,
  Bool-cases, Option-cases, any, any_none, Text, text_eq_iff,
}
use xcf_concordium_facilitat.Store.{PltEvent, Db}
use xcf_concordium_facilitat.Store.Events.{
  same_place, is_registered, Inserted, insert_row, insert_rows, insert_values, insert_plt_transfers,
}
use xcf_concordium_facilitat.Store.Amounts.{insert_plt_transfers-AreRead}
use xcf_concordium_facilitat.Payments.Services.{Services}
use xcf_concordium_facilitat.Payments.Ledger.{SamePlace, IsFresh, observe, Reach, here, next}
use xcf_concordium_facilitat.Worker.{
  WorkerConfig, PltSource, WorkerState, Storage, save_cursor, advance, store_events, run_tick,
  run_worker,
}
use xcf_concordium_facilitat.Worker.Progress.{state_of, save_cursor-advance, run_worker-induction}

same_place_complete : (d e : PltEvent) → SamePlace d e → same_place d e ≡ true
same_place_complete d e p =
    ground (
      arith,
      (text_eq_iff d.transaction_hash e.transaction_hash).1 p.transaction_hash,
      p.event_index,
    )

free_IsFresh :
    (e : PltEvent) (events : List PltEvent)
    → any (λ d. same_place d e) events ≡ false
    → IsFresh e events
free_IsFresh e events free d there p =
    let k = any_none (λ x. same_place x e) events free d there in
    let j = same_place_complete d e p in cc

Reach-trans : {sv : Services} {a b c : Db} → Reach sv a b → Reach sv b c → Reach sv a c
Reach-trans r here = r
Reach-trans r (next s t) = next (Reach-trans r s) t

insert_row-Reach :
    (sv : Services) (e : PltEvent) (db : Db) (done done' : Inserted)
    → insert_row e db.assets done ≡ some done'
    → Reach sv (record db { events = done.events }) (record db { events = done'.events })
unfolding insert_row
insert_row-Reach sv e db done done' h = elim (Bool-cases (any (λ d. same_place d e) done.events)) [
  | inl taken ↦
      let same : done ≡ done' = some-injective done done' (rw (taken, insert_row) at h) in
      subst
        (λ (x : Inserted).
          Reach sv (record db { events = done.events }) (record db { events = x.events }))
        same here
  | inr free ↦ elim (Bool-cases (is_registered e db.assets)) [
    | inr unknown ↦ cc (rw (free, unknown, insert_row) at h)
    | inl known ↦
        subst
          (λ (x : Inserted).
            Reach sv (record db { events = done.events }) (record db { events = x.events }))
          (some-injective _ done' (rw (free, known, insert_row) at h))
          (next here
            (observe e (record db { events = done.events }) (free_IsFresh e done.events free)))
  ]
]

insert_rows-Reach :
    (sv : Services) (es : List PltEvent) (db : Db) (done done' : Inserted)
    → insert_rows es db.assets done ≡ some done'
    → Reach sv (record db { events = done.events }) (record db { events = done'.events })
unfolding insert_rows
insert_rows-Reach sv [] db done done' h =
    subst
      (λ (x : Inserted).
        Reach sv (record db { events = done.events }) (record db { events = x.events }))
      (some-injective done done' h) here
insert_rows-Reach sv (e ∷ es) db done done' h = elim (Option-cases (insert_row e db.assets done)) [
  | inl refused ↦ cc (rw (refused, insert_rows) at h)
  | inr (mid, first) ↦
      Reach-trans (insert_row-Reach sv e db done mid first)
        (insert_rows-Reach sv es db mid done' (rw (first, insert_rows) at h))
]

insert_values-Reach :
    (sv : Services) (rows : List PltEvent) (db db' : Db) (n : ℕ)
    → insert_values rows db ≡ some (n, db')
    → Reach sv db db'
unfolding insert_values
insert_values-Reach sv rows db db' n h =
    elim (Option-cases (insert_rows rows db.assets (record { inserted = 0; events = db.events }))) [
      | inl refused ↦ cc (rw (refused, insert_values) at h)
      | inr (done, written) ↦
          subst (Reach sv db)
            (ap (λ x. x.1) (some-injective _ (n, db') (rw (written, insert_values) at h)))
            (insert_rows-Reach sv rows db _ done written)
    ]

-- Every insertion that does not fail is a sequence of ledger steps that each add one event at a
-- free place.
pub insert_plt_transfers-Reach :
    (sv : Services) (numeric : Text → Option Text) (rows : List PltEvent) (db db' : Db) (n : ℕ)
    → insert_plt_transfers numeric rows db ≡ some (n, db')
    → Reach sv db db'
insert_plt_transfers-Reach sv numeric rows db db' n h =
    let (read, are, written) = insert_plt_transfers-AreRead numeric rows db db' n h in
    insert_values-Reach sv read db db' n written

store_events-Reach :
    (sv : Services) (st : Storage) (cfg : WorkerConfig) (tick : ℕ) (events : List PltEvent)
    (db db' : Db)
    → store_events st cfg tick events db ≡ some db'
    → Reach sv db db'
unfolding store_events
store_events-Reach sv st cfg tick [] db db' h = subst (Reach sv db) (some-injective db db' h) here
store_events-Reach sv st cfg tick (e ∷ es) db db' h = elim (Bool-cases cfg.dry_run) [
  | inl dry ↦ subst (Reach sv db) (some-injective db db' (rw (dry, store_events) at h)) here
  | inr wet ↦ elim (Bool-cases (st.insertion_fails tick)) [
    | inl fails ↦ cc (rw (wet, fails, store_events) at h)
    | inr answers ↦ elim (Option-cases (insert_plt_transfers st.numeric (e ∷ es) db)) [
      | inl refused ↦ cc (rw (wet, answers, refused, store_events) at h)
      | inr ((n, after), written) ↦
          subst (Reach sv db)
            (some-injective after db' (rw (wet, answers, written, store_events) at h))
            (insert_plt_transfers-Reach sv st.numeric (e ∷ es) db after n written)
    ]
  ]
]

pub advance-db :
    (cfg : WorkerConfig) (key : Text) (best : Option ℕ) (s : WorkerState)
    → (advance cfg key best s).db ≡ s.db
unfolding advance
advance-db cfg key none s = refl
advance-db cfg key (some best) s = ground arith

pub save_cursor-db :
    (st : Storage) (cfg : WorkerConfig) (key : Text) (tick : ℕ) (best : Option ℕ) (s : WorkerState)
    → (state_of (save_cursor st cfg key tick best s)).db ≡ s.db
save_cursor-db st cfg key tick best s =
    (save_cursor-advance st cfg key tick best s).1 ∙ advance-db cfg key best s

run_tick-Reach :
    (sv : Services) (st : Storage) (cfg : WorkerConfig) (key : Text) (tick : ℕ) (source : PltSource)
    (s : WorkerState)
    → Reach sv s.db (state_of (run_tick st cfg key tick source s)).db
unfolding run_tick
run_tick-Reach sv st cfg key tick source s = elim (Option-cases (source s.last_height_exclusive)) [
  | inl thrown ↦ rw (thrown, run_tick) here
  | inr (result, fetched) ↦ elim (Option-cases (store_events st cfg tick result.events s.db)) [
    | inl refused ↦ rw (fetched, refused, run_tick) here
    | inr (db, written) ↦
        rw (fetched, written, run_tick)
          (subst (Reach sv s.db)
            (sym (save_cursor-db st cfg key tick result.best_height (record s { db = db })))
            (store_events-Reach sv st cfg tick result.events s.db db written))
  ]
]

-- The worker refines the ledger: whatever the sources return and whatever fails, a run of the worker does to the
-- database what some sequence of ledger steps does.
pub run_worker-Reach :
    (sv : Services) (st : Storage) (cfg : WorkerConfig) (key : Text) (tick : ℕ)
    (sources : List PltSource) (s : WorkerState)
    → Reach sv s.db (run_worker st cfg key tick sources s).db
run_worker-Reach sv st cfg key tick sources s =
    run_worker-induction (λ a b. Reach sv a.db b.db) (λ a. here) (λ a b c f g. Reach-trans f g) st
      cfg key tick sources s (λ n x a there. run_tick-Reach sv st cfg key n x a)
