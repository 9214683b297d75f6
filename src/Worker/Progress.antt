-- ===== src/Worker/Progress.antt =====
-- The cursors of the stream worker: where they go.
use xcf_concordium_facilitat.Base.{
  ℕ, suc, ◌≤◌, ◌≡◌, refl, In, not, ◌&&◌, ◌||◌, Option, none, some, List, [], ◌∷◌, arith, inl, inr,
  Bool-cases, Option-cases, ltb, Text,
}
use xcf_concordium_facilitat.Worker.{
  WorkerConfig, PltSource, WorkerState, Ticked, ticked, failed, Storage, advance, store_events,
  saves_cursor, save_cursor, run_tick, run_worker,
}
use xcf_concordium_facilitat.Worker.Cursors.{
  Forward, Forward-refl, Forward-trans, upsert_cursor-Forward,
}

record IsForward (s s' : WorkerState) : Type 0 where
  pub height : s.last_height_exclusive ≤ s'.last_height_exclusive
  pub stored : Forward s.cursors s'.cursors

advance-IsForward :
    (cfg : WorkerConfig) (key : Text) (best : Option ℕ) (s : WorkerState)
    → IsForward s (advance cfg key best s)
unfolding advance
advance-IsForward cfg key none s = record { height = omega arith; stored = Forward-refl s.cursors }
advance-IsForward cfg key (some best) s = elim (Bool-cases (ltb s.last_height_exclusive best)) [
  | inr same ↦ rw (same, advance) (record { height = omega arith; stored = Forward-refl s.cursors })
  | inl more ↦ elim (Bool-cases (not cfg.dry_run || cfg.persist_cursor_in_dry_run)) [
    | inl stored ↦
        rw (more, stored, advance)
          (record { height = ground arith; stored = upsert_cursor-Forward key best s.cursors })
    | inr dry ↦
        rw (more, dry, advance) (record { height = ground arith; stored = Forward-refl s.cursors })
  ]
]

-- The state in which a tick ends
abbrev pub state_of : Ticked → WorkerState
state_of (ticked s) = s
state_of (failed s) = s

save_cursor-IsForward :
    (st : Storage) (cfg : WorkerConfig) (key : Text) (tick : ℕ) (best : Option ℕ) (s : WorkerState)
    → IsForward s (state_of (save_cursor st cfg key tick best s))
unfolding save_cursor
save_cursor-IsForward st cfg key tick best s =
    let f = advance-IsForward cfg key best s in
    elim (Bool-cases (saves_cursor cfg best s && st.cursor_fails tick)) [
      | inl fails ↦
          rw (fails, save_cursor) (record { height = f.height; stored = Forward-refl s.cursors })
      | inr saved ↦ rw (saved, save_cursor) f
    ]

-- A tick ends with the height and the database of `advance`, whether it stores its cursor or not.
pub save_cursor-advance :
    (st : Storage) (cfg : WorkerConfig) (key : Text) (tick : ℕ) (best : Option ℕ) (s : WorkerState)
    → ((state_of (save_cursor st cfg key tick best s)).last_height_exclusive
        ≡ (advance cfg key best s).last_height_exclusive)
      × ((state_of (save_cursor st cfg key tick best s)).db ≡ (advance cfg key best s).db)
unfolding save_cursor
save_cursor-advance st cfg key tick best s =
    elim (Bool-cases (saves_cursor cfg best s && st.cursor_fails tick)) [
      | inl fails ↦ (rw (fails, save_cursor) refl, rw (fails, save_cursor) refl)
      | inr saved ↦ (rw (saved, save_cursor) refl, rw (saved, save_cursor) refl)
    ]

run_tick-IsForward :
    (st : Storage) (cfg : WorkerConfig) (key : Text) (tick : ℕ) (source : PltSource)
    (s : WorkerState)
    → IsForward s (state_of (run_tick st cfg key tick source s))
unfolding run_tick
run_tick-IsForward st cfg key tick source s = elim (Option-cases (source s.last_height_exclusive)) [
  | inl thrown ↦
      rw (thrown, run_tick) (record { height = omega arith; stored = Forward-refl s.cursors })
  | inr (result, fetched) ↦ elim (Option-cases (store_events st cfg tick result.events s.db)) [
    | inl refused ↦
        rw (fetched, refused, run_tick)
          (record { height = omega arith; stored = Forward-refl s.cursors })
    | inr (db, written) ↦
        let f = save_cursor-IsForward st cfg key tick result.best_height (record s { db = db }) in
        rw (fetched, written, run_tick) (record { height = f.height; stored = f.stored })
  ]
]

-- What a run does is what its ticks do: a property that every tick has, and that composes, holds
-- from the first state to the last.
pub run_worker-induction :
    (R : WorkerState → WorkerState → Type 0)
    → ((s : WorkerState) → R s s)
    → ((a b c : WorkerState) → R a b → R b c → R a c)
    → (st : Storage) (cfg : WorkerConfig) (key : Text) (tick : ℕ) (sources : List PltSource)
      (s : WorkerState)
    → ((n : ℕ) (source : PltSource) (a : WorkerState)
        → In source sources
        → R a (state_of (run_tick st cfg key n source a)))
    → R s (run_worker st cfg key tick sources s)
unfolding run_worker
run_worker-induction R same then_ st cfg key tick [] s each = same s
run_worker-induction R same then_ st cfg key tick (source ∷ sources) s each =
    elim (Bool-cases (ltb 0 cfg.max_ticks && ltb cfg.max_ticks (suc tick))) [
      | inl over ↦ rw (over, run_worker) (same s)
      | inr more ↦
          rw (more, run_worker)
            (go (run_tick st cfg key tick source s) (each tick source s (inl refl)) (λ s'.
              run_worker-induction R same then_ st cfg key (suc tick) sources s'
                (λ n x a there. each n x a (inr there))))
    ]
  where
    go :
        (t : Ticked)
        → R s (state_of t)
        → ((s' : WorkerState) → R s' (run_worker st cfg key (suc tick) sources s'))
        → R s (elim t [ failed s' ↦ s' | ticked s' ↦ run_worker st cfg key (suc tick) sources s' ])
    go (failed s') r rest = r
    go (ticked s') r rest = then_ s s' (run_worker st cfg key (suc tick) sources s') r (rest s')

-- Whatever the sources return and whenever they or the database fail, a run of the worker lowers neither its own
-- height nor any stored cursor.
pub run_worker-Forward :
    (st : Storage) (cfg : WorkerConfig) (key : Text) (tick : ℕ) (sources : List PltSource)
    (s : WorkerState)
    → (s.last_height_exclusive ≤ (run_worker st cfg key tick sources s).last_height_exclusive)
      × Forward s.cursors (run_worker st cfg key tick sources s).cursors
run_worker-Forward st cfg key tick sources s =
    let f =
      run_worker-induction IsForward
        (λ a. record { height = omega arith; stored = Forward-refl a.cursors })
        (λ a b c f g. record {
          height = let x = f.height in let y = g.height in omega arith;
          stored = Forward-trans a.cursors b.cursors c.cursors f.stored g.stored;
        })
        st cfg key tick sources s (λ n x a there. run_tick-IsForward st cfg key n x a) in
    (f.height, f.stored)
