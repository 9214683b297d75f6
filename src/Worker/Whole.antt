-- ===== src/Worker/Whole.antt =====
-- The whole worker, from its environment to the database.
use xcf_concordium_facilitat.Base.{
  ℕ, ◌≡◌, refl, not, ◌&&◌, ◌==◌, ◌+◌, Option, none, some, List, inl, inr, Bool-cases, Option-cases,
  ltb, map, Text, codes, Runtime, Environment,
}
use xcf_concordium_facilitat.Base.Js.{pos}
use xcf_concordium_facilitat.Payments.Services.{Services}
use xcf_concordium_facilitat.Payments.Ledger.{Reach, here}
use xcf_concordium_facilitat.Worker.{
  SourceKind, fixture, concordium, WorkerConfig, Cursor, PltSource, WorkerState, Storage,
  configured_start, clamp_start, start_from_now, resolve_start_cursor,
}
use xcf_concordium_facilitat.Worker.Cursors.{
  Forward, Forward-refl, Forward-trans, upsert_cursor-Forward,
}
use xcf_concordium_facilitat.Worker.Progress.{run_worker-Forward}
use xcf_concordium_facilitat.Worker.Insertion.{run_worker-Reach}
use xcf_concordium_facilitat.Worker.Start.{
  load_worker_config_from_env, source_kind_of, cursor_key_of, Outside, start_worker, run_demo,
}
use xcf_concordium_facilitat.Source.{source_of, parse_int_env, node_config_from_env}

clamp_start-Forward :
    (cfg : WorkerConfig) (key : Text) (latest start : ℕ) (cs : List Cursor)
    → Forward cs (clamp_start cfg key latest (start, cs)).1
unfolding clamp_start
clamp_start-Forward cfg key latest start cs =
    elim (Bool-cases (ltb (latest + cfg.max_ahead_guard) start)) [
      | inl ahead ↦ rw (ahead, clamp_start) (upsert_cursor-Forward key _ cs)
      | inr near ↦ rw (near, clamp_start) (Forward-refl cs)
    ]

start_from_now-Forward :
    (cfg : WorkerConfig) (key : Text) (latest start : ℕ) (cs : List Cursor)
    → Forward cs (start_from_now cfg key latest (start, cs)).1
unfolding start_from_now
start_from_now-Forward cfg key latest start cs =
    elim (Bool-cases (start == 0 && not cfg.zero_is_genesis)) [
      | inl now ↦ rw (now, start_from_now) (upsert_cursor-Forward key latest cs)
      | inr then_ ↦ rw (then_, start_from_now) (Forward-refl cs)
    ]

resolve_start_cursor-Forward :
    (cfg : WorkerConfig) (key : Text) (latest : Option ℕ) (cs : List Cursor)
    → Forward cs (resolve_start_cursor cfg key latest cs).1
unfolding resolve_start_cursor
resolve_start_cursor-Forward cfg key none cs = Forward-refl cs
resolve_start_cursor-Forward cfg key (some latest) cs = elim (Bool-cases (ltb 0 latest)) [
  | inr no_tx ↦ rw (no_tx, resolve_start_cursor) (Forward-refl cs)
  | inl some_tx ↦
      let start = configured_start cfg key cs in
      let (start', cs') = clamp_start cfg key latest (start, cs) in
      rw (some_tx, resolve_start_cursor)
        (Forward-trans cs (clamp_start cfg key latest (start, cs)).1 _
          (clamp_start-Forward cfg key latest start cs)
          (start_from_now-Forward cfg key latest (clamp_start cfg key latest (start, cs)).0
            (clamp_start cfg key latest (start, cs)).1))
]

-- A property that the given state has with itself, and with what the loop makes of it after the
-- start, it has with what the whole worker makes of it.
run_demo-induction :
    (st : Storage) (R : WorkerState → WorkerState → Type 0)
    → ((s : WorkerState) → R s s)
    → ((cfg : WorkerConfig) (key : Text) (latest : Option ℕ) (sources : List PltSource)
          (s : WorkerState)
        → R s (start_worker st cfg key latest sources s))
    → (rt : Runtime) (env : Environment) (o : Outside) (s : WorkerState)
    → R s (run_demo st rt env o s)
unfolding run_demo
run_demo-induction st R same runs rt env o s =
    elim (Option-cases (load_worker_config_from_env env)) [
      | inl refused ↦ rw (refused, run_demo) (same s)
      | inr (cfg, loaded) ↦ by_kind cfg loaded (source_kind_of env) refl
    ]
  where
    by_kind :
        (cfg : WorkerConfig)
        → load_worker_config_from_env env ≡ some cfg
        → (k : SourceKind) → source_kind_of env ≡ k
        → R s (run_demo st rt env o s)
    by_kind cfg loaded fixture kind =
        rw (run_demo, loaded, kind) (runs cfg (codes "plt:fixture") none o.fixture_ticks s)
    by_kind cfg loaded concordium kind = elim (Option-cases (node_config_from_env env)) [
      | inl nameless ↦ rw (run_demo, loaded, kind, nameless) (same s)
      | inr (node, named) ↦ elim (Option-cases o.latest) [
        | inl thrown ↦ rw (run_demo, loaded, kind, named, thrown) (same s)
        | inr (latest, given) ↦
            rw (run_demo, loaded, kind, named, given)
              (runs cfg (cursor_key_of rt node) (some latest)
                (map (source_of rt node (parse_int_env env (codes "CRP_STREAM_OVERLAP") (pos 0)))
                  o.proxy_ticks)
                s)
      ]
    ]

-- The worker refines the ledger: whatever the environment says, the sources return and the storage
-- refuses, a run of the worker from its start does to the database what some sequence of ledger steps does, and lowers or
-- loses no stored cursor.
pub run_demo-Reach :
    (sv : Services) (st : Storage) (rt : Runtime) (env : Environment) (o : Outside)
    (s : WorkerState)
    → Reach sv s.db (run_demo st rt env o s).db × Forward s.cursors (run_demo st rt env o s).cursors
unfolding start_worker
run_demo-Reach sv st rt env o s =
    run_demo-induction st (λ a b. Reach sv a.db b.db × Forward a.cursors b.cursors)
      (λ a. (here, Forward-refl a.cursors))
      (λ cfg key latest sources a.
        let cs = (resolve_start_cursor cfg key latest a.cursors).1 in
        let a' : WorkerState = record a {
          last_height_exclusive = (resolve_start_cursor cfg key latest a.cursors).0;
          cursors = cs;
        } in
        (
          run_worker-Reach sv st cfg key 0 sources a',
          Forward-trans a.cursors cs _ (resolve_start_cursor-Forward cfg key latest a.cursors)
              (run_worker-Forward st cfg key 0 sources a').1,
        ))
      rt env o s
