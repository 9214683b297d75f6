-- ===== src/Worker.antt =====
-- src/worker/main.ts: the stream worker. It polls a source for the transfers after a cursor, inserts
-- them, and moves the cursor on. A height is a natural number; what is only logged is left out.
pub mod Cursors
pub mod Progress
pub mod Insertion
pub mod Start
pub mod Whole
use xcf_concordium_facilitat.Base.{
  ℕ, suc, ◌+◌, ◌-◌, Bool, true, false, not, ◌&&◌, ◌||◌, Option, none, some, List, [], ◌∷◌,
  if◌then◌else◌, ltb, leb, ◌==◌, Text, text_eq,
}
use xcf_concordium_facilitat.Store.{PltEvent, Db}
use xcf_concordium_facilitat.Store.Events.{insert_plt_transfers}

pub data SourceKind : Type 0 where
  fixture concordium : SourceKind

-- The fields of `WorkerConfig` that more than the log depends on
pub record WorkerConfig : Type 0 where
  pub dry_run : Bool
  pub start_height_override : Option ℕ
  pub max_ticks : ℕ
  pub zero_is_genesis : Bool
  pub max_ahead_guard : ℕ
  pub rewind_on_clamp : ℕ
  pub persist_cursor_in_dry_run : Bool

-- A row of `crp_stream_cursors`, primary key `cursor_key`
pub record Cursor : Type 0 where
  pub cursor_key : Text
  pub last_height : ℕ

unfoldable pub read_cursor : Text → List Cursor → Option ℕ
read_cursor key [] = none
read_cursor key (c ∷ cs) =
    let rest = read_cursor key cs in if text_eq c.cursor_key key then some c.last_height else rest

abbrev pub greatest : ℕ → ℕ → ℕ
greatest a b = if ltb a b then b else a

-- `SET last_height = GREATEST(...)`
unfoldable pub upsert_cursor : Text → ℕ → List Cursor → List Cursor
upsert_cursor key height [] = record { cursor_key = key; last_height = height } ∷ []
upsert_cursor key height (c ∷ cs) =
    let rest = upsert_cursor key height cs in
    if text_eq c.cursor_key key
    then record c { last_height = greatest c.last_height height } ∷ cs
    else c ∷ rest

-- The override, else the stored cursor, else 0
unfoldable pub configured_start : WorkerConfig → Text → List Cursor → ℕ
configured_start cfg key cursors = elim cfg.start_height_override [
  | some start ↦ start
  | none ↦ elim (read_cursor key cursors) [ none ↦ 0 | some height ↦ height ]
]

-- "cursor looks out-of-universe; clamping"
unfoldable pub clamp_start : WorkerConfig → Text → ℕ → ℕ × List Cursor → ℕ × List Cursor
clamp_start cfg key latest (start, cursors) =
    if ltb (latest + cfg.max_ahead_guard) start
    then (latest - cfg.rewind_on_clamp, upsert_cursor key (latest - cfg.rewind_on_clamp) cursors)
    else (start, cursors)

-- "start cursor=0 treated as 'from now'"
unfoldable pub start_from_now : WorkerConfig → Text → ℕ → ℕ × List Cursor → ℕ × List Cursor
start_from_now cfg key latest (start, cursors) =
    if start == 0 && not cfg.zero_is_genesis
    then (latest, upsert_cursor key latest cursors)
    else (start, cursors)

-- `resolveStartCursor`; `latest` is what the wallet proxy gives as the account's latest transaction
-- id, which is asked for only for a Concordium source with an account.
unfoldable pub resolve_start_cursor : WorkerConfig → Text → Option ℕ → List Cursor → ℕ × List Cursor
unfolding clamp_start start_from_now
resolve_start_cursor cfg key none cursors = (configured_start cfg key cursors, cursors)
resolve_start_cursor cfg key (some latest) cursors =
    let start = configured_start cfg key cursors in
    if ltb 0 latest
    then start_from_now cfg key latest (clamp_start cfg key latest (start, cursors))
    else (start, cursors)

-- What `source.fetchSince` returns; `best_height` is `none` where it is no finite number.
pub record PltSourceResult : Type 0 where
  pub events : List PltEvent
  pub best_height : Option ℕ

-- A source at one tick; `none` where it throws.
abbrev pub PltSource : Type 0
PltSource = ℕ → Option PltSourceResult

-- The state between two ticks: `state.lastHeightExclusive` and the database
pub record WorkerState : Type 0 where
  pub last_height_exclusive : ℕ
  pub cursors : List Cursor
  pub db : Db

-- What Postgres stores of a text as a `NUMERIC(38, 0)`, `none` where it refuses the text; and whether
-- the statement fails for another reason that inserts the events of a tick, or stores its cursor
pub record Storage : Type 0 where
  pub numeric : Text → Option Text
  pub insertion_fails : ℕ → Bool
  pub cursor_fails : ℕ → Bool

-- A tick that throws ends the worker.
pub data Ticked : Type 0 where
  ticked : WorkerState → Ticked
  failed : WorkerState → Ticked

-- The cursor moves only if `bestHeight` indicates progress.
unfoldable pub advance : WorkerConfig → Text → Option ℕ → WorkerState → WorkerState
advance cfg key none s = s
advance cfg key (some best) s =
    if ltb s.last_height_exclusive best
    then record s {
      last_height_exclusive = best;
      cursors =
          (if not cfg.dry_run || cfg.persist_cursor_in_dry_run
            then upsert_cursor key best s.cursors
            else s.cursors);
    }
    else s

-- The insertion of the fetched events; a dry run inserts nothing, and no events make no statement.
unfoldable pub store_events : Storage → WorkerConfig → ℕ → List PltEvent → Db → Option Db
store_events st cfg tick [] db = some db
store_events st cfg tick (e ∷ es) db =
    if cfg.dry_run
    then some db
    else if st.insertion_fails tick
    then none
    else elim (insert_plt_transfers st.numeric (e ∷ es) db) [
      | none ↦ none
      | some (inserted, db') ↦ some db'
    ]

-- Whether a tick stores its cursor
abbrev pub saves_cursor : WorkerConfig → Option ℕ → WorkerState → Bool
saves_cursor cfg none s = false
saves_cursor cfg (some best) s =
    ltb s.last_height_exclusive best && (not cfg.dry_run || cfg.persist_cursor_in_dry_run)

-- The end of a tick: where the cursor cannot be stored, the worker's own height has moved already.
unfoldable pub save_cursor : Storage → WorkerConfig → Text → ℕ → Option ℕ → WorkerState → Ticked
unfolding advance
save_cursor st cfg key tick best s =
    if saves_cursor cfg best s && st.cursor_fails tick
    then failed (record (advance cfg key best s) { cursors = s.cursors })
    else ticked (advance cfg key best s)

unfoldable pub run_tick : Storage → WorkerConfig → Text → ℕ → PltSource → WorkerState → Ticked
unfolding save_cursor store_events
run_tick st cfg key tick source s = elim (source s.last_height_exclusive) [
  | none ↦ failed s
  | some result ↦ elim (store_events st cfg tick result.events s.db) [
    | none ↦ failed s
    | some db ↦ save_cursor st cfg key tick result.best_height (record s { db = db })
  ]
]

-- `runWorker`: a source for each tick up to the stop request; `tick` is the number of ticks made.
unfoldable pub run_worker :
    Storage → WorkerConfig → Text → ℕ → List PltSource → WorkerState → WorkerState
unfolding run_tick
run_worker st cfg key tick [] s = s
run_worker st cfg key tick (source ∷ sources) s =
    if ltb 0 cfg.max_ticks && ltb cfg.max_ticks (suc tick)
    then s
    else elim (run_tick st cfg key tick source s) [
      | failed s' ↦ s'
      | ticked s' ↦ run_worker st cfg key (suc tick) sources s'
    ]
