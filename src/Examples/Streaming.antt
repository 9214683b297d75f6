-- ===== src/Examples/Streaming.antt =====
-- The stream worker on the transfer of one payment.
use xcf_concordium_facilitat.Base.{
  ◌≡◌, ◌≤◌, ◌+◌, refl, false, none, some, List, [], ◌∷◌, Text, codes, arith, text_eq, if◌then◌else◌,
  Environment,
}
use xcf_concordium_facilitat.Payments.Ledger.{Reach}
use xcf_concordium_facilitat.Worker.{
  WorkerConfig, Cursor, read_cursor, resolve_start_cursor, configured_start, PltSource, WorkerState,
}
use xcf_concordium_facilitat.Worker.Cursors.{Forward, resolve_start_cursor-clamp_forgotten}
use xcf_concordium_facilitat.NetworkId.{testnet}
use xcf_concordium_facilitat.Store.Events.{insert_plt_transfers}
use xcf_concordium_facilitat.Worker.Start.{Outside, run_demo}
use xcf_concordium_facilitat.Worker.Whole.{run_demo-Reach}
use xcf_concordium_facilitat.Examples.Data.{services, plain_runtime, event, ready, storage}

abbrev config : WorkerConfig
config = record {
  dry_run = false;
  start_height_override = none;
  max_ticks = 2;
  zero_is_genesis = false;
  max_ahead_guard = 10;
  rewind_on_clamp = 5;
  persist_cursor_in_dry_run = false;
}

abbrev stream_key : Text
unfolding codes
stream_key = codes "plt:fixture"

abbrev stored_cursors : List Cursor
stored_cursors = record { cursor_key = stream_key; last_height = 40 } ∷ []

-- A source that finds the transfer at every tick, at the next height
abbrev source : PltSource
source = λ height. some (record { events = event ∷ []; best_height = some (height + 1) })

abbrev idle : WorkerState
idle = record {
  last_height_exclusive = 40;
  cursors = stored_cursors;
  db = record ready { events = [] };
}

abbrev settings : Environment
unfolding codes text_eq
settings = record {
  variable = λ k. if text_eq k (codes "CRP_STREAM_SOURCE") then some (codes "fixture") else none;
  parse_int = λ s. none;
}

abbrev outside : Outside
outside = record { fixture_ticks = source ∷ source ∷ []; proxy_ticks = []; latest = none }

-- The worker starts at the stored cursor, and its second tick finds the transfer in the table.
reaches_42 : (run_demo storage plain_runtime settings outside idle).last_height_exclusive ≡ 42
unfolding run_demo settings insert_plt_transfers testnet configured_start read_cursor
reaches_42 = refl

run_demo-Reach_example :
    Reach services idle.db (run_demo storage plain_runtime settings outside idle).db
    × Forward stored_cursors (run_demo storage plain_runtime settings outside idle).cursors
run_demo-Reach_example = run_demo-Reach services storage plain_runtime settings outside idle

is_stored : read_cursor stream_key stored_cursors ≡ some 40
unfolding read_cursor text_eq codes
is_stored = refl

resolve_start_cursor-clamp_forgotten_example :
    ((resolve_start_cursor config stream_key (some 20) stored_cursors).0 ≤ 20)
    × (read_cursor stream_key (resolve_start_cursor config stream_key (some 20) stored_cursors).1
        ≡ some 40)
resolve_start_cursor-clamp_forgotten_example =
    resolve_start_cursor-clamp_forgotten config stream_key 20 40 stored_cursors refl is_stored
      (omega arith) (omega arith)
