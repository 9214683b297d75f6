-- ===== src/Worker/Start.antt =====
-- src/worker/main.ts: the settings of the worker and its start, `loadWorkerConfigFromEnv` and
-- `runDemo`. A negative setting of a height is left out of the model.
use xcf_concordium_facilitat.Base.{
  ℕ, ◌++◌, Bool, true, false, Option, none, some, List, [], ◌∷◌, if◌then◌else◌, is_empty, map, Text,
  codes, text_eq, includes, trim, lower, ℤ, Runtime, Environment,
}
use xcf_concordium_facilitat.Base.Js.{pos, negsuc, whole}
use xcf_concordium_facilitat.Worker.{
  SourceKind, fixture, concordium, WorkerConfig, PltSource, WorkerState, Storage,
  resolve_start_cursor, run_worker,
}
use xcf_concordium_facilitat.Source.{
  ConcordiumNodeConfig, Tick, source_of, parse_int_env, node_config_from_env,
}

abbrev bool_of : Bool → Text → Bool
unfolding codes
bool_of default v =
    if includes v (codes "1" ∷ codes "true" ∷ codes "yes" ∷ codes "y" ∷ [])
    then true
    else if includes v (codes "0" ∷ codes "false" ∷ codes "no" ∷ codes "n" ∷ [])
    then false
    else default

-- `parseBoolEnv`
unfoldable pub parse_bool_env : Environment → Text → Bool → Bool
unfolding bool_of trim lower
parse_bool_env env name default = elim (env.variable name) [
  | none ↦ default
  | some raw ↦ if is_empty (trim raw) then default else bool_of default (lower (trim raw))
]

abbrev zero_unless : Option ℤ → ℤ
zero_unless none = pos 0
zero_unless (some v) = v

abbrev height_given : Environment → Option Text → Option ℤ
unfolding trim
height_given env none = none
height_given env (some raw) =
    if is_empty (trim raw) then none else some (zero_unless (env.parse_int raw))

-- `startHeightOverride`
unfoldable pub start_height_override_of : Environment → Option ℤ
unfolding codes parse_bool_env height_given
start_height_override_of env =
    if parse_bool_env env (codes "CRP_STREAM_USE_LAST_HEIGHT_OVERRIDE") false
    then height_given env (env.variable (codes "CRP_STREAM_LAST_HEIGHT"))
    else none

abbrev natural : ℤ → Option ℕ
natural (pos n) = some n
natural (negsuc n) = none

-- A start, where it is no negative number
abbrev natural_start : Option ℤ → Option (Option ℕ)
natural_start none = some none
natural_start (some z) = elim (natural z) [ none ↦ none | some n ↦ some (some n) ]

-- A negative number of ticks is no limit, as 0.
abbrev ticks_of : ℤ → ℕ
ticks_of (pos n) = n
ticks_of (negsuc n) = 0

-- `loadWorkerConfigFromEnv`; `none` for a negative start, guard or rewinding
unfoldable pub load_worker_config_from_env : Environment → Option WorkerConfig
unfolding codes parse_bool_env parse_int_env start_height_override_of
load_worker_config_from_env env = elim (natural_start (start_height_override_of env)) [
  | none ↦ none
  | some start ↦
      elim (natural (parse_int_env env (codes "CRP_STREAM_CURSOR_MAX_AHEAD") (pos 1000))) [
        | none ↦ none
        | some guard ↦
            elim (natural (parse_int_env env (codes "CRP_STREAM_CURSOR_REWIND") (pos 5))) [
              | none ↦ none
              | some rewind ↦ some (record {
                dry_run = parse_bool_env env (codes "CRP_STREAM_DRY_RUN") false;
                start_height_override = start;
                max_ticks = ticks_of (parse_int_env env (codes "CRP_STREAM_MAX_TICKS") (pos 0));
                zero_is_genesis = parse_bool_env env (codes "CRP_STREAM_ZERO_IS_GENESIS") false;
                max_ahead_guard = guard;
                rewind_on_clamp = rewind;
                persist_cursor_in_dry_run =
                    parse_bool_env env (codes "CRP_STREAM_PERSIST_CURSOR_IN_DRY_RUN") false;
              })
            ]
      ]
]

abbrev kind_of : Option Text → SourceKind
unfolding codes
kind_of none = concordium
kind_of (some s) = if text_eq s (codes "fixture") then fixture else concordium

-- `sourceKind`
unfoldable pub source_kind_of : Environment → SourceKind
unfolding codes kind_of
source_kind_of env = kind_of (env.variable (codes "CRP_STREAM_SOURCE"))

-- `buildCursorKeyForConcordium`
unfoldable pub cursor_key_of : Runtime → ConcordiumNodeConfig → Text
unfolding codes
cursor_key_of rt node =
    codes "plt:concordium:"
    ++ node.network
    ++ codes ":"
    ++ rt.text_of_number (whole node.network_genesis_index)
    ++ codes ":"
    ++ node.asset_id
    ++ codes ":"
    ++ node.account_address

-- What the worker meets outside: the fixture at each tick, the proxy and the clock at each tick, and
-- the latest transaction id at the start, `none` where the wallet proxy throws
pub record Outside : Type 0 where
  pub fixture_ticks : List PltSource
  pub proxy_ticks : List Tick
  pub latest : Option ℕ

unfoldable pub start_worker :
    Storage → WorkerConfig → Text → Option ℕ → List PltSource → WorkerState → WorkerState
unfolding resolve_start_cursor run_worker
start_worker st cfg key latest sources s =
    let (start, cursors) = resolve_start_cursor cfg key latest s.cursors in
    run_worker st cfg key 0 sources (record s { last_height_exclusive = start; cursors = cursors })

-- `runDemo`; the state where it throws before the first tick is the given one. The height of the
-- given state is of no account.
unfoldable pub run_demo : Storage → Runtime → Environment → Outside → WorkerState → WorkerState
unfolding codes load_worker_config_from_env source_kind_of node_config_from_env parse_int_env
    cursor_key_of source_of start_worker
run_demo st rt env o s = elim (load_worker_config_from_env env) [
  | none ↦ s
  | some cfg ↦ elim (source_kind_of env) [
    | fixture ↦ start_worker st cfg (codes "plt:fixture") none o.fixture_ticks s
    | concordium ↦ elim (node_config_from_env env) [
      | none ↦ s
      | some node ↦ elim o.latest [
        | none ↦ s
        | some latest ↦
            start_worker st cfg (cursor_key_of rt node) (some latest)
              (map (source_of rt node (parse_int_env env (codes "CRP_STREAM_OVERLAP") (pos 0)))
                o.proxy_ticks)
              s
      ]
    ]
  ]
]
