-- ===== src/Readiness.antt =====
-- src/http/readyz.ts and src/metrics/registry.ts: GET /readyz, which asks the database and, unless it
-- is switched off, the wallet proxy, and counts what it has found. What the two exchanges come to
-- is a parameter.
pub mod Counters
use xcf_concordium_facilitat.Base.{
  ℕ, suc, ◌++◌, Bool, true, false, not, ◌&&◌, ◌||◌, Option, none, some, List, [], ◌∷◌,
  if◌then◌else◌, ltb, leb, take, Text, codes, includes, Num, Runtime, Environment,
}
use xcf_concordium_facilitat.Base.Js.{whole, pos}

pub record ReadyzMetrics : Type 0 where
  pub total_checks : ℕ
  pub success : ℕ
  pub db_failures : ℕ
  pub wallet_proxy_failures : ℕ

abbrev increment_total_checks : ReadyzMetrics → ReadyzMetrics
increment_total_checks m = record m { total_checks = suc m.total_checks }

abbrev increment_success : ReadyzMetrics → ReadyzMetrics
increment_success m = record m { success = suc m.success }

abbrev increment_db_failures : ReadyzMetrics → ReadyzMetrics
increment_db_failures m = record m { db_failures = suc m.db_failures }

abbrev increment_wallet_proxy_failures : ReadyzMetrics → ReadyzMetrics
increment_wallet_proxy_failures m = record m { wallet_proxy_failures = suc m.wallet_proxy_failures }

-- What connecting to a database and `SELECT 1` come to: success, or an error with its message
pub data DbReply : Type 0 where
  selected : DbReply
  db_error : Option Text → DbReply

-- What GET /v0/health comes to: a response that has ended, an error, the timeout, a bad URL
pub data HealthReply : Type 0 where
  health_response : Option ℕ → Text → HealthReply
  health_error : Option Text → HealthReply
  health_timeout : HealthReply
  health_bad_url : Option Text → HealthReply

pub record CheckResult : Type 0 where
  pub ok : Bool
  pub reason : Option Text

abbrev message_or : Text → Option Text → Text
message_or default none = default
message_or default (some s) = s

abbrev failed_check : Text → CheckResult
failed_check reason = record { ok = false; reason = some reason }

-- `checkDb`
unfoldable pub check_db : DbReply → CheckResult
unfolding codes
check_db selected = record { ok = true; reason = none }
check_db (db_error message) = failed_check (message_or (codes "db_error") message)

-- `checkWalletProxyHealth`
unfoldable pub check_wallet_proxy_health : Runtime → HealthReply → CheckResult
unfolding codes
check_wallet_proxy_health rt (health_response none body) = failed_check (codes "no_status_code")
check_wallet_proxy_health rt (health_response (some status) body) =
    if leb 200 status && ltb status 300
    then record { ok = true; reason = none }
    else failed_check
        (codes "http_" ++ rt.text_of_number (whole (pos status)) ++ codes ": " ++ take 200 body)
check_wallet_proxy_health rt (health_error message) =
    failed_check (message_or (codes "wallet_proxy_error") message)
check_wallet_proxy_health rt health_timeout = failed_check (codes "timeout")
check_wallet_proxy_health rt (health_bad_url message) =
    failed_check (message_or (codes "wallet_proxy_url_error") message)

-- `walletProxyEnabled`
unfoldable pub wallet_proxy_enabled : Environment → Bool
unfolding codes
wallet_proxy_enabled env = elim (env.variable (codes "READYZ_CHECK_WALLET_PROXY")) [
  | none ↦ true
  | some s ↦ not (includes s (codes "0" ∷ codes "false" ∷ codes "False" ∷ []))
]

-- The status code and the body of the answer
pub record ReadyzResponse : Type 0 where
  pub code : ℕ
  pub ok : Bool
  pub db_ok : Bool
  pub wallet_proxy_ok : Bool
  pub db_details : Text
  pub wallet_proxy_details : Text

-- The databases and proxies as a check finds them, by URL, and the proxy's timeout
pub record Surroundings : Type 0 where
  pub environment : Environment
  pub database : Text → DbReply
  pub wallet_proxy : Text → Num → HealthReply

abbrev detail_of : CheckResult → Text → Text
unfolding codes
detail_of r default = if r.ok then codes "ok" else message_or default r.reason

unfoldable pub db_result : Surroundings → CheckResult
unfolding codes check_db
db_result s = check_db (
    s.database (
      message_or (codes "postgres://postgres:pg@127.0.0.1:5432/postgres")
        (s.environment.variable (codes "DATABASE_URL"))))

abbrev timeout_of : Runtime → Option Text → Num
timeout_of rt none = whole (pos 3000)
timeout_of rt (some s) = rt.number_of_text s

-- `wpResult`
unfoldable pub wallet_proxy_result : Runtime → Surroundings → CheckResult
unfolding codes check_wallet_proxy_health wallet_proxy_enabled
wallet_proxy_result rt s =
    if wallet_proxy_enabled s.environment
    then check_wallet_proxy_health rt (
        s.wallet_proxy
          (message_or (codes "http://localhost:3000")
            (s.environment.variable (codes "WALLET_PROXY_BASE_URL")))
          (timeout_of rt (s.environment.variable (codes "READYZ_WALLET_PROXY_TIMEOUT_MS"))))
    else record { ok = true; reason = some (codes "skipped") }

abbrev count_check : Bool → Bool → Bool → Bool → ReadyzMetrics → ReadyzMetrics
count_check db_ok enabled proxy_ok overall m =
    let started = increment_total_checks m in
    let asked = if db_ok then started else increment_db_failures started in
    let probed = if enabled && not proxy_ok then increment_wallet_proxy_failures asked else asked in
    if overall then increment_success probed else probed

-- 503 unless all is well
abbrev pub verdict_code : Bool → ℕ
verdict_code ok = if ok then 200 else 503

-- The handler of GET /readyz
unfoldable pub readyz : Runtime → Surroundings → ReadyzMetrics → ReadyzResponse × ReadyzMetrics
unfolding codes db_result wallet_proxy_result wallet_proxy_enabled
readyz rt s m =
    let db = db_result s in
    let enabled = wallet_proxy_enabled s.environment in
    let proxy = wallet_proxy_result rt s in
    let overall = db.ok && (not enabled || proxy.ok) in
    (
      record {
        code = verdict_code overall;
        ok = overall;
        db_ok = db.ok;
        wallet_proxy_ok = if enabled then proxy.ok else true;
        db_details = detail_of db (codes "db_unavailable");
        wallet_proxy_details =
            if enabled then detail_of proxy (codes "wallet_proxy_unavailable") else codes "skipped";
      },
      count_check db.ok enabled proxy.ok overall m,
    )

-- The checks that a server answers, one after the other
unfoldable pub run_checks :
    Runtime → List Surroundings → ReadyzMetrics → List ReadyzResponse × ReadyzMetrics
unfolding readyz
run_checks rt [] m = ([], m)
run_checks rt (s ∷ ss) m =
    let (response, counted) = readyz rt s m in
    let (rest, last) = run_checks rt ss counted in (response ∷ rest, last)
