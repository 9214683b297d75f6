-- ===== src/Readiness/Counters.antt =====
-- The verdict of GET /readyz and its counters.
use xcf_concordium_facilitat.Base.{
  ◌+◌, ◌≡◌, ◌↔◌, Bool, true, false, not, ◌&&◌, ◌||◌, List, [], ◌∷◌, arith, length, keep, All,
  if◌then◌else◌, Runtime,
}
use xcf_concordium_facilitat.Readiness.{
  ReadyzMetrics, db_result, wallet_proxy_result, wallet_proxy_enabled, ReadyzResponse, Surroundings,
  readyz, run_checks, verdict_code,
}

-- The answers that report a state
abbrev pub is_ready : ReadyzResponse → Bool
is_ready r = r.ok

abbrev pub is_db_down : ReadyzResponse → Bool
is_db_down r = not r.db_ok

abbrev pub is_proxy_down : ReadyzResponse → Bool
is_proxy_down r = not r.wallet_proxy_ok

-- How the counters stand against the answers given since they stood at `before`
pub record IsCounted (before : ReadyzMetrics) (answers : List ReadyzResponse) (m : ReadyzMetrics)
    : Type 0 where
  pub total_checks : m.total_checks ≡ before.total_checks + length answers
  pub success : m.success ≡ before.success + length (keep is_ready answers)
  pub db_failures : m.db_failures ≡ before.db_failures + length (keep is_db_down answers)
  pub wallet_proxy_failures :
      m.wallet_proxy_failures ≡ before.wallet_proxy_failures + length (keep is_proxy_down answers)

-- The code says whether both dependencies are reported as up.
pub record IsVerdict (r : ReadyzResponse) : Type 0 where
  pub ready : (r.code ≡ 200) ↔ ((r.db_ok ≡ true) × (r.wallet_proxy_ok ≡ true))
  pub not_ready : (r.code ≡ 503) ↔ (r.ok ≡ false)

ready_code :
    (d e p : Bool)
    → (verdict_code (d && (not e || p)) ≡ 200) ↔ ((d ≡ true) × ((if e then p else true) ≡ true))
ready_code d e p = (λ h. (ground arith, ground arith), λ (x, y). ground arith)

not_ready_code : (b : Bool) → (verdict_code b ≡ 503) ↔ (b ≡ false)
not_ready_code b = (λ h. ground arith, λ h. ground arith)

readyz-IsVerdict :
    (rt : Runtime) (s : Surroundings) (m : ReadyzMetrics) → IsVerdict (readyz rt s m).0
unfolding readyz
readyz-IsVerdict rt s m = record {
  ready =
      ready_code (db_result s).ok (wallet_proxy_enabled s.environment)
        (wallet_proxy_result rt s).ok;
  not_ready = not_ready_code _;
}

readyz-IsCounted :
    (rt : Runtime) (s : Surroundings) (m : ReadyzMetrics)
    → IsCounted m ((readyz rt s m).0 ∷ []) (readyz rt s m).1
unfolding readyz
readyz-IsCounted rt s m = record {
  total_checks = ground arith;
  success = ground arith;
  db_failures = ground arith;
  wallet_proxy_failures = ground arith;
}

IsCounted-cons :
    (a b c : ReadyzMetrics) (r : ReadyzResponse) (rs : List ReadyzResponse)
    → IsCounted a (r ∷ []) b
    → IsCounted b rs c
    → IsCounted a (r ∷ rs) c
IsCounted-cons a b c r rs f g = record {
  total_checks = let x = f.total_checks in let y = g.total_checks in ground arith;
  success = let x = f.success in let y = g.success in ground arith;
  db_failures = let x = f.db_failures in let y = g.db_failures in ground arith;
  wallet_proxy_failures =
      let x = f.wallet_proxy_failures in let y = g.wallet_proxy_failures in ground arith;
}

run_checks-IsCounted' :
    (rt : Runtime) (ss : List Surroundings) (m : ReadyzMetrics)
    → IsCounted m (run_checks rt ss m).0 (run_checks rt ss m).1
unfolding run_checks
run_checks-IsCounted' rt [] m = record {
  total_checks = omega arith;
  success = omega arith;
  db_failures = omega arith;
  wallet_proxy_failures = omega arith;
}
run_checks-IsCounted' rt (s ∷ ss) m =
    IsCounted-cons m (readyz rt s m).1 (run_checks rt ss (readyz rt s m).1).1 (readyz rt s m).0
      (run_checks rt ss (readyz rt s m).1).0 (readyz-IsCounted rt s m)
      (run_checks-IsCounted' rt ss (readyz rt s m).1)

run_checks-verdicts :
    (rt : Runtime) (ss : List Surroundings) (m : ReadyzMetrics)
    → All IsVerdict (run_checks rt ss m).0
unfolding run_checks
run_checks-verdicts rt [] m = tt
run_checks-verdicts rt (s ∷ ss) m =
    (readyz-IsVerdict rt s m, run_checks-verdicts rt ss (readyz rt s m).1)

-- The readiness of a server: each answer of a sequence of checks has the code 200 if and only if it
-- reports the database and the wallet proxy as up, and else 503; and the counters have grown by the
-- number of the answers, of those that are ready, of those that report the database as down, and of
-- those that report the wallet proxy as down.
pub run_checks-IsCounted :
    (rt : Runtime) (ss : List Surroundings) (m : ReadyzMetrics)
    → All IsVerdict (run_checks rt ss m).0
      × IsCounted m (run_checks rt ss m).0 (run_checks rt ss m).1
run_checks-IsCounted rt ss m = (run_checks-verdicts rt ss m, run_checks-IsCounted' rt ss m)
