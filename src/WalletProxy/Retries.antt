-- ===== src/WalletProxy/Retries.antt =====
-- The retries of the wallet proxy's client.
use xcf_concordium_facilitat.Base.{
  ℕ, zero, suc, ◌+◌, ◌-◌, ◌≤◌, ◌<◌, ◌≡◌, ◌⊎◌, refl, sym, true, false, arith, inl, inr, Bool-cases,
  Value, ltb, ltb→lt, ltb_false→le,
}
use mathlib.Core.Path.{subst}
use native.Mathlib.Nat.{two-pow-succ}
use xcf_concordium_facilitat.WalletProxy.{
  WalletProxyConfig, HttpExchange, HttpRuntime, Failure, Answer, answered, failed, answer_of,
  is_transient_failure, compute_backoff_ms, Run, attempt_from, request_with_retry,
}

-- An answer that is not tried again
pub data IsFinal : Answer → Type 0 where
  is_answered : {a : Answer} {body : Value} → a ≡ answered body → IsFinal a
  is_refused :
      {a : Answer} {e : Failure} → a ≡ failed e → is_transient_failure e ≡ false → IsFinal a

-- An answer that may be tried again
pub record IsTransient (a : Answer) : Type 0 where
  pub failure : Failure
  pub failed_so : a ≡ failed failure
  pub transient : is_transient_failure failure ≡ true

compute_backoff_ms-double :
    (attempt : ℕ)
    → 1 ≤ attempt
    → compute_backoff_ms attempt + compute_backoff_ms attempt ≡ compute_backoff_ms (suc attempt)
unfolding compute_backoff_ms
compute_backoff_ms-double zero h = absurd (omega arith)
compute_backoff_ms-double (suc n) h =
    let here : suc n - 1 ≡ n = omega arith in
    let next : suc (suc n) - 1 ≡ suc n = omega arith in
    rw (here, next, two-pow-succ n) (omega arith)

module _ (h : HttpRuntime) (cfg : WalletProxyConfig) (exchange : ℕ → HttpExchange) where
  -- A run ends with the answer of its last exchange, before which all answers are transient, and
  -- after which no attempt is left unless the answer is final.
  pub record IsRun (first last : ℕ) (run : Run) : Type 0 where
    pub started : first ≤ run.requests
    pub bounded : run.requests ≤ last
    pub result : run.result ≡ answer_of h cfg (exchange run.requests)
    pub retried :
        (j : ℕ) → first ≤ j → j < run.requests → IsTransient (answer_of h cfg (exchange j))
    pub exhausted : IsFinal run.result ⊎ (run.requests ≡ last)
    pub slept : run.slept + compute_backoff_ms first ≡ compute_backoff_ms run.requests

  attempt_from-IsRun :
      (left first : ℕ)
      → 1 ≤ first
      → IsRun first (first + left) (attempt_from h cfg exchange left first)
  unfolding attempt_from
  attempt_from-IsRun zero first pos = record {
    started = omega arith;
    bounded = omega arith;
    result = refl;
    retried = λ j low high. absurd (omega arith);
    exhausted = inr (omega arith);
    slept = omega arith;
  }
  attempt_from-IsRun (suc left) first pos =
      go (answer_of h cfg (exchange first)) refl (attempt_from-IsRun left (suc first) (omega arith))
    where
      go :
          (a : Answer)
          → answer_of h cfg (exchange first) ≡ a
          → IsRun (suc first) (suc first + left) (attempt_from h cfg exchange left (suc first))
          → IsRun first (first + suc left) (attempt_from h cfg exchange (suc left) first)
      go (answered body) e rest =
          rw (attempt_from, e)
            (record {
              started = omega arith;
              bounded = omega arith;
              result = sym e;
              retried = λ j low high. absurd (omega arith);
              exhausted = inl (is_answered refl);
              slept = omega arith;
            })
      go (failed failure) e rest = elim (Bool-cases (is_transient_failure failure)) [
        | inr final ↦
            rw (attempt_from, e, final)
              (record {
                started = omega arith;
                bounded = omega arith;
                result = sym e;
                retried = λ j low high. absurd (omega arith);
                exhausted = inl (is_refused refl final);
                slept = omega arith;
              })
        | inl again ↦
            let started = rest.started in
            let bounded = rest.bounded in
            let slept = rest.slept in
            let double = compute_backoff_ms-double first pos in
            rw (attempt_from, e, again)
              (record {
                started = omega arith;
                bounded = omega arith;
                result = rest.result;
                retried = λ j low high. elim (Bool-cases (ltb first j)) [
                  | inl later ↦ rest.retried j (ltb→lt first j later) high
                  | inr now ↦
                      let same : j ≡ first = let l = ltb_false→le first j now in omega arith in
                      subst (λ x. IsTransient (answer_of h cfg (exchange x))) (sym same)
                        (record { failure = failure; failed_so = e; transient = again })
                ];
                exhausted = elim rest.exhausted [
                  | inl final ↦ inl final
                  | inr last ↦ inr (omega arith)
                ];
                slept = omega arith;
              })
      ]

-- A request ends: it makes at least one exchange and at most one more than the configured retries;
-- its result is the answer of the last exchange; every exchange before it failed transiently; it
-- stops before the last attempt only at a success or a failure that is not transient; and it sleeps
-- 250 ms before the second exchange and twice as long before each further one, in all 250 ms less
-- than the wait that would come next.
pub request_with_retry-IsRun :
    (h : HttpRuntime) (cfg : WalletProxyConfig) (exchange : ℕ → HttpExchange)
    → IsRun h cfg exchange 1 (1 + cfg.max_retries) (request_with_retry h cfg exchange)
unfolding request_with_retry
request_with_retry-IsRun h cfg exchange =
    attempt_from-IsRun h cfg exchange cfg.max_retries 1 (omega arith)
