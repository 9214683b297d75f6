-- ===== src/WalletProxy.antt =====
-- src/services/walletProxyClient.ts and src/config/walletProxy.ts: the client of the wallet proxy,
-- with its retries. The HTTP exchange, JSON.parse and the URL's encoding are parameters.
pub mod Retries
use xcf_concordium_facilitat.Base.{
  ℕ, zero, suc, ◌+◌, ◌-◌, ◌*◌, ◌^◌, ◌++◌, Bool, true, false, not, ◌&&◌, ◌||◌, Option, none, some,
  List, [], ◌∷◌, if◌then◌else◌, ltb, leb, ◌==◌, is_empty, any, Text, codes, contains, lower, trim,
  ℤ, Num, Value, Items, Runtime, Environment, finite_floor, get, to_string, as_natural,
}
use xcf_concordium_facilitat.Base.Js.{
  pos, negsuc, whole, undefined, null, num, str, arr, obj, nil, cons,
}
use xcf_concordium_facilitat.Source.{Proxy, TransactionsParams}

pub record WalletProxyConfig : Type 0 where
  pub base_url : Text
  pub request_timeout_ms : ℤ
  pub max_retries : ℕ

-- `WalletProxyConfigError`: a variable that is no integer, with its value, or negative retries
pub data ConfigError : Type 0 where
  not_integer : Text → Text → ConfigError
  negative_retries : ℤ → ConfigError

pub data Configured (A : Type 0) : Type 0 where
  configured : A → Configured A
  refused : ConfigError → Configured A

abbrev int_or_error : Text → Text → Option ℤ → Configured ℤ
int_or_error name raw none = refused (not_integer name raw)
int_or_error name raw (some v) = configured v

-- `parseIntegerEnv`
unfoldable pub parse_integer_env : Environment → Text → ℤ → Configured ℤ
unfolding trim
parse_integer_env env name default = elim (env.variable name) [
  | none ↦ configured default
  | some raw ↦
      if is_empty (trim raw) then configured default else int_or_error name raw (env.parse_int raw)
]

-- `normalizeBaseUrl`: one slash at the end is dropped.
unfoldable pub normalize_base_url : Text → Text
normalize_base_url [] = []
normalize_base_url (c ∷ []) = if c == b'/' then [] else c ∷ []
normalize_base_url (c ∷ d ∷ s) = c ∷ normalize_base_url (d ∷ s)

abbrev nonempty_or : Text → Text → Text
nonempty_or default [] = default
nonempty_or default (c ∷ s) = c ∷ s

abbrev trimmed_or_empty : Option Text → Text
unfolding trim
trimmed_or_empty none = []
trimmed_or_empty (some s) = trim s

abbrev checked_retries : Text → ℤ → ℤ → Configured WalletProxyConfig
checked_retries base_url timeout (negsuc n) = refused (negative_retries (negsuc n))
checked_retries base_url timeout (pos n) =
    configured (record { base_url = base_url; request_timeout_ms = timeout; max_retries = n })

-- `getWalletProxyConfigFromEnv`
unfoldable pub wallet_proxy_config_from_env : Environment → Configured WalletProxyConfig
unfolding codes normalize_base_url parse_integer_env trimmed_or_empty
wallet_proxy_config_from_env env =
    let base_url = normalize_base_url (
      nonempty_or (codes "http://localhost:3000")
        (trimmed_or_empty (env.variable (codes "WALLET_PROXY_BASE_URL")))) in
    elim (parse_integer_env env (codes "WALLET_PROXY_TIMEOUT_MS") (pos 15000)) [
      | refused e ↦ refused e
      | configured timeout ↦
          elim (parse_integer_env env (codes "WALLET_PROXY_MAX_RETRIES") (pos 2)) [
            | refused e ↦ refused e
            | configured retries ↦ checked_retries base_url timeout retries
          ]
    ]

-- `WalletProxyRequestError`; a body that is not given is `undefined`.
pub record RequestError : Type 0 where
  pub message : Text
  pub status_code : Option ℕ
  pub response_body : Value

abbrev is_server_error : Option ℕ → Bool
is_server_error none = false
is_server_error (some status) = leb 500 status && leb status 599

abbrev transient_message : Text → Bool
unfolding codes contains
transient_message msg =
    any (λ p. contains p msg)
      (codes "econnrefused"
        ∷ codes "econnreset"
        ∷ codes "etimedout"
        ∷ codes "timeout"
        ∷ codes "timed out"
        ∷ codes "socket hang up"
        ∷ codes "enotfound"
        ∷ [])

abbrev transient_body : Value → Bool
unfolding codes contains lower
transient_body (str s) =
    let msg = lower s in
    contains (codes "overloaded") msg
    || contains (codes "timeout") msg
    || contains (codes "timed out") msg
transient_body v = false

-- `isTransient`
unfoldable pub is_transient : RequestError → Bool
unfolding codes lower transient_message transient_body
is_transient e =
    is_server_error e.status_code
    || transient_message (lower e.message)
    || transient_body (get e.response_body (codes "errorMessage"))

-- What one HTTP request comes to: it ends with a status and its data, fails with an error's message,
-- runs into the timeout, or cannot be started.
pub data HttpExchange : Type 0 where
  ended : ℕ → Text → HttpExchange
  broken : Text → HttpExchange
  timed_out : HttpExchange
  unstarted : Text → HttpExchange

-- `JSON.parse`
pub data Parsed : Type 0 where
  parsed : Value → Parsed
  malformed : Text → Parsed

pub record HttpRuntime : Type 0 where
  pub runtime : Runtime
  pub parse_json : Text → Parsed

-- What a caught error is: one of the client's own, or another
pub data Failure : Type 0 where
  request_error : RequestError → Failure
  other_error : Text → Failure

pub data Answer : Type 0 where
  answered : Value → Answer
  failed : Failure → Answer

abbrev failing : Text → Option ℕ → Value → Answer
failing message status body =
    failed
      (request_error (record { message = message; status_code = status; response_body = body }))

abbrev status_message : Runtime → ℕ → Value → Text
unfolding codes
status_message rt status (str s) =
    codes "Wallet-proxy returned HTTP " ++ rt.text_of_number (whole (pos status)) ++ codes ": " ++ s
status_message rt status v =
    codes "Wallet-proxy returned HTTP " ++ rt.text_of_number (whole (pos status))

abbrev reported_error : Runtime → ℕ → Value → Value → Value → Answer
unfolding codes
reported_error rt status body (num n) (str s) =
    failing (codes "Wallet-proxy error " ++ rt.text_of_number n ++ codes ": " ++ s) (some status)
      body
reported_error rt status body error message = answered body

-- The test of a response, inside `requestWithRetry`
unfoldable pub check_response : Runtime → ℕ → Value → Answer
unfolding codes status_message reported_error
check_response rt status body =
    if ltb status 200 || leb 300 status
    then failing (status_message rt status (get body (codes "errorMessage"))) (some status) body
    else reported_error rt status body (get body (codes "error")) (get body (codes "errorMessage"))

abbrev parsed_answer : HttpRuntime → ℕ → Text → Parsed → Answer
unfolding codes check_response
parsed_answer h status text (parsed body) = check_response h.runtime status body
parsed_answer h status text (malformed message) =
    failing (codes "Failed to parse wallet-proxy JSON response: " ++ message) (some status)
      (str text)

-- `httpGetJson` and the test of what it gives. A timeout destroys the request with an error, which
-- comes back as the message of a failed request.
unfoldable pub answer_of : HttpRuntime → WalletProxyConfig → HttpExchange → Answer
unfolding codes check_response parsed_answer
answer_of h cfg (ended status []) = check_response h.runtime status null
answer_of h cfg (ended status (c ∷ s)) = parsed_answer h status (c ∷ s) (h.parse_json (c ∷ s))
answer_of h cfg (broken message) =
    failing (codes "Wallet-proxy request failed: " ++ message) none undefined
answer_of h cfg timed_out =
    failing
      (codes "Wallet-proxy request failed: "
        ++ codes "Wallet-proxy request timed out after "
        ++ h.runtime.text_of_number (whole cfg.request_timeout_ms)
        ++ codes "ms.")
      none undefined
answer_of h cfg (unstarted message) = failed (other_error message)

abbrev pub is_transient_failure : Failure → Bool
unfolding is_transient
is_transient_failure (request_error e) = is_transient e
is_transient_failure (other_error message) = true

-- `computeBackoffMs`
unfoldable pub compute_backoff_ms : ℕ → ℕ
compute_backoff_ms attempt = 250 * 2 ^ (attempt - 1)

-- How a request ends, the number of exchanges made, and the milliseconds slept between them
pub record Run : Type 0 where
  pub result : Answer
  pub requests : ℕ
  pub slept : ℕ

abbrev slept_before : ℕ → Run → Run
slept_before ms run = record run { slept = ms + run.slept }

-- The loop of `requestWithRetry` from one attempt on, with `left` attempts after it; `exchange` is
-- what each attempt comes to.
unfoldable pub attempt_from : HttpRuntime → WalletProxyConfig → (ℕ → HttpExchange) → ℕ → ℕ → Run
unfolding answer_of is_transient_failure compute_backoff_ms
attempt_from h cfg exchange zero attempt = record {
  result = answer_of h cfg (exchange attempt);
  requests = attempt;
  slept = 0;
}
attempt_from h cfg exchange (suc left) attempt =
    let rest = attempt_from h cfg exchange left (suc attempt) in
    elim (answer_of h cfg (exchange attempt)) [
      | answered body ↦ record { result = answered body; requests = attempt; slept = 0 }
      | failed e ↦
          if is_transient_failure e
          then slept_before (compute_backoff_ms attempt) rest
          else record { result = failed e; requests = attempt; slept = 0 }
    ]

-- `requestWithRetry`: `maxAttempts` is `Math.max(1, maxRetries + 1)`.
unfoldable pub request_with_retry : HttpRuntime → WalletProxyConfig → (ℕ → HttpExchange) → Run
unfolding attempt_from
request_with_retry h cfg exchange = attempt_from h cfg exchange cfg.max_retries 1

-- `GetAccountTransactionsParams`; `from` is a number or a string.
pub record GetAccountTransactionsParams : Type 0 where
  pub limit : Option Num
  pub descending : Option Bool
  pub from : Option Value
  pub block_time_from : Option Num
  pub block_time_to : Option Num
  pub include_rewards : Option Text

abbrev set_finite : Runtime → Text → Option Num → List (Text × Text) → List (Text × Text)
set_finite rt name none rest = rest
set_finite rt name (some n) rest = elim (finite_floor n) [
  | none ↦ rest
  | some z ↦ (name, rt.text_of_number n) ∷ rest
]

abbrev set_order : Option Bool → List (Text × Text) → List (Text × Text)
unfolding codes
set_order none rest = rest
set_order (some descending) rest =
    (codes "order", if descending then codes "d" else codes "a") ∷ rest

abbrev set_from : Runtime → Option Value → List (Text × Text) → List (Text × Text)
unfolding codes to_string
set_from rt none rest = rest
set_from rt (some v) rest = (codes "from", to_string rt v) ∷ rest

abbrev set_rewards : Option Text → List (Text × Text)
unfolding codes
set_rewards none = []
set_rewards (some s) = if is_empty s then [] else (codes "includeRewards", s) ∷ []

-- The query of `buildAccTransactionsUrl`
unfoldable pub query_of : Runtime → GetAccountTransactionsParams → List (Text × Text)
unfolding codes set_order set_from set_rewards
query_of rt p = set_finite rt (codes "limit") p.limit (
    set_order p.descending (
      set_from rt p.from (
        set_finite rt (codes "blockTimeFrom") p.block_time_from
          (set_finite rt (codes "blockTimeTo") p.block_time_to (set_rewards p.include_rewards)))))

-- The URL /v3/accTransactions/{account} at a base, before it is encoded
pub record TransactionsUrl : Type 0 where
  pub base_url : Text
  pub account : Text
  pub query : List (Text × Text)

abbrev config_message : HttpRuntime → ConfigError → Text
unfolding codes
config_message h (not_integer name raw) =
    codes "Environment variable "
    ++ name
    ++ codes " must be an integer (got \""
    ++ raw
    ++ codes "\")."
config_message h (negative_retries n) =
    codes "WALLET_PROXY_MAX_RETRIES must be >= 0 (got "
    ++ h.runtime.text_of_number (whole n)
    ++ codes ")."

-- `getAccountTransactions`; `exchange` is what each attempt at a URL comes to.
unfoldable pub get_account_transactions :
    HttpRuntime
    → Environment
    → (TransactionsUrl → ℕ → HttpExchange)
    → Text
    → GetAccountTransactionsParams
    → Answer
unfolding codes trim wallet_proxy_config_from_env query_of request_with_retry config_message
get_account_transactions h env exchange account params =
    if is_empty (trim account)
    then failing (codes "Account address must be a non-empty string.") none undefined
    else elim (wallet_proxy_config_from_env env) [
      | refused e ↦
          failing (codes "Wallet-proxy config error: " ++ config_message h e) none undefined
      | configured cfg ↦
          (request_with_retry h cfg (
            exchange (record {
              base_url = cfg.base_url;
              account = account;
              query = query_of h.runtime params;
            }))).result
    ]

abbrev id_or_zero : Value → ℕ
id_or_zero (num (whole (pos n))) = n
id_or_zero v = 0

abbrev first_id : Value → ℕ
unfolding codes
first_id (arr (cons tx txs)) = id_or_zero (get tx (codes "id"))
first_id v = 0

abbrev latest_id : Value → Option ℕ
unfolding codes first_id
latest_id undefined = none
latest_id null = none
latest_id v = some (first_id (get v (codes "transactions")))

-- `getLatestAccountTransactionId`, for natural ids; `none` where it throws, also on an empty body
unfoldable pub get_latest_account_transaction_id :
    HttpRuntime → Environment → (TransactionsUrl → ℕ → HttpExchange) → Text → Option ℕ
unfolding codes get_account_transactions latest_id
get_latest_account_transaction_id h env exchange account =
    elim (get_account_transactions h env exchange account (record {
      limit = some (whole (pos 1));
      descending = some true;
      from = none;
      block_time_from = none;
      block_time_to = none;
      include_rewards = some (codes "none");
    })) [ answered body ↦ latest_id body | failed e ↦ none ]

-- The client as the source of the worker calls it
unfoldable pub account_proxy :
    HttpRuntime → Environment → (TransactionsUrl → ℕ → HttpExchange) → Proxy
unfolding codes get_account_transactions
account_proxy h env exchange account p =
    elim (get_account_transactions h env exchange account (record {
      limit = some (whole (pos p.limit));
      descending = some false;
      from = some (num (whole (pos p.from)));
      block_time_from = none;
      block_time_to = none;
      include_rewards = some (codes "none");
    })) [ answered body ↦ some body | failed e ↦ none ]
