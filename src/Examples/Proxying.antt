-- ===== src/Examples/Proxying.antt =====
-- The wallet proxy's client on a proxy that answers at the second exchange.
use xcf_concordium_facilitat.Base.{ℕ, ◌+◌, ◌≡◌, refl, zero, suc, [], codes}
use xcf_concordium_facilitat.Base.Js.{obj, end, pos}
use xcf_concordium_facilitat.WalletProxy.{
  WalletProxyConfig, HttpExchange, ended, broken, HttpRuntime, parsed, answered, request_with_retry,
}
use xcf_concordium_facilitat.WalletProxy.Retries.{IsRun, request_with_retry-IsRun}
use xcf_concordium_facilitat.Examples.Data.{plain_runtime}

abbrev http : HttpRuntime
http = record { runtime = plain_runtime; parse_json = λ s. parsed (obj end) }

abbrev wallet : WalletProxyConfig
unfolding codes
wallet = record {
  base_url = codes "http://localhost:3000";
  request_timeout_ms = pos 15000;
  max_retries = 2;
}

abbrev once_refused : ℕ → HttpExchange
unfolding codes
once_refused zero = broken []
once_refused (suc zero) = broken (codes "connect ECONNREFUSED")
once_refused (suc (suc n)) = ended 200 (codes "{}")

answers_at_second :
    request_with_retry http wallet once_refused
    ≡ record { result = answered (obj end); requests = 2; slept = 250 }
unfolding request_with_retry
answers_at_second = refl

request_with_retry-IsRun_example :
    IsRun http wallet once_refused 1
      (1 + wallet.max_retries)
      (request_with_retry http wallet once_refused)
request_with_retry-IsRun_example = request_with_retry-IsRun http wallet once_refused
