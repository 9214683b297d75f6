-- ===== src/Payments/Services.antt =====
-- What the payment routes take from outside of the repository: the JavaScript runtime, the process
-- environment, the HTTP client, the reading of a timestamp by Postgres, and the signature.
use xcf_concordium_facilitat.Base.{ℕ, Option, Text, Runtime, ℤ}
use xcf_concordium_facilitat.Store.{Challenge, Proof}
use xcf_concordium_facilitat.Store.Assets.{get_default_network_genesis_index}
use xcf_concordium_facilitat.Webhook.{Environment, Exchange}

pub record Services : Type 0 where
  pub runtime : Runtime
  pub env : Environment
  -- CRP_DEFAULT_NETWORK_GENESIS_INDEX
  pub genesis_setting : Option Text
  pub send : Text → Challenge → Exchange
  -- a `timestamptz` in milliseconds; `none` where Postgres refuses the text
  pub parse_timestamp : Text → Option ℕ
  pub sign_jws : Proof → Text
  -- `currentKid()`
  pub current_kid : Text

abbrev pub default_genesis : Services → ℤ
default_genesis sv = get_default_network_genesis_index sv.runtime sv.genesis_setting
