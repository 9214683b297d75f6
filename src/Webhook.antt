-- ===== src/Webhook.antt =====
-- src/webhook.ts: the webhook of a merchant is named by an environment variable; a payment is posted
-- there and the result of the exchange is reported.
pub mod Keys
pub mod Delivery
use xcf_concordium_facilitat.Base.{
  ℕ, ◌-◌, Bool, true, false, not, ◌&&◌, ◌||◌, Option, none, some, List, [], ◌∷◌, ◌++◌,
  if◌then◌else◌, is_empty, leb, ltb, ◌==◌, Text, codes, trim, Runtime,
}
use xcf_concordium_facilitat.Store.{Challenge}

-- `CrpWebhookResult`
pub record WebhookResult : Type 0 where
  pub configured : Bool
  pub attempted : Bool
  pub ok : Bool
  pub status : Option ℕ
  pub error : Option Text

-- `[A-Z0-9]`
unfoldable pub is_key_unit : ℕ → Bool
is_key_unit c = leb b'A' c && leb c b'Z' || leb b'0' c && leb c b'9'

-- `toUpperCase` of one code unit
unfoldable pub upper_unit : Runtime → ℕ → Text
upper_unit rt c =
    if leb 128 c
    then rt.upper_of_wide c
    else if leb b'a' c && leb c b'z'
    then (c - 32) ∷ []
    else c ∷ []

unfoldable pub upper : Runtime → Text → Text
unfolding upper_unit
upper rt [] = []
upper rt (c ∷ s) = upper_unit rt c ++ upper rt s

-- `.replace(/[^A-Z0-9]+/g, "_")`; the flag says that the last code unit was replaced.
unfoldable pub collapse : Bool → Text → Text
unfolding is_key_unit
collapse in_run [] = []
collapse in_run (c ∷ s) =
    let inside = collapse true s in
    let outside = collapse false s in
    if is_key_unit c then c ∷ outside else if in_run then inside else b'_' ∷ inside

unfoldable pub strip_start : Text → Text
strip_start [] = []
strip_start (c ∷ s) = let rest = strip_start s in if c == b'_' then rest else c ∷ s

abbrev cons_unless_last : ℕ → Text → Text
cons_unless_last c [] = if c == b'_' then [] else c ∷ []
cons_unless_last c (d ∷ s) = c ∷ d ∷ s

unfoldable pub strip_end : Text → Text
strip_end [] = []
strip_end (c ∷ s) = cons_unless_last c (strip_end s)

-- `merchantIdToEnvKey`
unfoldable pub merchant_id_to_env_key : Runtime → Text → Text
unfolding upper collapse strip_start strip_end codes
merchant_id_to_env_key rt merchant_id =
    codes "CRP_WEBHOOK_URL_" ++ strip_end (strip_start (collapse false (upper rt merchant_id)))

-- The process environment
abbrev pub Environment : Type 0
Environment = Text → Option Text

abbrev present_url : Option Text → Option Text
present_url none = none
present_url (some url) = if is_empty (trim url) then none else some (trim url)

-- `getWebhookUrlForMerchant`
unfoldable pub get_webhook_url_for_merchant : Runtime → Environment → Text → Option Text
unfolding merchant_id_to_env_key
get_webhook_url_for_merchant rt env merchant_id =
    present_url (env (merchant_id_to_env_key rt merchant_id))

-- How an HTTP exchange ends: a response with its status code, an error with its message (of the
-- connection, the URL or the serialization), or the timeout.
pub data Exchange : Type 0 where
  response : Option ℕ → Exchange
  failed : Text → Exchange
  timed_out : Exchange

abbrev pub not_configured : WebhookResult
not_configured = record {
  configured = false;
  attempted = false;
  ok = false;
  status = none;
  error = none;
}

abbrev status_or_zero : Option ℕ → ℕ
status_or_zero none = 0
status_or_zero (some n) = n

abbrev attempt : Bool → Option ℕ → Option Text → WebhookResult
attempt ok status error = record {
  configured = true;
  attempted = true;
  ok = ok;
  status = status;
  error = error;
}

unfoldable pub result_of : Exchange → WebhookResult
unfolding codes
result_of (response code) =
    let status = status_or_zero code in
    attempt (leb 200 status && ltb status 300) (some status) none
result_of (failed message) = attempt false none (some message)
result_of timed_out = attempt false none (some (codes "timeout"))

-- `postPaymentWebhook`; `send` is the HTTP POST of a payment to a URL.
unfoldable pub post_payment_webhook :
    Runtime → Environment → (Text → Challenge → Exchange) → Text → Challenge → WebhookResult
unfolding get_webhook_url_for_merchant result_of
post_payment_webhook rt env send merchant_id payment =
    elim (get_webhook_url_for_merchant rt env merchant_id) [
      | none ↦ not_configured
      | some url ↦ result_of (send url payment)
    ]
