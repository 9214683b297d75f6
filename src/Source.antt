-- ===== src/Source.antt =====
-- src/worker/pltSource.concordium.ts: the source of the stream worker that reads an account's
-- transactions from the wallet proxy. The proxy (src/services/walletProxyClient.ts) is a parameter.
-- Transaction ids and block heights are natural numbers: another number as an id counts as no id,
-- and as a height as 0. What is only logged is left out.
pub mod Coverage
pub mod Fetching
pub mod Complete
pub mod Soundness
pub mod Windows
pub mod Stall
pub mod Fixture
pub mod Pages
pub mod Progress
use xcf_concordium_facilitat.Base.{
  ℕ, ◌-◌, ◌++◌, Bool, true, false, not, ◌&&◌, ◌||◌, Option, none, some, List, [], ◌∷◌,
  if◌then◌else◌, ltb, is_empty, length, take, drop, keep, Text, codes, text_eq, trim, starts_with,
  ℤ, Num, Value, Items, Runtime, Environment, int_or, get, coalesce, is_undefined, to_string,
  to_number, as_natural,
}
use xcf_concordium_facilitat.Base.Js.{pos, negsuc, whole, nil, cons, arr, str, num, undefined, null}
use xcf_concordium_facilitat.Store.{PltEvent}
use xcf_concordium_facilitat.Worker.{PltSource, PltSourceResult}

pub record ConcordiumNodeConfig : Type 0 where
  pub account_address : Text
  pub network : Text
  pub network_genesis_index : ℤ
  pub asset_id : Text

-- The parameters with which the proxy is asked; the order is ascending, without rewards.
pub record TransactionsParams : Type 0 where
  pub from : ℕ
  pub limit : ℕ

-- `getAccountTransactions` at one time; `none` where it throws.
abbrev pub Proxy : Type 0
Proxy = Text → TransactionsParams → Option Value

-- `new Date()` and `new Date(s * 1000)`, in milliseconds; the second is `none` where `s` is not
-- finite.
pub record Clock : Type 0 where
  pub now : ℕ
  pub of_seconds : Num → Option ℕ

-- `typeof tx?.id === "number" && Number.isFinite(tx.id) ? tx.id : null`
abbrev id_of : Value → Option ℕ
id_of (num n) = as_natural n
id_of v = none

unfoldable pub tx_id : Value → Option ℕ
unfolding codes
tx_id tx = id_of (get tx (codes "id"))

abbrev pub items : Items → List Value
items nil = []
items (cons v vs) = v ∷ items vs

-- What `for (const tx of resp?.transactions ?? [])` goes through; `none` where it throws, or
-- `txs.filter` does.
abbrev iterate : Value → Option (List Value)
iterate undefined = some []
iterate null = some []
iterate (arr vs) = some (items vs)
iterate v = none

unfoldable pub transactions_of : Value → Option (List Value)
unfolding codes
transactions_of resp = iterate (get resp (codes "transactions"))

abbrev pub greater : ℕ → Option ℕ → ℕ
greater best none = best
greater best (some id) = if ltb best id then id else best

-- `bestHeight`: the greatest id observed, at least where the loop began
unfoldable pub best_of : ℕ → List Value → ℕ
unfolding tx_id
best_of best [] = best
best_of best (tx ∷ txs) = best_of (greater best (tx_id tx)) txs

abbrev above : ℕ → Option ℕ → Bool
above last none = false
above last (some id) = ltb last id

-- `id !== null && id > lastHeightExclusive`
unfoldable pub is_new : ℕ → Value → Bool
unfolding tx_id
is_new last tx = above last (tx_id tx)

abbrev text_or_empty : Value → Text
text_or_empty (str s) = s
text_or_empty v = []

abbrev text_or_null : Value → Option Text
text_or_null (str s) = some s
text_or_null v = none

-- `details?.[key]`, for `details = tx?.details ?? {}`
unfoldable pub detail : Value → Text → Value
unfolding codes
detail tx key = get (get tx (codes "details")) key

-- `tokenAmountValue`
unfoldable pub token_amount_value : Runtime → Value → Text
unfolding codes detail to_string
token_amount_value rt tx =
    let value = get (detail tx (codes "tokenTransferAmount")) (codes "value") in
    if is_undefined value then [] else to_string rt value

-- `isTokenTransferForAsset`
unfoldable pub is_token_transfer : Runtime → Text → Value → Bool
unfolding codes detail token_amount_value trim
is_token_transfer rt asset_id tx =
    text_eq (text_or_empty (detail tx (codes "tokenId"))) asset_id
    && not (is_empty (trim (token_amount_value rt tx)))

-- `String(tx?.transactionHash ?? `id:${txId}`)`
unfoldable pub transaction_hash_of : Runtime → Value → ℕ → Text
unfolding codes to_string
transaction_hash_of rt tx id = to_string rt (
    coalesce (get tx (codes "transactionHash"))
      (str (codes "id:" ++ rt.text_of_number (whole (pos id)))))

abbrev natural_or_zero : Option ℕ → ℕ
natural_or_zero none = 0
natural_or_zero (some n) = n

abbrev time_or_now : ℕ → Option ℕ → ℕ
time_or_now now none = now
time_or_now now (some t) = t

abbrev date_of : Clock → Value → ℕ
date_of clock (num n) = time_or_now clock.now (clock.of_seconds n)
date_of clock v = clock.now

-- The event of a new transaction, whose id is `id`
unfoldable pub event_of : Runtime → Clock → ConcordiumNodeConfig → Value → ℕ → PltEvent
unfolding codes detail token_amount_value transaction_hash_of to_string to_number
event_of rt clock node tx id = record {
  block_hash = to_string rt (coalesce (get tx (codes "blockHash")) (str []));
  block_height = natural_or_zero (as_natural (to_number rt (get tx (codes "blockHeight"))));
  transaction_hash = transaction_hash_of rt tx id;
  event_index = 0;
  network = node.network;
  network_genesis_index = node.network_genesis_index;
  finalized = true;
  event_type = codes "transfer";
  from_address = text_or_null (detail tx (codes "transferSource"));
  to_address = text_or_null (detail tx (codes "transferDestination"));
  amount_raw = token_amount_value rt tx;
  asset_id = node.asset_id;
  occurred_at = date_of clock (get tx (codes "blockTime"));
}

-- `txId`: `typeof tx?.id === "number" ... ? tx.id : bestHeight`
abbrev pub id_or : ℕ → Option ℕ → ℕ
id_or best none = best
id_or best (some id) = id

-- The loop over `newTxs`
unfoldable pub events_of : Runtime → Clock → ConcordiumNodeConfig → ℕ → List Value → List PltEvent
unfolding is_token_transfer event_of tx_id
events_of rt clock node best [] = []
events_of rt clock node best (tx ∷ txs) =
    let rest = events_of rt clock node best txs in
    if is_token_transfer rt node.asset_id tx
    then event_of rt clock node tx (id_or best (tx_id tx)) ∷ rest
    else rest

-- `ConcordiumPltScanSummary`, without the fields of the configuration; a sample is the event itself.
pub record ScanSummary : Type 0 where
  pub cursor_from : ℕ
  pub cursor_input : ℕ
  pub cursor_best : ℕ
  pub total_summaries : ℕ
  pub new_summaries : ℕ
  pub matched_events : ℕ
  pub sample_events : List PltEvent

pub record ConcordiumPltSourceResult : Type 0 where
  pub events : List PltEvent
  pub best_height : ℕ
  pub summary : ScanSummary

-- `Math.max(0, overlap)`
abbrev pub not_negative : ℤ → ℕ
not_negative (pos n) = n
not_negative (negsuc n) = 0

-- `cursorFrom` is `Math.max(0, lastHeightExclusive - Math.max(0, overlap))`.
unfoldable pub params_since : ℤ → ℕ → TransactionsParams
params_since overlap last = record { from = last - not_negative overlap; limit = 100 }

-- The rest of `fetchSince`, from the transactions that the proxy gave
unfoldable pub scan :
    Runtime → Clock → ConcordiumNodeConfig → ℤ → ℕ → List Value → ConcordiumPltSourceResult
unfolding best_of is_new events_of params_since
scan rt clock node overlap last txs =
    let best = best_of last txs in
    let new_txs = keep (is_new last) txs in
    let events = events_of rt clock node best new_txs in
    record {
      events = events;
      best_height = best;
      summary = record {
        cursor_from = (params_since overlap last).from;
        cursor_input = last;
        cursor_best = best;
        total_summaries = length txs;
        new_summaries = length new_txs;
        matched_events = length events;
        sample_events = take 3 events;
      };
    }

-- `fetchSince`; `none` where it throws
unfoldable pub fetch_since :
    Runtime → Clock → ConcordiumNodeConfig → ℤ → Proxy → ℕ → Option ConcordiumPltSourceResult
unfolding params_since transactions_of scan
fetch_since rt clock node overlap proxy last =
    elim (proxy node.account_address (params_since overlap last)) [
      | none ↦ none
      | some resp ↦ elim (transactions_of resp) [
        | none ↦ none
        | some txs ↦ some (scan rt clock node overlap last txs)
      ]
    ]

-- The clock and the proxy at one tick
pub record Tick : Type 0 where
  pub clock : Clock
  pub proxy : Proxy

-- The source as the worker sees it
unfoldable pub source_of : Runtime → ConcordiumNodeConfig → ℤ → Tick → PltSource
unfolding fetch_since
source_of rt node overlap t last = elim (fetch_since rt t.clock node overlap t.proxy last) [
  | none ↦ none
  | some result ↦ some (record { events = result.events; best_height = some result.best_height })
]

-- `parseIntEnv`
unfoldable pub parse_int_env : Environment → Text → ℤ → ℤ
unfolding trim
parse_int_env env name default = elim (env.variable name) [
  | none ↦ default
  | some raw ↦ if is_empty (trim raw) then default else int_or default (env.parse_int raw)
]

-- `normalizeAccountForWalletProxy`, without its note
unfoldable pub normalize_account : Text → Text
unfolding trim codes starts_with
normalize_account input_raw =
    let input = trim input_raw in
    if starts_with (codes "ccd1") input && ltb 4 (length input) then drop 4 input else input

abbrev text_or : Text → Option Text → Text
text_or default none = default
text_or default (some s) = s

-- `createConcordiumNodeConfigFromEnv`; `none` where it throws
unfoldable pub node_config_from_env : Environment → Option ConcordiumNodeConfig
unfolding codes normalize_account parse_int_env
node_config_from_env env =
    let account = normalize_account (text_or [] (env.variable (codes "CRP_STREAM_ACCOUNT"))) in
    if is_empty account
    then none
    else some (record {
      account_address = account;
      network = text_or (codes "concordium:testnet") (env.variable (codes "CRP_STREAM_NETWORK"));
      network_genesis_index =
          parse_int_env env (codes "CRP_STREAM_NETWORK_GENESIS_INDEX")
            (parse_int_env env (codes "CONCORDIUM_NETWORK_GENESIS_INDEX") (pos 7));
      asset_id =
          text_or (text_or (codes "EUDemo") (env.variable (codes "CRP_STREAM_TOKEN_ID")))
            (env.variable (codes "CONCORDIUM_PLT_TOKEN_ID"));
    })
