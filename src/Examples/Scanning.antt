-- ===== src/Examples/Scanning.antt =====
-- The stream worker on an account whose transactions are transfers of one token.
use xcf_concordium_facilitat.Base.{
  ℕ, zero, suc, ◌-◌, ◌≤◌, ◌<◌, ◌≡◌, ◌⊎◌, refl, sym, ap, true, false, none, some, List, [], ◌∷◌,
  arith, map, length, take, keep, inl, inr, In, Text, codes, text_eq, Value, Items,
}
use mathlib.Core.Path.{subst}
use xcf_concordium_facilitat.Base.Js.{pos, whole, num, str, obj, arr, nil, cons, field, end}
use xcf_concordium_facilitat.NetworkId.{testnet}
use xcf_concordium_facilitat.Store.Insertions.{IsPlaced}
use xcf_concordium_facilitat.Worker.{WorkerConfig, WorkerState, run_worker}
use xcf_concordium_facilitat.Source.{
  ConcordiumNodeConfig, Clock, Proxy, Tick, tx_id, is_new, items, is_token_transfer,
  token_amount_value, event_of, transactions_of, source_of, not_negative,
}
use xcf_concordium_facilitat.Source.Fetching.{IsGapless}
use xcf_concordium_facilitat.Source.Complete.{run_worker_complete}
use xcf_concordium_facilitat.Source.Soundness.{IsTruthful, IsOfTransfer, run_worker_sound}
use xcf_concordium_facilitat.Source.Progress.{
  IsRegistered, IsResponsive, IsStoring, run_worker-reaches,
}
use xcf_concordium_facilitat.Source.Windows.{
  IsAscending, none_left, one_more, IsWindow, IsWindow-IsGapless, IsWindow-IsResponsive,
  IsWindow-IsTruthful,
}
use xcf_concordium_facilitat.Source.Stall.{between, run_worker-stalls}
use xcf_concordium_facilitat.Examples.Data.{plain_runtime, ready, registry, storage}

abbrev node : ConcordiumNodeConfig
unfolding codes
node = record {
  account_address = codes "2yV8";
  network = testnet;
  network_genesis_index = pos 7;
  asset_id = codes "EUDemo";
}

abbrev transfer : ℕ → Value
unfolding codes
transfer id = obj (
    field (codes "id") (num (whole (pos id))) (
      field (codes "details")
        (obj (
          field (codes "tokenId") (str (codes "EUDemo")) (
            field (codes "tokenTransferAmount")
              (obj (field (codes "value") (str (codes "150")) end)) end)))
        end))

-- `n` transfers, with the ids from `id` on
abbrev transfers : ℕ → ℕ → List Value
transfers zero id = []
transfers (suc n) id = transfer id ∷ transfers n (suc id)

abbrev array : List Value → Items
array [] = nil
array (v ∷ vs) = cons v (array vs)

items-array : (vs : List Value) → items (array vs) ≡ vs
items-array [] = refl
items-array (v ∷ vs) = ap (λ xs. v ∷ xs) (items-array vs)

abbrev answer : List Value → Value
unfolding codes
answer vs = obj (field (codes "transactions") (arr (array vs)) end)

transactions_of-answer : (vs : List Value) → transactions_of (answer vs) ≡ some vs
unfolding transactions_of codes text_eq
transactions_of-answer vs = ap some (items-array vs)

-- The proxy of an account with this history
abbrev proxy_of : List Value → Proxy
unfolding is_new tx_id codes
proxy_of history account params =
    some (answer (take params.limit (keep (is_new params.from) history)))

proxy_of-IsWindow :
    (account : Text) (history : List Value) → IsWindow account history (proxy_of history)
unfolding proxy_of
proxy_of-IsWindow account history = record {
  response = λ params. answer (take params.limit (keep (is_new params.from) history));
  answers = λ params. refl;
  lists = λ params. transactions_of-answer (take params.limit (keep (is_new params.from) history));
}

tx_id-transfer : (id : ℕ) → tx_id (transfer id) ≡ some id
unfolding tx_id codes text_eq
tx_id-transfer id = refl

is_new-transfers :
    (n id last : ℕ) (y : Value) → last < id → In y (transfers n id) → is_new last y ≡ true
unfolding is_new tx_id codes text_eq
is_new-transfers zero id last y low there = absurd there
is_new-transfers (suc n) id last y low (inl e) =
    subst (λ x. is_new last x ≡ true) (sym e) (ground arith)
is_new-transfers (suc n) id last y low (inr later) =
    is_new-transfers n (suc id) last y (omega arith) later

transfers-IsAscending : (n id : ℕ) → IsAscending (transfers n id)
transfers-IsAscending zero id = none_left
transfers-IsAscending (suc n) id =
    one_more id (tx_id-transfer id)
      (λ y there. is_new-transfers n (suc id) id y (omega arith) there)
      (transfers-IsAscending n (suc id))

abbrev clock : Clock
clock = record { now = 9000; of_seconds = λ s. none }

abbrev ticks : List Value → List Tick
ticks history = let t : Tick = record { clock = clock; proxy = proxy_of history } in t ∷ t ∷ []

ticks-In :
    (P : Proxy → Type 0) (history : List Value)
    → P (proxy_of history)
    → (t : Tick) → In t (ticks history)
    → P t.proxy
ticks-In P history p t (inl e) = subst (λ x. P x.proxy) (sym e) p
ticks-In P history p t (inr (inl e)) = subst (λ x. P x.proxy) (sym e) p
ticks-In P history p t (inr (inr there)) = absurd there

abbrev config : WorkerConfig
config = record {
  dry_run = false;
  start_height_override = none;
  max_ticks = 0;
  zero_is_genesis = false;
  max_ahead_guard = 10;
  rewind_on_clamp = 5;
  persist_cursor_in_dry_run = false;
}

abbrev stream_key : Text
unfolding codes
stream_key = codes "plt:concordium"

abbrev state_at : ℕ → WorkerState
state_at height = record {
  last_height_exclusive = height;
  cursors = [];
  db = record ready { events = [] };
}

is_transfer : is_token_transfer plain_runtime node.asset_id (transfer 42) ≡ true
unfolding is_token_transfer codes text_eq
is_transfer = refl

is_transfer_too : is_token_transfer plain_runtime node.asset_id (transfer 41) ≡ true
unfolding is_token_transfer codes text_eq
is_transfer_too = refl

registered : IsRegistered node registry
unfolding codes
registered = record {
  asset = _;
  listed = inl refl;
  network = refl;
  network_genesis_index = refl;
  asset_id = refl;
}

-- The two transfers after the cursor 40
abbrev two : List Value
unfolding codes
two = transfers 2 41

truthful : (t : Tick) → In t (ticks two) → IsTruthful node.account_address two t.proxy
truthful =
    ticks-In (λ p. IsTruthful node.account_address two p) two
      (IsWindow-IsTruthful node.account_address two (proxy_of two)
        (proxy_of-IsWindow node.account_address two))

storing : (history : List Value) → IsStoring storage plain_runtime node history
storing history = record {
  inserts = λ tick. refl;
  saves = λ tick. refl;
  numbers = λ tx there transfer. (token_amount_value plain_runtime tx, refl);
}

responsive : (t : Tick) → In t (ticks two) → IsResponsive node.account_address two t.proxy
responsive =
    ticks-In (λ p. IsResponsive node.account_address two p) two
      (IsWindow-IsResponsive node.account_address two (proxy_of two)
        (proxy_of-IsWindow node.account_address two))

gapless : (t : Tick) → In t (ticks two) → IsGapless node.account_address two t.proxy
unfolding two
gapless =
    ticks-In (λ p. IsGapless node.account_address two p) two
      (IsWindow-IsGapless node.account_address two (proxy_of two) (transfers-IsAscending 2 41)
        (proxy_of-IsWindow node.account_address two))

abbrev after_two : WorkerState
after_two =
    run_worker storage config stream_key 0 (map (source_of plain_runtime node (pos 0)) (ticks two))
      (state_at 40)

arrives : 42 ≤ after_two.last_height_exclusive
unfolding two
arrives =
    run_worker-reaches plain_runtime node (pos 0) two storage config stream_key refl refl
      (storing two) (transfer 42) 42 (inr (inl refl)) (tx_id-transfer 42) (ticks two) truthful
      responsive 0 (state_at 40) registered (omega arith)

run_worker-reaches_example : 41 ≤ after_two.last_height_exclusive
unfolding two
run_worker-reaches_example =
    run_worker-reaches plain_runtime node (pos 0) two storage config stream_key refl refl
      (storing two) (transfer 41) 41 (inl refl) (tx_id-transfer 41) (ticks two) truthful responsive
      0 (state_at 40) registered (omega arith)

placed : IsPlaced (event_of plain_runtime clock node (transfer 42) 42) after_two.db.events
unfolding two
placed =
    run_worker_complete plain_runtime node (pos 0) two (ticks two) gapless storage config refl
      stream_key 0 (state_at 40) clock (transfer 42) 42 (inr (inl refl)) (tx_id-transfer 42)
      is_transfer (omega arith) arrives

run_worker_complete_example :
    IsPlaced (event_of plain_runtime clock node (transfer 41) 41) after_two.db.events
unfolding two
run_worker_complete_example =
    run_worker_complete plain_runtime node (pos 0) two (ticks two) gapless storage config refl
      stream_key 0 (state_at 40) clock (transfer 41) 41 (inl refl) (tx_id-transfer 41)
      is_transfer_too (omega arith) (let h = arrives in omega arith)

run_worker_sound_example :
    In placed.event []
    ⊎ IsOfTransfer storage.numeric plain_runtime node two 40 after_two.last_height_exclusive
        placed.event
run_worker_sound_example =
    run_worker_sound plain_runtime node (pos 0) two (ticks two) truthful storage config stream_key 0
      (state_at 40) placed.event placed.stored

-- The hundred transfers before the cursor stand in the overlap; the one after it is new.
overlap_full : 100 ≤ length (keep (between (100 - not_negative (pos 100)) 100) (transfers 101 1))
unfolding is_new tx_id codes text_eq
overlap_full = omega arith

run_worker-stalls_example :
    run_worker storage config stream_key 0
      (map (source_of plain_runtime node (pos 100)) (ticks (transfers 101 1)))
      (state_at 100)
    ≡ state_at 100
run_worker-stalls_example =
    run_worker-stalls plain_runtime node (pos 100) (transfers 101 1) storage config stream_key
      (ticks (transfers 101 1)) 0 (state_at 100) (transfers-IsAscending 101 1)
      (ticks-In (λ p. IsWindow node.account_address (transfers 101 1) p) (transfers 101 1)
        (proxy_of-IsWindow node.account_address (transfers 101 1)))
      overlap_full
