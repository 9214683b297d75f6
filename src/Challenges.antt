-- ===== src/Challenges.antt =====
-- src/store/repo.pg.ts: the repository of challenges behind /v1/challenges and the admin route. It
-- shares the table with the payment routes; here the JSONB columns are JSON values.
pub mod Upserts
pub mod Marking
pub mod Routes
pub mod Posting
use xcf_concordium_facilitat.Base.{
  ℕ, suc, Bool, ◌&&◌, Option, none, some, List, [], ◌∷◌, ◌++◌, if◌then◌else◌, ◌==◌, Text, text_eq,
  Value, coalesce,
}
use xcf_concordium_facilitat.Base.Js.{obj, end}
use xcf_concordium_facilitat.NetworkId.{networks_equivalent}
use xcf_concordium_facilitat.Store.{Status, pending, fulfilled}

-- `JSON.stringify`; what a JSONB column gives back for a value that was written to it as text; and
-- the time of `new Date(...)` in milliseconds, where it is valid.
pub record Json : Type 0 where
  pub stringify : Value → Text
  pub stored : Value → Value
  pub date : Text → Option ℕ

-- The JSONB object that `markFulfilled` builds
pub record Attached : Type 0 where
  pub jws : Text
  pub payload : Value

-- `Challenge`, primary key (merchant_id, nonce)
pub record Row : Type 0 where
  pub merchant_id : Text
  pub nonce : Text
  pub network : Text
  pub asset : Value
  pub amount : Text
  pub pay_to : Text
  pub expiry : ℕ
  pub policy : Value
  pub metadata : Value
  pub status : Status
  pub receipt : Option Attached
  pub created_at : ℕ
  pub updated_at : ℕ

-- The input of `upsertChallenge`; `policy` and `metadata` may be undefined or null.
pub record NewChallenge : Type 0 where
  pub merchant_id : Text
  pub nonce : Text
  pub network : Text
  pub asset : Value
  pub amount : Text
  pub pay_to : Text
  pub expiry : Text
  pub policy : Value
  pub metadata : Value
  pub status : Option Status

abbrev pub has_row_key : Text → Text → Row → Bool
has_row_key merchant_id nonce r = text_eq r.merchant_id merchant_id && text_eq r.nonce nonce

-- `getStatus`
unfoldable pub get_status : Text → Text → List Row → Option Row
get_status merchant_id nonce [] = none
get_status merchant_id nonce (r ∷ rs) =
    let rest = get_status merchant_id nonce rs in
    if has_row_key merchant_id nonce r then some r else rest

-- `v ?? {}`
abbrev pub or_empty : Value → Value
or_empty v = coalesce v (obj end)

abbrev pub status_or_pending : Option Status → Status
status_or_pending none = pending
status_or_pending (some s) = s

-- The row that the `INSERT` writes
unfoldable pub new_row : Json → NewChallenge → ℕ → ℕ → Row
new_row js input expiry now = record {
  merchant_id = input.merchant_id;
  nonce = input.nonce;
  network = input.network;
  asset = js.stored input.asset;
  amount = input.amount;
  pay_to = input.pay_to;
  expiry = expiry;
  policy = js.stored (or_empty input.policy);
  metadata = js.stored (or_empty input.metadata);
  status = status_or_pending input.status;
  receipt = none;
  created_at = now;
  updated_at = now;
}

abbrev same_json : Json → Value → Value → Bool
same_json js v w = text_eq (js.stringify v) (js.stringify w)

-- `const same = ...`, for a valid expiry
unfoldable pub same_payload_as : Json → NewChallenge → ℕ → Row → Bool
same_payload_as js input expiry row =
    networks_equivalent row.network input.network
    && same_json js row.asset input.asset
    && text_eq row.amount input.amount
    && text_eq row.pay_to input.pay_to
    && row.expiry == expiry
    && same_json js (or_empty row.policy) (or_empty input.policy)
    && same_json js (or_empty row.metadata) (or_empty input.metadata)

-- The result; `failed` is the RangeError of an expiry that is no date.
pub data Upserted : Type 0 where
  created same_payload : Row → Upserted
  conflict failed : Upserted

-- `upsertChallenge`
unfoldable pub upsert_challenge : Json → NewChallenge → ℕ → List Row → Upserted × List Row
unfolding new_row same_payload_as
upsert_challenge js input now rows = elim (js.date input.expiry) [
  | none ↦ (failed, rows)
  | some expiry ↦ elim (get_status input.merchant_id input.nonce rows) [
    | none ↦ let row = new_row js input expiry now in (created row, rows ++ row ∷ [])
    | some row ↦ (if same_payload_as js input expiry row then same_payload row else conflict, rows)
  ]
]

-- A row of `receipts`, primary key (merchant_id, nonce)
pub record ReceiptRow : Type 0 where
  pub merchant_id : Text
  pub nonce : Text
  pub jws : Text

unfoldable pub upsert_receipt : Text → Text → Text → List ReceiptRow → List ReceiptRow
upsert_receipt merchant_id nonce jws [] =
    record { merchant_id = merchant_id; nonce = nonce; jws = jws } ∷ []
upsert_receipt merchant_id nonce jws (r ∷ rs) =
    let rest = upsert_receipt merchant_id nonce jws rs in
    if text_eq r.merchant_id merchant_id && text_eq r.nonce nonce
    then record r { jws = jws } ∷ rs
    else r ∷ rest

-- The two tables that `markFulfilled` writes
pub record Tables : Type 0 where
  pub challenges : List Row
  pub receipts : List ReceiptRow

abbrev pub attach : Json → Value → Text → ℕ → Row → Row
attach js receipt jws now r = record r {
  status = fulfilled;
  receipt = some (record { jws = jws; payload = js.stored receipt });
  updated_at = now;
}

-- `UPDATE challenges ... WHERE merchant_id = $1 AND nonce = $2`
unfoldable pub attach_all : Json → Text → Text → Value → Text → ℕ → List Row → List Row
attach_all js merchant_id nonce receipt jws now [] = []
attach_all js merchant_id nonce receipt jws now (r ∷ rs) =
    let rest = attach_all js merchant_id nonce receipt jws now rs in
    (if has_row_key merchant_id nonce r then attach js receipt jws now r else r) ∷ rest

-- Which query of `markFulfilled` fails, if any
pub data Failure : Type 0 where
  no_failure at_connect at_begin at_update at_receipt at_commit : Failure

-- The outcome of `markFulfilled`: the row, null, or an error
pub data Marked : Type 0 where
  marked : Row → Marked
  not_found thrown : Marked

-- Behind a successful `UPDATE`
unfoldable pub keep_receipt :
    Json → Text → Text → Value → Text → ℕ → Failure → Row → Tables → Marked × Tables
unfolding attach_all upsert_receipt
keep_receipt js m n receipt jws now failure row t = elim failure [
  | at_receipt ↦ (thrown, t)
  | at_commit ↦ (thrown, t)
  | _ ↦ (
    marked (attach js receipt jws now row),
    record {
      challenges = attach_all js m n receipt jws now t.challenges;
      receipts = upsert_receipt m n jws t.receipts;
    },
  )
]

-- `markFulfilled`: the challenge and the copy in `receipts` in one transaction
unfoldable pub mark_fulfilled :
    Json → Text → Text → Value → Text → ℕ → Failure → Tables → Marked × Tables
unfolding keep_receipt
mark_fulfilled js m n receipt jws now failure t =
    let rest : Marked × Tables = elim (get_status m n t.challenges) [
      | none ↦ (not_found, t)
      | some row ↦ keep_receipt js m n receipt jws now failure row t
    ] in
    elim failure [
      | at_connect ↦ (thrown, t)
      | at_begin ↦ (thrown, t)
      | at_update ↦ (thrown, t)
      | _ ↦ rest
    ]
