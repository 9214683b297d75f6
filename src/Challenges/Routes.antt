-- ===== src/Challenges/Routes.antt =====
-- src/routes/challenges.ts, src/routes/admin.ts and src/routes/verify.ts: the handlers over the
-- repository of challenges. Bodies have their declared types; a text that is missing is empty. The
-- signature and its check are parameters.
use xcf_concordium_facilitat.Base.{
  ℕ, Bool, true, ◌||◌, Option, none, some, List, if◌then◌else◌, is_empty, Text, codes, text_eq,
  trim, Value, get, is_falsy,
}
use xcf_concordium_facilitat.Base.Js.{str, arr, obj, Fields, end, field}
use xcf_concordium_facilitat.NetworkId.{normalize_network_id}
use xcf_concordium_facilitat.Store.{pending}
use xcf_concordium_facilitat.Challenges.{
  Json, Row, NewChallenge, or_empty, get_status, Upserted, created, same_payload, conflict, failed,
  upsert_challenge, Failure, Marked, marked, not_found, thrown, Tables, mark_fulfilled,
}

-- `ChallengeBody`
pub record ChallengeBody : Type 0 where
  pub nonce : Text
  pub network : Text
  pub asset : Value
  pub amount : Text
  pub pay_to : Text
  pub expiry : Text
  pub policy : Value
  pub metadata : Value

unfoldable pub is_blank_header : Option Text → Bool
unfolding trim
is_blank_header none = true
is_blank_header (some s) = is_empty (trim s)

unfoldable pub lacks_field : ChallengeBody → Bool
lacks_field b =
    is_empty b.nonce
    || is_empty b.network
    || is_falsy b.asset
    || is_empty b.amount
    || is_empty b.pay_to
    || is_empty b.expiry

-- `normalizeObj`
abbrev normalize_obj : Value → Value
normalize_obj (obj fs) = obj fs
normalize_obj (arr vs) = arr vs
normalize_obj v = obj end

-- The payload of the post; `iso` is `toISOString` of a time.
unfoldable pub payload_of : (ℕ → Text) → Text → ChallengeBody → ℕ → NewChallenge
unfolding normalize_network_id trim
payload_of iso merchant_id b expiry = record {
  merchant_id = merchant_id;
  nonce = b.nonce;
  network = normalize_network_id (trim b.network);
  asset = b.asset;
  amount = b.amount;
  pay_to = b.pay_to;
  expiry = iso expiry;
  policy = normalize_obj (or_empty b.policy);
  metadata = normalize_obj (or_empty b.metadata);
  status = some pending;
}

-- The answers to POST /v1/challenges: 400, 400, 201, 200, 409, and 500 where the handler throws
pub data Posted : Type 0 where
  missing_header invalid_body : Posted
  posted_created posted_again : Row → Posted
  posted_conflict post_failed : Posted

abbrev answer_post : Upserted → Posted
answer_post (created row) = posted_created row
answer_post (same_payload row) = posted_again row
answer_post conflict = posted_conflict
answer_post failed = post_failed

abbrev answer_posted : Upserted × List Row → Posted × List Row
answer_posted (result, rows) = (answer_post result, rows)

-- POST /v1/challenges, for a body that is there
unfoldable pub post_challenge :
    Json → (ℕ → Text) → Option Text → ChallengeBody → ℕ → List Row → Posted × List Row
unfolding is_blank_header lacks_field payload_of upsert_challenge
post_challenge js iso none b now rows = (missing_header, rows)
post_challenge js iso (some merchant_id) b now rows =
    if is_blank_header (some merchant_id)
    then (missing_header, rows)
    else if lacks_field b
    then (invalid_body, rows)
    else elim (js.date b.expiry) [
      | none ↦ (post_failed, rows)
      | some expiry ↦
          answer_posted (upsert_challenge js (payload_of iso merchant_id b expiry) now rows)
    ]

-- The answers to GET /v1/challenges/:nonce/status: 400, 404, 200
pub data Shown : Type 0 where
  no_header unknown_challenge : Shown
  shown : Row → Shown

abbrev show_row : Option Row → Shown
show_row none = unknown_challenge
show_row (some row) = shown row

unfoldable pub get_challenge_status : Option Text → Text → List Row → Shown
unfolding get_status is_blank_header
get_challenge_status none nonce rows = no_header
get_challenge_status (some merchant_id) nonce rows =
    if is_blank_header (some merchant_id)
    then no_header
    else show_row (get_status merchant_id nonce rows)

-- `r.network = ...`, where the field is there
abbrev replace_field : Text → Value → Fields → Fields
unfolding text_eq
replace_field k v end = end
replace_field k v (field j w fs) =
    let rest = replace_field k v fs in if text_eq j k then field j v fs else field j w rest

abbrev with_network : Fields → Value → Fields
unfolding codes normalize_network_id replace_field
with_network fs (str n) = replace_field (codes "network") (str (normalize_network_id n)) fs
with_network fs v = fs

-- The receipt that is signed: a copy with the network's canonical name
unfoldable pub canonical_receipt : Value → Value
unfolding codes with_network
canonical_receipt (obj fs) = obj (with_network fs (get (obj fs) (codes "network")))
canonical_receipt v = obj end

-- The answers to POST /v1/admin/fulfill: 400, 200 with the signature, 500
pub data AdminFulfilled : Type 0 where
  invalid_request : AdminFulfilled
  admin_fulfilled : Text → AdminFulfilled
  admin_failed : AdminFulfilled

abbrev answer_fulfill : Text → Marked → AdminFulfilled
answer_fulfill jws thrown = admin_failed
answer_fulfill jws (marked row) = admin_fulfilled jws
answer_fulfill jws not_found = admin_fulfilled jws

abbrev answer_marked : Text → Marked × Tables → AdminFulfilled × Tables
answer_marked jws (result, t) = (answer_fulfill jws result, t)

-- POST /v1/admin/fulfill; the handler does not look at what `markFulfilled` returns.
unfoldable pub admin_fulfill :
    Json → (Value → Text) → Text → Text → Value → ℕ → Failure → Tables → AdminFulfilled × Tables
unfolding canonical_receipt mark_fulfilled
admin_fulfill js sign merchant_id nonce receipt now failure t =
    if is_empty merchant_id || is_empty nonce || is_falsy receipt
    then (invalid_request, t)
    else answer_marked (sign (canonical_receipt receipt)) (
        mark_fulfilled js merchant_id nonce (canonical_receipt receipt)
          (sign (canonical_receipt receipt)) now failure t)

-- `verifyJws`
pub data Verification : Type 0 where
  valid : Value → Value → Verification
  invalid_jws : Text → Verification

-- The answers to POST /v1/verify: 400, 400 and 200 with header, payload and key id
pub data Verified : Type 0 where
  jws_required : Verified
  refused : Text → Verified
  verified : Value → Value → Text → Verified

abbrev answer_verification : Text → Verification → Verified
answer_verification kid (valid header payload) = verified header payload kid
answer_verification kid (invalid_jws error) = refused error

unfoldable pub verify_request : (Text → Verification) → Text → Text → Verified
verify_request verify kid jws =
    if is_empty jws then jws_required else answer_verification kid (verify jws)
