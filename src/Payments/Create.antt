-- ===== src/Payments/Create.antt =====
-- POST /v1/crp/payments: create or reset the pending challenge of (merchant, nonce).
pub mod Effects
use xcf_concordium_facilitat.Base.{
  ℕ, Bool, true, false, not, Option, none, some, List, [], ◌∷◌, if◌then◌else◌, Text, codes, trim, ℤ,
  Num, Value, get, plain_object_or_empty, to_string, Runtime,
}
use xcf_concordium_facilitat.Base.Js.{undefined, null, nan, infinite, whole, fraction, pos}
use xcf_concordium_facilitat.Store.{Asset, Challenge, pending, Db, has_key}
use xcf_concordium_facilitat.Payments.{
  PaymentTuple, read_tuple, is_incomplete, requested_genesis_index, AssetNorm, resolved,
  asset_disabled, decimals_mismatch, normalize_asset_with_registry,
}
use xcf_concordium_facilitat.Payments.Services.{Services, default_genesis}

-- The answers of the route; a failed query ends in Fastify's own 500 answer.
pub data Created : Type 0 where
  created : Challenge → Created
  bad_request : Created
  mismatch : Num → ℤ → Created
  disabled : Created
  query_failed : Created

-- `body.expiry === undefined || body.expiry === null ? null : String(body.expiry).trim()`
abbrev pub expiry_text : Runtime → Value → Option Text
expiry_text rt undefined = none
expiry_text rt null = none
expiry_text rt v = some (trim (to_string rt v))

-- The column is NOT NULL, so a missing expiry fails as an unreadable one does.
abbrev pub expiry_time : Services → Option Text → Option ℕ
expiry_time sv none = none
expiry_time sv (some t) = sv.parse_timestamp t

-- JSON has no NaN and no infinity: they are stored as `null`, which `Number` reads as 0.
abbrev stored_number : Num → Num
stored_number nan = whole (pos 0)
stored_number (infinite s) = whole (pos 0)
stored_number n = n

abbrev stored_asset : Asset → Asset
stored_asset a = record a { decimals = stored_number a.decimals }

unfoldable pub pending_row : PaymentTuple → Asset → ℕ → Value → Value → ℕ → Challenge
pending_row t asset expiry policy metadata now = record {
  merchant_id = t.merchant_id;
  nonce = t.nonce;
  network = t.network;
  asset = stored_asset asset;
  amount = t.amount;
  pay_to = t.pay_to;
  expiry = expiry;
  policy = policy;
  metadata = metadata;
  status = pending;
  receipt = none;
  created_at = now;
  updated_at = now;
}

-- `INSERT ... ON CONFLICT (merchant_id, nonce) DO UPDATE`: a row that exists keeps its creation time.
unfoldable pub upsert_pending : Challenge → List Challenge → List Challenge
upsert_pending row [] = row ∷ []
upsert_pending row (c ∷ cs) =
    let rest = upsert_pending row cs in
    if has_key row.merchant_id row.nonce c
    then record row { created_at = c.created_at } ∷ cs
    else c ∷ rest

unfoldable pub row_of : Text → Text → List Challenge → Option Challenge
row_of merchant_id nonce [] = none
row_of merchant_id nonce (c ∷ cs) =
    let rest = row_of merchant_id nonce cs in if has_key merchant_id nonce c then some c else rest

abbrev returned : Option Challenge → Created
returned none = query_failed
returned (some c) = created c

-- The statement itself; `now` is the database's clock.
unfoldable pub insert_challenge : Services → PaymentTuple → Asset → Value → ℕ → Db → Created × Db
unfolding codes upsert_pending row_of pending_row
insert_challenge sv t asset body now db =
    elim (expiry_time sv (expiry_text sv.runtime (get body (codes "expiry")))) [
      | none ↦ (query_failed, db)
      | some expiry ↦
          let row =
            pending_row t asset expiry (plain_object_or_empty (get body (codes "policy")))
              (plain_object_or_empty (get body (codes "metadata"))) now in
          let challenges = upsert_pending row db.challenges in
          (
            returned (row_of t.merchant_id t.nonce challenges),
            record db { challenges = challenges },
          )
    ]

unfoldable pub create_with_asset :
    Services → PaymentTuple → Value → ℕ → AssetNorm → Db → Created × Db
unfolding insert_challenge
create_with_asset sv t body now (resolved asset ngi from_db) db =
    insert_challenge sv t asset body now db
create_with_asset sv t body now asset_disabled db = (disabled, db)
create_with_asset sv t body now (decimals_mismatch provided registry) db =
    (mismatch provided registry, db)

-- The handler
unfoldable pub create_payment : Services → Value → ℕ → Db → Created × Db
create_payment sv body now db =
    let t = read_tuple sv.runtime body in
    let later =
      create_with_asset sv t body now
        (normalize_asset_with_registry (default_genesis sv) t.network t.asset
          (requested_genesis_index sv.runtime body) db.assets)
        db in
    if is_incomplete t then (bad_request, db) else later
