-- ===== src/Store.antt =====
-- The rows of the Postgres tables that the facilitator reads and writes (src/store/*.ts,
-- src/contracts/crpGateway.ts, db/migrations). A table is the list of its rows; a time is in
-- milliseconds since 1970, as `new Date(...)` and `toISOString` carry it.
pub mod Search
pub mod Assets
pub mod Amounts
pub mod Events
pub mod Insertions
pub mod Origins
pub mod Results
use xcf_concordium_facilitat.Base.{
  ℕ, ◌≡◌, Bool, true, false, ◌&&◌, Option, List, Text, text_eq, ℤ, Num, Value,
}

-- `CrpAsset`; the `asset` column of `challenges`
pub record Asset : Type 0 where
  pub asset_type : Text
  pub token_id : Text
  pub decimals : Num

pub data Status : Type 0 where
  pending fulfilled expired invalid policy_failed : Status

-- The `contract` part of a proof payload: `CrpContractRef`
pub record Contract : Type 0 where
  pub contract_id : Text
  pub contract_version : Text
  pub is_frozen : Bool
  pub merchant_id : Text
  pub resource_method : Text
  pub resource_path : Text
  pub chain_id : Text
  pub network : Text
  pub asset : Asset
  pub amount : Text
  pub pay_to : Text

-- `CrpReceiptPayloadV1`. The fields that are the same in every proof (`proofVersion`, the settlement
-- status "finalized", the event kind "plt.transfer") have no field here.
pub record Proof : Type 0 where
  pub contract : Contract
  pub nonce : Text
  pub settled_at : ℕ  -- unix seconds
  pub expires_at : Option ℕ
  pub transaction_hash : Text
  pub block_hash : Text
  pub block_height : Option ℕ
  pub token_id : Text
  pub amount_raw : Text
  pub from : Option Text
  pub to : Text

-- What stands in the `receipt` column: a proof of the CRP payments route, or the payload of
-- another route.
pub data Payload : Type 0 where
  proof : Proof → Payload
  other : Value → Payload

pub record Receipt : Type 0 where
  pub jws : Text
  pub payload : Payload
  pub facilitator_key_id : Option Text

-- A row of `challenges`, primary key (merchant_id, nonce)
pub record Challenge : Type 0 where
  pub merchant_id : Text
  pub nonce : Text
  pub network : Text
  pub asset : Asset
  pub amount : Text
  pub pay_to : Text
  pub expiry : ℕ
  pub policy : Value
  pub metadata : Value
  pub status : Status
  pub receipt : Option Receipt
  pub created_at : ℕ
  pub updated_at : ℕ

-- A row of `crp_plt_events`, unique by (transaction_hash, event_index); `amount_raw` is the text
-- that `amount_raw::text` gives.
pub record PltEvent : Type 0 where
  pub block_hash : Text
  pub block_height : ℕ
  pub transaction_hash : Text
  pub event_index : ℕ
  pub network : Text
  pub network_genesis_index : ℤ
  pub finalized : Bool
  pub event_type : Text
  pub from_address : Option Text
  pub to_address : Option Text
  pub amount_raw : Text
  pub asset_id : Text
  pub occurred_at : ℕ

-- A row of `crp_plt_event_claims`, primary key all but the owner
pub record Claim : Type 0 where
  pub network : Text
  pub network_genesis_index : ℤ
  pub tx_hash : Text
  pub event_index : ℕ
  pub merchant_id : Text
  pub nonce : Text

-- A row of `crp_plt_assets`, primary key (network, network_genesis_index, asset_id)
pub record PltAsset : Type 0 where
  pub network : Text
  pub network_genesis_index : ℤ
  pub asset_id : Text
  pub symbol : Text
  pub decimals : ℤ
  pub enabled : Bool

pub record Db : Type 0 where
  pub challenges : List Challenge
  pub events : List PltEvent
  pub claims : List Claim
  pub assets : List PltAsset

-- The primary key of `challenges`
abbrev pub has_key : Text → Text → Challenge → Bool
has_key merchant_id nonce c = text_eq c.merchant_id merchant_id && text_eq c.nonce nonce
