-- ===== src/Payments/Fulfill/Proofs.antt =====
-- The proof payload that a settled challenge receives: the contract that the gateway put into the
-- challenge's metadata, bound to the event.
use xcf_concordium_facilitat.Base.{
  ℕ, ◌/◌, String, Bool, true, false, not, Option, none, some, if◌then◌else◌, is_empty, ltb, Text,
  codes, trim, Value, get, coalesce, Runtime, to_string, num_eq, plain_object_or_empty,
}
use xcf_concordium_facilitat.Base.Js.{undefined, null, bool, num, str, nan, whole, pos}
use xcf_concordium_facilitat.NetworkId.{normalize_network_id, canonical_chain_id_for_receipt}
use xcf_concordium_facilitat.Store.{Contract, Proof, Challenge, PltEvent}
use xcf_concordium_facilitat.Payments.{PaymentTuple, plt}

-- `Boolean(v)`
unfoldable pub to_boolean : Value → Bool
to_boolean undefined = false
to_boolean null = false
to_boolean (bool b) = b
to_boolean (num nan) = false
to_boolean (num n) = not (num_eq n (whole (pos 0)))
to_boolean (str s) = not (is_empty s)
to_boolean v = true

-- `isoToUnixSeconds` of a valid timestamp
abbrev pub unix_seconds : ℕ → ℕ
unix_seconds ms = ms / 1000

-- `match?.metadata?.contract`
abbrev pub raw_contract : Challenge → Value
unfolding codes
raw_contract row = get row.metadata (codes "contract")

-- `isPlainObject(metaContractRaw) ? metaContractRaw : {}`
abbrev pub meta_contract : Challenge → Value
meta_contract row = plain_object_or_empty (raw_contract row)

-- A field of the metadata's contract, with the value that stands in for a missing one
abbrev meta_text : Runtime → Challenge → String → Text → Text
meta_text rt row k fallback =
    trim (to_string rt (coalesce (get (meta_contract row) (codes k)) (str fallback)))

abbrev meta_resource_text : Runtime → Challenge → String → Text
meta_resource_text rt row k = trim (
    to_string rt (
      coalesce (get (get (meta_contract row) (codes "resource")) (codes k))
        (coalesce (get (get (raw_contract row) (codes "resource")) (codes k)) (str (codes "")))))

abbrev meta_id : Runtime → Challenge → String → Text
meta_id rt row k = to_string rt (
    coalesce (get (meta_contract row) (codes k))
      (coalesce (get (raw_contract row) (codes k)) (str (codes ""))))

-- `const contract = {...}`
unfoldable pub build_contract : Runtime → PaymentTuple → Challenge → PltEvent → Contract
unfolding to_boolean codes to_string
build_contract rt t row e =
    let network = normalize_network_id e.network in
    record {
      contract_id = meta_id rt row "contractId";
      contract_version = meta_id rt row "contractVersion";
      is_frozen = to_boolean (coalesce (get (meta_contract row) (codes "isFrozen")) (bool true));
      merchant_id = meta_text rt row "merchantId" t.merchant_id;
      resource_method = meta_resource_text rt row "method";
      resource_path = meta_resource_text rt row "path";
      chain_id = canonical_chain_id_for_receipt network;
      network = meta_text rt row "network" t.network;
      asset = record { asset_type = plt; token_id = t.asset.token_id; decimals = t.asset.decimals };
      amount = meta_text rt row "amount" t.amount;
      pay_to = meta_text rt row "payTo" t.pay_to;
    }

-- "Preserve the existing expiry only when it remains after settlement."
unfoldable pub expires_after : ℕ → ℕ → Option ℕ
expires_after settled_at expiry = if ltb settled_at expiry then some expiry else none

abbrev non_empty : Option Text → Option Text
non_empty none = none
non_empty (some s) = if is_empty s then none else some s

-- `const proofPayload = {...}`
unfoldable pub build_proof : Runtime → PaymentTuple → Challenge → PltEvent → Text → Proof
unfolding build_contract expires_after
build_proof rt t row e amount_minor =
    let settled_at = unix_seconds e.occurred_at in
    record {
      contract = build_contract rt t row e;
      nonce = t.nonce;
      settled_at = settled_at;
      expires_at = expires_after settled_at (unix_seconds row.expiry);
      transaction_hash = e.transaction_hash;
      block_hash = e.block_hash;
      block_height = some e.block_height;
      token_id = t.asset.token_id;
      amount_raw = amount_minor;
      from = non_empty e.from_address;
      to = t.pay_to;
    }
