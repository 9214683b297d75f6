-- ===== src/Examples/Data.antt =====
-- One payment: a merchant's challenge, the request that fulfills it, and the transfer that pays.
use xcf_concordium_facilitat.Base.{
  true, false, none, some, List, [], ◌∷◌, Text, codes, Value, Runtime,
}
use xcf_concordium_facilitat.Base.Js.{num, str, obj, end, field, nan, whole, pos, Fields}
use xcf_concordium_facilitat.NetworkId.{testnet}
use xcf_concordium_facilitat.Store.{Asset, pending, Challenge, PltEvent, PltAsset, Db}
use xcf_concordium_facilitat.Webhook.{response}
use xcf_concordium_facilitat.Worker.{Storage}
use xcf_concordium_facilitat.Payments.{PaymentTuple}
use xcf_concordium_facilitat.Payments.Services.{Services}
use xcf_concordium_facilitat.Payments.Fulfill.{Settlement, settlement_of}

-- A runtime that reads and prints no number
abbrev pub plain_runtime : Runtime
plain_runtime = record {
  number_of_text = λ s. nan;
  text_of_number = λ n. [];
  number_of_object = λ v. nan;
  text_of_object = λ v. [];
  upper_of_wide = λ c. c ∷ [];
}

abbrev pub hook : Text
unfolding codes
hook = codes "https://shop"

-- A database that takes every amount as it is written
abbrev pub storage : Storage
storage = record {
  numeric = λ s. some s;
  insertion_fails = λ tick. false;
  cursor_fails = λ tick. false;
}

-- Every variable names the same URL, and every request to it succeeds.
abbrev pub services : Services
unfolding codes
services = record {
  runtime = plain_runtime;
  env = λ k. some hook;
  genesis_setting = none;
  send = λ url payment. response (some 204);
  parse_timestamp = λ t. some 5000;
  sign_jws = λ p. codes "jws";
  current_kid = codes "kid";
}

abbrev token : Value
unfolding codes
token = obj (
    field (codes "type") (str (codes "PLT")) (
      field (codes "tokenId") (str (codes "EUDemo"))
        (field (codes "decimals") (num (whole (pos 2))) end)))

abbrev tuple_fields : Fields → Fields
unfolding codes
tuple_fields rest = field (codes "merchantId") (str (codes "shop")) (
    field (codes "nonce") (str (codes "n1")) (
      field (codes "network") (str (codes "concordium:testnet")) (
        field (codes "asset") token (
          field (codes "amount") (str (codes " 1.5"))
            (field (codes "payTo") (str (codes "addr")) rest)))))

-- The body that creates the challenge
abbrev pub create_body : Value
unfolding codes
create_body = obj (tuple_fields (field (codes "expiry") (str (codes "soon")) end))

-- The body that fulfills it
abbrev pub fulfill_body : Value
unfolding codes
fulfill_body = obj (tuple_fields (field (codes "txHash") (str (codes "t1")) end))

-- The same, without asking for an event
abbrev pub ungated_body : Value
unfolding codes
ungated_body = obj (tuple_fields (field (codes "requireEvent") (str (codes "0")) end))

abbrev pub asset : Asset
unfolding codes
asset = record { asset_type = codes "PLT"; token_id = codes "EUDemo"; decimals = whole (pos 2) }

abbrev pub tuple : PaymentTuple
unfolding codes
tuple = record {
  merchant_id = codes "shop";
  nonce = codes "n1";
  network = testnet;
  asset = asset;
  amount = codes "1.5";
  pay_to = codes "addr";
}

abbrev pub challenge : Challenge
challenge = record {
  merchant_id = tuple.merchant_id;
  nonce = tuple.nonce;
  network = tuple.network;
  asset = asset;
  amount = tuple.amount;
  pay_to = tuple.pay_to;
  expiry = 5000;
  policy = obj end;
  metadata = obj end;
  status = pending;
  receipt = none;
  created_at = 1;
  updated_at = 1;
}

abbrev pub event : PltEvent
unfolding codes
event = record {
  block_hash = codes "b1";
  block_height = 12;
  transaction_hash = codes "t1";
  event_index = 0;
  network = testnet;
  network_genesis_index = pos 7;
  finalized = true;
  event_type = codes "transfer";
  from_address = some (codes "payer");
  to_address = some (codes "addr");
  amount_raw = codes "150";
  asset_id = codes "EUDemo";
  occurred_at = 3000;
}

abbrev pub registry : List PltAsset
unfolding codes
registry =
    record {
      network = testnet;
      network_genesis_index = pos 7;
      asset_id = codes "EUDemo";
      symbol = codes "EUD";
      decimals = pos 2;
      enabled = true;
    }
    ∷ []

-- The challenge is open and the transfer has been seen.
abbrev pub ready : Db
ready = record { challenges = challenge ∷ []; events = event ∷ []; claims = []; assets = registry }

-- What the handler decides on
abbrev pub paid : Settlement
unfolding codes
paid = settlement_of services tuple (pos 7) challenge event (codes "150")
