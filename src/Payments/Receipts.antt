-- ===== src/Payments/Receipts.antt =====
-- What a settlement claims and what its receipt says, against the event that it is for.
use mathlib.Core.Option.{some-injective}
use xcf_concordium_facilitat.Base.{
  ℕ, ◌≡◌, ◌<◌, refl, sym, ap, ◌∙◌, Bool, true, false, ◌&&◌, Option, none, some, List, arith,
  Bool-cases, inl, inr, Text, text_eq, text_eq_iff, includes, codes, int_eq, ℤ, ltb, In, Value,
  ltb→lt,
}
use xcf_concordium_facilitat.Base.Js.{int_eq_iff}
use xcf_concordium_facilitat.NetworkId.{normalize_network_id, network_candidates}
use xcf_concordium_facilitat.Decimals.{ok, to_minor_units}
use xcf_concordium_facilitat.Store.{Proof, proof, PltEvent, Db}
use xcf_concordium_facilitat.Payments.{PaymentTuple}
use xcf_concordium_facilitat.Payments.Matching.{IsMatch, find_exact_match-IsMatch}
use xcf_concordium_facilitat.Payments.Services.{Services}
use xcf_concordium_facilitat.Payments.Fulfill.{
  Settlement, already_settled, settle, decide, settlement_of, is_event_of, is_address,
}
use xcf_concordium_facilitat.Payments.Fulfill.Proofs.{build_proof, expires_after, unix_seconds}
use xcf_concordium_facilitat.Payments.Fulfill.Decisions.{IsSettlement, decide-settle}

-- The event that the query accepts
pub record Fits (t : PaymentTuple) (e : PltEvent) (amount_minor : Text) : Type 0 where
  pub network : includes e.network (network_candidates t.network) ≡ true
  pub asset_id : e.asset_id ≡ t.asset.token_id
  pub to_address : e.to_address ≡ some t.pay_to
  pub amount_raw : e.amount_raw ≡ amount_minor
  pub event_type : e.event_type ≡ codes "transfer"

is_address_sound : (a : Text) (o : Option Text) → is_address a o ≡ true → o ≡ some a
is_address_sound a none h = cc
is_address_sound a (some b) h = ap some ((text_eq_iff b a).0 h)

seven :
    (a b c d e f g : Bool)
    → (a && b && c && d && e && f && g) ≡ true
    → (a ≡ true) × (b ≡ true) × (c ≡ true) × (d ≡ true) × (e ≡ true) × (f ≡ true) × (g ≡ true)
seven a b c d e f g h = ground arith

is_event_of_tests :
    (nets : List Text) (ngi : ℤ) (token_id pay_to amount_minor tx_hash : Text) (e : PltEvent)
    → is_event_of nets ngi token_id pay_to amount_minor tx_hash e ≡ true
    → (includes e.network nets ≡ true)
      × (int_eq e.network_genesis_index ngi ≡ true)
      × (text_eq e.asset_id token_id ≡ true)
      × (is_address pay_to e.to_address ≡ true)
      × (text_eq e.amount_raw amount_minor ≡ true)
      × (text_eq e.transaction_hash tx_hash ≡ true)
      × (text_eq e.event_type (codes "transfer") ≡ true)
is_event_of_tests nets ngi token_id pay_to amount_minor tx_hash e h =
    seven (includes e.network nets) (int_eq e.network_genesis_index ngi)
      (text_eq e.asset_id token_id) (is_address pay_to e.to_address)
      (text_eq e.amount_raw amount_minor) (text_eq e.transaction_hash tx_hash)
      (text_eq e.event_type (codes "transfer")) (unfold is_event_of in h)

module _ {sv : Services} {db : Db} {s : Settlement} (d : IsSettlement sv db s) where
  pub claim-network : s.claim.network ≡ normalize_network_id s.event.network
  unfolding settlement_of
  claim-network = ap (λ (x : Settlement). x.claim.network) d.parts

  pub claim-tx_hash : s.claim.tx_hash ≡ s.event.transaction_hash
  unfolding settlement_of
  claim-tx_hash = ap (λ (x : Settlement). x.claim.tx_hash) d.parts

  pub claim-event_index : s.claim.event_index ≡ s.event.event_index
  unfolding settlement_of
  claim-event_index = ap (λ (x : Settlement). x.claim.event_index) d.parts

  pub claim-merchant_id : s.claim.merchant_id ≡ s.tuple.merchant_id
  unfolding settlement_of
  claim-merchant_id = ap (λ (x : Settlement). x.claim.merchant_id) d.parts

  pub claim-nonce : s.claim.nonce ≡ s.tuple.nonce
  unfolding settlement_of
  claim-nonce = ap (λ (x : Settlement). x.claim.nonce) d.parts

  pub receipt-payload :
      s.receipt.payload ≡ proof (build_proof sv.runtime s.tuple s.row s.event d.amount_minor)
  unfolding settlement_of
  receipt-payload = ap (λ (x : Settlement). x.receipt.payload) d.parts

  pub event-Fits :
      (s.event.network_genesis_index ≡ d.ngi)
      × (s.event.transaction_hash ≡ d.tx_hash)
      × Fits s.tuple s.event d.amount_minor
  event-Fits =
      let (network, genesis, asset, address, amount, tx, kind) =
        is_event_of_tests (network_candidates s.tuple.network) d.ngi s.tuple.asset.token_id
          s.tuple.pay_to d.amount_minor d.tx_hash s.event d.fits in
      (
        (int_eq_iff _ _).0 genesis,
        (text_eq_iff _ _).0 tx,
        record {
          network = network;
          asset_id = (text_eq_iff _ _).0 asset;
          to_address = is_address_sound _ _ address;
          amount_raw = (text_eq_iff _ _).0 amount;
          event_type = (text_eq_iff _ _).0 kind;
        },
      )

  pub claim-genesis : s.claim.network_genesis_index ≡ s.event.network_genesis_index
  unfolding settlement_of
  claim-genesis = ap (λ (x : Settlement). x.claim.network_genesis_index) d.parts ∙ sym event-Fits.0

-- A receipt against the event and the tuple that it settles
pub record IsExact (t : PaymentTuple) (e : PltEvent) (p : Proof) : Type 0 where
  pub fits : Fits t e p.amount_raw
  pub transaction_hash : p.transaction_hash ≡ e.transaction_hash
  pub amount : to_minor_units t.amount t.asset.decimals ≡ ok p.amount_raw
  pub nonce : p.nonce ≡ t.nonce
  pub to : p.to ≡ t.pay_to
  pub alive : (x : ℕ) → p.expires_at ≡ some x → p.settled_at < x

expires_after_alive : (settled expiry x : ℕ) → expires_after settled expiry ≡ some x → settled < x
unfolding expires_after
expires_after_alive settled expiry x h = elim (Bool-cases (ltb settled expiry)) [
  | inl later ↦
      rw (sym (some-injective expiry x (rw (later, expires_after) at h)))
        (ltb→lt settled expiry later)
  | inr over ↦ cc (rw (over, expires_after) at h)
]

-- Every settlement that the handler decides on is for an event of the table, and its receipt is
-- exact: the event is a transfer of the tuple's token to its address, on an equivalent network, of
-- exactly the tuple's amount in minor units; the receipt names that transaction and amount, the
-- tuple's nonce and address, and it has expired at no time up to the settlement.
pub settlement-IsExact :
    (sv : Services) (body : Value) (db : Db) (s : Settlement)
    → decide sv body db ≡ settle s
    → In s.event db.events
      × ((p : Proof) × (s.receipt.payload ≡ proof p) × IsExact s.tuple s.event p)
settlement-IsExact sv body db s e =
    let d = decide-settle sv body db s e in
    (
      d.listed,
      (
        build_proof sv.runtime s.tuple s.row s.event d.amount_minor,
        receipt-payload d,
        unfold build_proof in
            record {
              fits = (event-Fits d).2;
              transaction_hash = refl;
              amount = d.converted;
              nonce = refl;
              to = refl;
              alive =
                  expires_after_alive (unix_seconds s.event.occurred_at)
                    (unix_seconds s.row.expiry);
            },
      ),
    )

-- Every settlement that the handler decides on is for a challenge of the table that was created with
-- the settled tuple, up to an equivalent network name, and that is not fulfilled with a signed
-- receipt yet.
pub settlement-IsMatch :
    (sv : Services) (body : Value) (db : Db) (s : Settlement)
    → decide sv body db ≡ settle s
    → In s.row db.challenges × IsMatch s.tuple s.row × (already_settled s.row ≡ false)
settlement-IsMatch sv body db s e =
    let d = decide-settle sv body db s e in
    let (there, match) = find_exact_match-IsMatch s.tuple db.challenges s.row d.named d.matched in
    (there, match, d.open_row)
