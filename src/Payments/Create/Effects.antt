-- ===== src/Payments/Create/Effects.antt =====
-- What the creating statement leaves in the table of challenges.
use xcf_concordium_facilitat.Base.{
  ℕ, ◌≡◌, ◌⊎◌, refl, ◌∙◌, true, false, ◌&&◌, none, some, List, [], ◌∷◌, inl, inr, Bool-cases,
  Option-cases, Text, codes, get, plain_object_or_empty, text_eq, text_eq_iff, text_eq_self,
  and-eq-true_iff, Value,
}
use xcf_concordium_facilitat.Store.{Asset, Challenge, pending, Db, has_key}
use xcf_concordium_facilitat.Payments.{
  PaymentTuple, AssetNorm, resolved, asset_disabled, decimals_mismatch, is_incomplete, read_tuple,
}
use xcf_concordium_facilitat.Payments.Services.{Services}
use xcf_concordium_facilitat.Payments.Create.{
  Created, created, expiry_text, expiry_time, pending_row, upsert_pending, row_of, insert_challenge,
  create_with_asset, create_payment,
}

pub has_key_sound :
    (m n : Text) (c : Challenge) → has_key m n c ≡ true → (c.merchant_id ≡ m) × (c.nonce ≡ n)
has_key_sound m n c h =
    let (k, l) = (and-eq-true_iff (text_eq c.merchant_id m) (text_eq c.nonce n)).0 h in
    ((text_eq_iff c.merchant_id m).0 k, (text_eq_iff c.nonce n).0 l)

has_key_self : (c : Challenge) → has_key c.merchant_id c.nonce c ≡ true
has_key_self c = rw (text_eq_self c.merchant_id, text_eq_self c.nonce) refl

-- Two rows of one key are told apart from the same keys.
pub has_key_alike :
    (c d : Challenge)
    → has_key d.merchant_id d.nonce c ≡ true
    → (m n : Text) → has_key m n c ≡ has_key m n d
has_key_alike c d h m n = let (x, y) = has_key_sound d.merchant_id d.nonce c h in rw (x, y)

row_of-upsert_same :
    (row : Challenge) (cs : List Challenge)
    → (at : ℕ) × (row_of row.merchant_id row.nonce (upsert_pending row cs)
        ≡ some (record row { created_at = at }))
unfolding row_of upsert_pending
row_of-upsert_same row [] = (row.created_at, rw (has_key_self row))
row_of-upsert_same row (c ∷ cs) = elim (Bool-cases (has_key row.merchant_id row.nonce c)) [
  | inl same ↦ (c.created_at, rw (same, has_key_self row, row_of))
  | inr other ↦ let (at, found) = row_of-upsert_same row cs in (at, rw (other, other, row_of) found)
]

row_of-upsert_other :
    (row : Challenge) (m n : Text) (cs : List Challenge)
    → has_key m n row ≡ false
    → row_of m n (upsert_pending row cs) ≡ row_of m n cs
unfolding row_of upsert_pending
row_of-upsert_other row m n [] h = rw h
row_of-upsert_other row m n (c ∷ cs) h = elim (Bool-cases (has_key row.merchant_id row.nonce c)) [
  | inl same ↦
      let k : has_key m n c ≡ false = has_key_alike c row same m n ∙ h in rw (same, h, k, row_of)
  | inr other ↦ rw (other, row_of-upsert_other row m n cs h, row_of)
]

-- The creation of a challenge: the row that is answered stands in the table, pending, without a
-- receipt and with the tuple's terms, and every other key has the row that it had.
pub record IsCreated (t : PaymentTuple) (before after : Db) (answered : Created) : Type 0 where
  pub row : Challenge
  pub answers : answered ≡ created row
  pub stored : row_of t.merchant_id t.nonce after.challenges ≡ some row
  pub status : row.status ≡ pending
  pub receipt : row.receipt ≡ none
  pub network : row.network ≡ t.network
  pub amount : row.amount ≡ t.amount
  pub pay_to : row.pay_to ≡ t.pay_to
  pub others :
      (m n : Text)
      → (text_eq t.merchant_id m && text_eq t.nonce n) ≡ false
      → row_of m n after.challenges ≡ row_of m n before.challenges
  pub events : after.events ≡ before.events
  pub claims : after.claims ≡ before.claims
  pub assets : after.assets ≡ before.assets

-- The effect of a creating step: none, or the creation of one challenge
abbrev pub Effect : PaymentTuple → Db → Created × Db → Type 0
Effect t db result = (result.1 ≡ db) ⊎ IsCreated t db result.1 result.0

inserted-IsCreated :
    (sv : Services) (t : PaymentTuple) (asset : Asset) (body : Value) (now : ℕ) (db : Db)
    → Effect t db (insert_challenge sv t asset body now db)
unfolding insert_challenge pending_row
inserted-IsCreated sv t asset body now db =
    elim (Option-cases (expiry_time sv (expiry_text sv.runtime (get body (codes "expiry"))))) [
      | inl unreadable ↦ inl (rw (unreadable, insert_challenge) refl)
      | inr (expiry, found) ↦
          let row =
            pending_row t asset expiry (plain_object_or_empty (get body (codes "policy")))
              (plain_object_or_empty (get body (codes "metadata"))) now in
          let (at, stored) = row_of-upsert_same row db.challenges in
          inr (record {
            row = record row { created_at = at };
            answers = rw (found, stored, insert_challenge) refl;
            stored = rw (found, insert_challenge) stored;
            status = refl;
            receipt = refl;
            network = refl;
            amount = refl;
            pay_to = refl;
            others = λ m n other.
                rw (found, insert_challenge) (row_of-upsert_other row m n db.challenges other);
            events = rw (found, insert_challenge) refl;
            claims = rw (found, insert_challenge) refl;
            assets = rw (found, insert_challenge) refl;
          })
    ]

asset-Effect :
    (sv : Services) (t : PaymentTuple) (body : Value) (now : ℕ) (n : AssetNorm) (db : Db)
    → Effect t db (create_with_asset sv t body now n db)
unfolding create_with_asset
asset-Effect sv t body now (resolved asset ngi from_db) db =
    inserted-IsCreated sv t asset body now db
asset-Effect sv t body now asset_disabled db = inl refl
asset-Effect sv t body now (decimals_mismatch p r) db = inl refl

-- POST /v1/crp/payments leaves the database as it was, or it answers with the challenge that it
-- wrote: that row then stands under the tuple's key, pending, without a receipt and with the
-- tuple's network, amount and address, every other key has the row that it had, and events, claims
-- and assets are untouched.
pub create_payment-Effect :
    (sv : Services) (body : Value) (now : ℕ) (db : Db)
    → Effect (read_tuple sv.runtime body) db (create_payment sv body now db)
unfolding create_payment
create_payment-Effect sv body now db =
    elim (Bool-cases (is_incomplete (read_tuple sv.runtime body))) [
      | inl bad ↦ inl (rw (bad, create_payment) refl)
      | inr fine ↦
          rw (fine, create_payment) (asset-Effect sv (read_tuple sv.runtime body) body now _ db)
    ]
