-- ===== src/Payments/Ledger/Writes.antt =====
-- Which rows of `challenges` the two writing statements leave and make.
use xcf_concordium_facilitat.Base.{
  ℕ, ◌≡◌, ◌⊎◌, refl, ap, ◌∙◌, none, some, List, [], ◌∷◌, Bool-cases, inl, inr, Text, codes, get,
  plain_object_or_empty, Option-cases, text_eq, text_eq_iff, and-eq-true_iff, In, Value,
}
use xcf_concordium_facilitat.Store.{Asset, Receipt, Challenge, Db, has_key}
use xcf_concordium_facilitat.Payments.{
  PaymentTuple, AssetNorm, resolved, asset_disabled, decimals_mismatch, is_incomplete, read_tuple,
}
use xcf_concordium_facilitat.Payments.Services.{Services}
use xcf_concordium_facilitat.Payments.Create.{
  upsert_pending, pending_row, insert_challenge, create_with_asset, create_payment, expiry_time,
  expiry_text,
}
use xcf_concordium_facilitat.Payments.Settle.{set_fulfilled, with_receipt}

pub upsert_pending-In :
    (row : Challenge) (cs : List Challenge) (c : Challenge)
    → In c (upsert_pending row cs)
    → In c cs ⊎ (c.receipt ≡ row.receipt)
unfolding upsert_pending
upsert_pending-In row [] c (inl e) = inr (ap (λ (x : Challenge). x.receipt) e)
upsert_pending-In row [] c (inr h) = absurd h
upsert_pending-In row (d ∷ cs) c h = elim (Bool-cases (has_key row.merchant_id row.nonce d)) [
  | inl same ↦
      elim (let k : In c (record row { created_at = d.created_at } ∷ cs) = rw same at h in k) [
        | inl e ↦ inr (ap (λ (x : Challenge). x.receipt) e)
        | inr later ↦ inl (inr later)
      ]
  | inr other ↦ elim (let k : In c (d ∷ upsert_pending row cs) = rw other at h in k) [
    | inl e ↦ inl (inl e)
    | inr later ↦ elim (upsert_pending-In row cs c later) [
      | inl old ↦ inl (inr old)
      | inr new ↦ inr new
    ]
  ]
]

-- The row that the `UPDATE` has written
pub record IsWritten (m n : Text) (r : Receipt) (c : Challenge) : Type 0 where
  pub merchant_id : c.merchant_id ≡ m
  pub nonce : c.nonce ≡ n
  pub receipt : c.receipt ≡ some r

pub set_fulfilled-In :
    (m n : Text) (r : Receipt) (now : ℕ) (cs : List Challenge) (c : Challenge)
    → In c (set_fulfilled m n r now cs)
    → In c cs ⊎ IsWritten m n r c
unfolding set_fulfilled
set_fulfilled-In m n r now [] c h = absurd h
set_fulfilled-In m n r now (d ∷ cs) c (inr later) = elim (set_fulfilled-In m n r now cs c later) [
  | inl old ↦ inl (inr old)
  | inr new ↦ inr new
]
set_fulfilled-In m n r now (d ∷ cs) c (inl e) = elim (Bool-cases (has_key m n d)) [
  | inr other ↦ inl (inl (e ∙ rw other))
  | inl key ↦
      let (mk, nk) = (and-eq-true_iff (text_eq d.merchant_id m) (text_eq d.nonce n)).0 key in
      let same : c ≡ with_receipt r now d = e ∙ rw key in
      inr (record {
        merchant_id =
            ap (λ (x : Challenge). x.merchant_id) same ∙ (text_eq_iff d.merchant_id m).0 mk;
        nonce = ap (λ (x : Challenge). x.nonce) same ∙ (text_eq_iff d.nonce n).0 nk;
        receipt = ap (λ (x : Challenge). x.receipt) same;
      })
]

-- A creation leaves the database alone, or upserts one row without a receipt.
abbrev pub IsUpsert : Db → Db → Type 0
IsUpsert db db' =
    (row : Challenge) × (row.receipt ≡ none)
    × (db' ≡ record db { challenges = upsert_pending row db.challenges })

insert_challenge-cases :
    (sv : Services) (t : PaymentTuple) (asset : Asset) (body : Value) (now : ℕ) (db : Db)
    → ((insert_challenge sv t asset body now db).1 ≡ db)
      ⊎ IsUpsert db (insert_challenge sv t asset body now db).1
unfolding insert_challenge
insert_challenge-cases sv t asset body now db =
    elim (Option-cases (expiry_time sv (expiry_text sv.runtime (get body (codes "expiry"))))) [
      | inl unreadable ↦ inl (rw (unreadable, insert_challenge))
      | inr (expiry, found) ↦ inr (
        pending_row t asset expiry (plain_object_or_empty (get body (codes "policy")))
            (plain_object_or_empty (get body (codes "metadata"))) now,
        refl,
        rw (found, insert_challenge),
      )
    ]

create_with_asset-cases :
    (sv : Services) (t : PaymentTuple) (body : Value) (now : ℕ) (n : AssetNorm) (db : Db)
    → ((create_with_asset sv t body now n db).1 ≡ db)
      ⊎ IsUpsert db (create_with_asset sv t body now n db).1
create_with_asset-cases sv t body now (resolved asset ngi from_db) db =
    unfold create_with_asset in insert_challenge-cases sv t asset body now db
create_with_asset-cases sv t body now asset_disabled db = inl (unfold create_with_asset in refl)
create_with_asset-cases sv t body now (decimals_mismatch p r) db =
    inl (unfold create_with_asset in refl)

pub create_payment-cases :
    (sv : Services) (body : Value) (now : ℕ) (db : Db)
    → ((create_payment sv body now db).1 ≡ db) ⊎ IsUpsert db (create_payment sv body now db).1
unfolding create_payment
create_payment-cases sv body now db =
    elim (Bool-cases (is_incomplete (read_tuple sv.runtime body))) [
      | inl bad ↦ inl (rw (bad, create_payment))
      | inr fine ↦
          rw (fine, create_payment)
            (create_with_asset-cases sv (read_tuple sv.runtime body) body now _ db)
    ]
