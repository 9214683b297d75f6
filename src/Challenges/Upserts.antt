-- ===== src/Challenges/Upserts.antt =====
-- What `upsertChallenge` answers to a first and to a second post.
use xcf_concordium_facilitat.Base.{
  ℕ, ◌≡◌, ◌≢◌, refl, ap, Bool, true, ◌&&◌, none, some, List, [], ◌∷◌, ◌++◌, arith, inl, inr,
  Bool-cases, Option-cases, ◌==◌, Text, text_eq, text_eq_iff, text_eq_self,
}
use xcf_concordium_facilitat.NetworkId.{normalize_network_id, networks_equivalent}
use xcf_concordium_facilitat.Challenges.{
  Json, Row, NewChallenge, has_row_key, get_status, or_empty, new_row, same_payload_as, created,
  same_payload, conflict, upsert_challenge,
}

get_status-append :
    (m n : Text) (rows : List Row) (r row : Row)
    → get_status m n rows ≡ some row
    → get_status m n (rows ++ r ∷ []) ≡ some row
unfolding get_status
get_status-append m n [] r row h = cc
get_status-append m n (x ∷ rows) r row h = elim (Bool-cases (has_row_key m n x)) [
  | inl key ↦ rw (key, get_status) (rw (key, get_status) at h)
  | inr other ↦
      rw (other, get_status) (get_status-append m n rows r row (rw (other, get_status) at h))
]

get_status-appended :
    (rows : List Row) (r : Row)
    → get_status r.merchant_id r.nonce rows ≡ none
    → get_status r.merchant_id r.nonce (rows ++ r ∷ []) ≡ some r
unfolding get_status
get_status-appended [] r h = rw (text_eq_self r.merchant_id, text_eq_self r.nonce) refl
get_status-appended (x ∷ rows) r h = elim (Bool-cases (has_row_key r.merchant_id r.nonce x)) [
  | inl key ↦ cc (rw (key, get_status) at h)
  | inr other ↦ rw (other, get_status) (get_status-appended rows r (rw (other, get_status) at h))
]

-- A post changes no row that stands in the table, whatever its payload.
pub upsert_challenge-keeps :
    (js : Json) (input : NewChallenge) (now : ℕ) (rows : List Row) (m n : Text) (row : Row)
    → get_status m n rows ≡ some row
    → get_status m n (upsert_challenge js input now rows).1 ≡ some row
unfolding upsert_challenge
upsert_challenge-keeps js input now rows m n row h = elim (Option-cases (js.date input.expiry)) [
  | inl no_date ↦ rw (no_date, upsert_challenge) h
  | inr (expiry, dated) ↦ elim (Option-cases (get_status input.merchant_id input.nonce rows)) [
    | inl fresh ↦
        rw (dated, fresh, upsert_challenge)
          (get_status-append m n rows (new_row js input expiry now) row h)
    | inr (old, found) ↦ rw (dated, found, upsert_challenge) h
  ]
]

-- Postgres gives back the three JSON columns as the texts that were written.
pub record ReadsBack (js : Json) (input : NewChallenge) : Type 0 where
  pub asset : js.stringify (js.stored input.asset) ≡ js.stringify input.asset
  pub policy :
      js.stringify (or_empty (js.stored (or_empty input.policy)))
      ≡ js.stringify (or_empty input.policy)
  pub metadata :
      js.stringify (or_empty (js.stored (or_empty input.metadata)))
      ≡ js.stringify (or_empty input.metadata)

equivalent_self : (n : Text) → networks_equivalent n n ≡ true
unfolding networks_equivalent
equivalent_self n = rw (text_eq_self (normalize_network_id n))

number_eq_self : (n : ℕ) → (n == n) ≡ true
number_eq_self n = ground arith

-- The first post of a challenge is answered with its row.
pub first_post :
    (js : Json) (input : NewChallenge) (now expiry : ℕ) (rows : List Row)
    → js.date input.expiry ≡ some expiry
    → get_status input.merchant_id input.nonce rows ≡ none
    → upsert_challenge js input now rows
      ≡ (created (new_row js input expiry now), rows ++ new_row js input expiry now ∷ [])
unfolding upsert_challenge
first_post js input now expiry rows dated fresh = rw (dated, fresh, upsert_challenge) refl

pub found_again :
    (js : Json) (input : NewChallenge) (now expiry : ℕ) (rows : List Row)
    → get_status input.merchant_id input.nonce rows ≡ none
    → get_status input.merchant_id input.nonce (rows ++ new_row js input expiry now ∷ [])
      ≡ some (new_row js input expiry now)
unfolding new_row
found_again js input now expiry rows fresh =
    get_status-appended rows (new_row js input expiry now) fresh

same_again :
    (js : Json) (input : NewChallenge) (now expiry : ℕ)
    → ReadsBack js input
    → same_payload_as js input expiry (new_row js input expiry now) ≡ true
unfolding same_payload_as new_row
same_again js input now expiry back = rw (
  equivalent_self input.network,
  back.asset,
  back.policy,
  back.metadata,
  text_eq_self input.amount,
  text_eq_self input.pay_to,
  number_eq_self expiry,
  text_eq_self (js.stringify input.asset),
  text_eq_self (js.stringify (or_empty input.policy)),
  text_eq_self (js.stringify (or_empty input.metadata)),
)

-- Posting is idempotent: if the expiry is a date, the key is free and Postgres gives the JSON columns
-- back as written, the first post creates the row, and a second post of the same challenge is
-- answered with this row as the same payload and changes nothing.
pub upsert_challenge_idempotent :
    (js : Json) (input : NewChallenge) (now later expiry : ℕ) (rows : List Row)
    → js.date input.expiry ≡ some expiry
    → get_status input.merchant_id input.nonce rows ≡ none
    → ReadsBack js input
    → ((upsert_challenge js input now rows).0 ≡ created (new_row js input expiry now))
      × (upsert_challenge js input later (upsert_challenge js input now rows).1
          ≡ (same_payload (new_row js input expiry now), (upsert_challenge js input now rows).1))
unfolding upsert_challenge
upsert_challenge_idempotent js input now later expiry rows dated fresh back =
    let first = first_post js input now expiry rows dated fresh in
    (
      ap (λ x. x.0) first,
      rw first (
          rw
            (
              dated,
              found_again js input now expiry rows fresh,
              same_again js input now expiry back,
              upsert_challenge,
            )
            refl),
    )

second : (a b c d e f g : Bool) → (a && b && c && d && e && f && g) ≡ true → b ≡ true
second a b c d e f g h = ground arith

asset_part :
    (js : Json) (input : NewChallenge) (now expiry : ℕ)
    → same_payload_as js input expiry (new_row js input expiry now) ≡ true
    → text_eq (js.stringify (js.stored input.asset)) (js.stringify input.asset) ≡ true
unfolding same_payload_as new_row
asset_part js input now expiry h = second _ _ _ _ _ _ _ h

-- If the asset column comes back as another text than was written, as with keys in an order that
-- JSONB does not keep, the second post of the very same challenge is a conflict.
pub upsert_challenge-reordered :
    (js : Json) (input : NewChallenge) (now later expiry : ℕ) (rows : List Row)
    → js.date input.expiry ≡ some expiry
    → get_status input.merchant_id input.nonce rows ≡ none
    → js.stringify (js.stored input.asset) ≢ js.stringify input.asset
    → (upsert_challenge js input later (upsert_challenge js input now rows).1).0 ≡ conflict
unfolding upsert_challenge
upsert_challenge-reordered js input now later expiry rows dated fresh other =
    rw (first_post js input now expiry rows dated fresh)
      (elim (Bool-cases (same_payload_as js input expiry (new_row js input expiry now))) [
        | inr different ↦
            rw (dated, found_again js input now expiry rows fresh, different, upsert_challenge) refl
        | inl same ↦ absurd (other ((text_eq_iff _ _).0 (asset_part js input now expiry same)))
      ])
