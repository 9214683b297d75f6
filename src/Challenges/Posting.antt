-- ===== src/Challenges/Posting.antt =====
-- What the routes over the repository of challenges answer, one after the other.
use xcf_concordium_facilitat.Base.{
  ℕ, ◌≡◌, refl, sym, ap, ◌∙◌, false, none, some, List, [], ◌∷◌, ◌++◌, Text,
}
use xcf_concordium_facilitat.Challenges.{
  Json, Row, get_status, same_payload, new_row, upsert_challenge,
}
use xcf_concordium_facilitat.Challenges.Upserts.{
  ReadsBack, first_post, found_again, upsert_challenge_idempotent,
}
use xcf_concordium_facilitat.Challenges.Routes.{
  ChallengeBody, is_blank_header, lacks_field, payload_of, posted_created, posted_again,
  post_challenge, shown, get_challenge_status,
}

-- A complete post with a merchant and a valid expiry, as the handler passes it on
pub record IsPost (js : Json) (iso : ℕ → Text) (merchant_id : Text) (b : ChallengeBody) (expiry : ℕ)
    : Type 0 where
  pub named : is_blank_header (some merchant_id) ≡ false
  pub complete : lacks_field b ≡ false
  pub dated : js.date b.expiry ≡ some expiry
  pub printed : js.date (iso expiry) ≡ some expiry

-- A challenge makes the round trip: if the post names its merchant, is complete and has a valid
-- expiry, whose ISO form reads back, if the key is free and the JSON columns read back, then the
-- post creates a row, the status of the nonce shows the row, and the same post once more is answered
-- with the row and changes nothing.
pub post_challenge-get_challenge_status :
    (js : Json) (iso : ℕ → Text) (merchant_id : Text) (b : ChallengeBody) (expiry now later : ℕ)
    (rows : List Row)
    → IsPost js iso merchant_id b expiry
    → get_status merchant_id b.nonce rows ≡ none
    → ReadsBack js (payload_of iso merchant_id b expiry)
    → (row : Row) × (post_challenge js iso (some merchant_id) b now rows
        ≡ (posted_created row, rows ++ row ∷ []))
      × (get_challenge_status (some merchant_id) b.nonce (rows ++ row ∷ []) ≡ shown row)
      × (post_challenge js iso (some merchant_id) b later (rows ++ row ∷ [])
          ≡ (posted_again row, rows ++ row ∷ []))
unfolding post_challenge get_challenge_status payload_of
post_challenge-get_challenge_status js iso merchant_id b expiry now later rows p fresh back =
    let input = payload_of iso merchant_id b expiry in
    let row = new_row js input expiry now in
    let first = first_post js input now expiry rows p.printed fresh in
    let found = found_again js input now expiry rows fresh in
    let again =
      (upsert_challenge_idempotent js input now later expiry rows p.printed fresh back).1 in
    let again' : upsert_challenge js input later (rows ++ row ∷ [])
        ≡ (same_payload row, rows ++ row ∷ []) =
      sym (ap (λ x. upsert_challenge js input later x.1) first)
      ∙ again
      ∙ ap (λ x. (same_payload row, x.1)) first in
    (
      row,
      rw (p.named, p.complete, p.dated, first) refl,
      rw (p.named, found) refl,
      rw (p.named, p.complete, p.dated, again') refl,
    )
