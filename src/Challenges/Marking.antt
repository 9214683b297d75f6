-- ===== src/Challenges/Marking.antt =====
-- What `markFulfilled` writes.
use xcf_concordium_facilitat.Base.{
  ℕ, ◌≡◌, ◌&&◌, Option, none, some, List, [], ◌∷◌, if◌then◌else◌, Text, text_eq, Value,
}
use xcf_concordium_facilitat.Challenges.{
  Json, Row, ReceiptRow, Tables, get_status, attach, Marked, marked,
}

-- The durable copy of a receipt
unfoldable pub receipt_of : Text → Text → List ReceiptRow → Option Text
receipt_of m n [] = none
receipt_of m n (r ∷ rs) =
    let rest = receipt_of m n rs in
    if text_eq r.merchant_id m && text_eq r.nonce n then some r.jws else rest

-- Both writes: the row of the key is the answered one, with the receipt attached, and `receipts` holds
-- the same signature under the key.
pub record IsMarked (js : Json) (m n : Text) (receipt : Value) (jws : Text) (now : ℕ)
    (before : Tables) (result : Marked × Tables) : Type 0 where
  pub row : Row
  pub found : get_status m n before.challenges ≡ some row
  pub answers : result.0 ≡ marked (attach js receipt jws now row)
  pub stored : get_status m n result.1.challenges ≡ some (attach js receipt jws now row)
  pub copied : receipt_of m n result.1.receipts ≡ some jws
