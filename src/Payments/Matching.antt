-- ===== src/Payments/Matching.antt =====
-- `findExactMatch` against the table of challenges.
use xcf_concordium_facilitat.Base.{
  ◌≤◌, ◌≡◌, Bool, true, false, ◌&&◌, some, List, arith, inl, inr, Option-cases, is_empty, length,
  keep, find_sound, find-none, In, Text, text_eq_iff, includes, trim, num_eq,
}
use xcf_concordium_facilitat.NetworkId.{network_candidates}
use xcf_concordium_facilitat.Store.{Challenge}
use xcf_concordium_facilitat.Store.Search.{selects, effective_limit, search_payments, matches_text}
use xcf_concordium_facilitat.Store.Results.{search_payments_sound, search_payments_complete}
use xcf_concordium_facilitat.Payments.{
  PaymentTuple, is_incomplete, exact_match_filters, is_exact_match, find_exact_match,
}

-- A challenge that has been created with the tuple
pub record IsMatch (t : PaymentTuple) (row : Challenge) : Type 0 where
  pub merchant_id : row.merchant_id ≡ t.merchant_id
  pub nonce : row.nonce ≡ t.nonce
  pub network : includes (trim row.network) (network_candidates t.network) ≡ true
  pub asset_type : row.asset.asset_type ≡ t.asset.asset_type
  pub token_id : row.asset.token_id ≡ t.asset.token_id
  pub decimals : num_eq row.asset.decimals t.asset.decimals ≡ true
  pub amount : row.amount ≡ t.amount
  pub pay_to : row.pay_to ≡ t.pay_to

matches_text_sound :
    (v column : Text) → is_empty v ≡ false → matches_text (some v) column ≡ true → column ≡ v
matches_text_sound v column full h = (text_eq_iff column v).0 (rw full at h)

-- The tuple names its merchant and its address.
abbrev pub IsNamed : PaymentTuple → Type 0
IsNamed t = (is_empty t.merchant_id ≡ false) × (is_empty t.pay_to ≡ false)

pub is_incomplete-IsNamed : (t : PaymentTuple) → is_incomplete t ≡ false → IsNamed t
unfolding is_incomplete
is_incomplete-IsNamed t h = ground arith

five :
    (a b c d e : Bool)
    → (a && b && c && d && e) ≡ true
    → (a ≡ true) × (b ≡ true) × (c ≡ true) × (d ≡ true) × (e ≡ true)
five a b c d e h = ground arith

six :
    (a b c d e f : Bool)
    → (a && b && c && d && e && f) ≡ true
    → (a ≡ true) × (b ≡ true) × (c ≡ true) × (d ≡ true) × (e ≡ true) × (f ≡ true)
six a b c d e f h = ground arith

selects_sound :
    (t : PaymentTuple) (row : Challenge)
    → IsNamed t
    → selects (exact_match_filters t) row ≡ true
    → (row.merchant_id ≡ t.merchant_id) × (row.pay_to ≡ t.pay_to)
unfolding selects exact_match_filters
selects_sound t row (some_merchant, some_address) h =
    let (merchant, network, token, address, status) = five _ _ _ _ _ h in
    (
      matches_text_sound t.merchant_id row.merchant_id some_merchant merchant,
      matches_text_sound t.pay_to row.pay_to some_address address,
    )

pub find_exact_match-IsMatch :
    (t : PaymentTuple) (challenges : List Challenge) (row : Challenge)
    → IsNamed t
    → find_exact_match t challenges ≡ some row
    → In row challenges × IsMatch t row
unfolding find_exact_match is_exact_match
find_exact_match-IsMatch t challenges row named found =
    let (test, listed) =
      find_sound (is_exact_match t) (search_payments (exact_match_filters t) challenges) row
        found in
    let (chosen, there) = (search_payments_sound (exact_match_filters t) challenges).1 row listed in
    let (merchant, address) = selects_sound t row named chosen in
    let (nonce, amount, network, kind, token, decimals) = six _ _ _ _ _ _ test in
    (
      there,
      record {
        merchant_id = merchant;
        nonce = (text_eq_iff row.nonce t.nonce).0 nonce;
        network = network;
        asset_type = (text_eq_iff row.asset.asset_type t.asset.asset_type).0 kind;
        token_id = (text_eq_iff row.asset.token_id t.asset.token_id).0 token;
        decimals = decimals;
        amount = (text_eq_iff row.amount t.amount).0 amount;
        pay_to = address;
      },
    )

-- What `findExactMatch` returns for a complete tuple is a challenge of the table that has been created
-- with this tuple, up to an equivalent network name.
pub find_exact_match_sound :
    (t : PaymentTuple) (challenges : List Challenge) (row : Challenge)
    → is_incomplete t ≡ false
    → find_exact_match t challenges ≡ some row
    → In row challenges × IsMatch t row
find_exact_match_sound t challenges row complete found =
    find_exact_match-IsMatch t challenges row (is_incomplete-IsNamed t complete) found

-- `findExactMatch` finds a challenge if one of the table passes its filters and its comparison and if
-- at most 100 rows pass the filters.
pub find_exact_match_complete :
    (t : PaymentTuple) (challenges : List Challenge) (row : Challenge)
    → length (keep (selects (exact_match_filters t)) challenges) ≤ 100
    → In row challenges
    → selects (exact_match_filters t) row ≡ true
    → is_exact_match t row ≡ true
    → (found : Challenge) × (find_exact_match t challenges ≡ some found)
unfolding find_exact_match
find_exact_match_complete t challenges row room there chosen test =
    elim (Option-cases (find_exact_match t challenges)) [
      | inr found ↦ found
      | inl missing ↦
          let unseen =
            find-none (is_exact_match t) (search_payments (exact_match_filters t) challenges)
              missing row
              (search_payments_complete (exact_match_filters t) challenges row
                (unfold effective_limit exact_match_filters in room) there chosen) in
          cc
    ]
