-- ===== src/Examples/Requests.antt =====
-- The reads and the texts of the payment routes on one payment.
use xcf_concordium_facilitat.Base.{
  ◌≡◌, ◌↔◌, length, keep, ◌≤◌, refl, true, false, some, Text, codes, arith, inl, In, trim, num_eq,
  text_eq, lower, to_number, split, starts_with,
}
use xcf_concordium_facilitat.NetworkId.{
  normalize_network_id, normalize_trimmed, hash_part, candidates_of, network_candidates, testnet,
  mainnet, concordium_testnet_chain_id, concordium_mainnet_chain_id, ccd_prefix,
}
use xcf_concordium_facilitat.Decimals.{all_digits, combine, to_minor_units, to_minor}
use xcf_concordium_facilitat.Store.Search.{selects, search_payments}
use xcf_concordium_facilitat.Store.Assets.{get_default_network_genesis_index, get_plt_asset}
use xcf_concordium_facilitat.Payments.{
  read_tuple, is_incomplete, requested_genesis_index, plt, normalize_asset_with_registry,
  exact_match_filters, is_exact_match, find_exact_match,
}
use xcf_concordium_facilitat.Payments.Create.{create_payment}
use xcf_concordium_facilitat.Payments.Create.Effects.{Effect, create_payment-Effect}
use xcf_concordium_facilitat.Payments.Fulfill.{
  already_settled, tx_hash_of, find_plt_event_by_tx, decide_asset, settle, settlement_of, decide,
  require_event_of,
}
use xcf_concordium_facilitat.Payments.Matching.{
  IsMatch, find_exact_match_sound, find_exact_match_complete,
}
use xcf_concordium_facilitat.Payments.Receipts.{IsExact, settlement-IsExact, settlement-IsMatch}
use xcf_concordium_facilitat.Store.{Challenge, Proof, proof}
use xcf_concordium_facilitat.Store.Results.{search_payments_sound}
use xcf_concordium_facilitat.Webhook.{post_payment_webhook, get_webhook_url_for_merchant}
use xcf_concordium_facilitat.Webhook.Delivery.{IsAccepted, post_payment_webhook-ok_iff}
use xcf_concordium_facilitat.Examples.Data.{
  services, plain_runtime, create_body, fulfill_body, tuple, challenge, paid, ready,
}

reads_the_tuple : read_tuple plain_runtime fulfill_body ≡ tuple
unfolding read_tuple normalize_network_id normalize_trimmed testnet ccd_prefix codes trim to_number
    text_eq lower
reads_the_tuple = refl

finds_the_challenge : find_exact_match tuple ready.challenges ≡ some challenge
unfolding find_exact_match network_candidates candidates_of normalize_network_id normalize_trimmed
    testnet mainnet concordium_mainnet_chain_id concordium_testnet_chain_id num_eq trim text_eq
    search_payments codes lower ccd_prefix starts_with
finds_the_challenge = refl

pub decides_to_settle : decide services fulfill_body ready ≡ settle paid
unfolding decide network_candidates candidates_of normalize_network_id normalize_trimmed testnet
    mainnet concordium_mainnet_chain_id concordium_testnet_chain_id num_eq trim text_eq
    search_payments codes lower ccd_prefix starts_with read_tuple to_number is_incomplete
    requested_genesis_index normalize_asset_with_registry get_plt_asset
    get_default_network_genesis_index plt find_exact_match find_plt_event_by_tx to_minor_units
    to_minor split settlement_of tx_hash_of require_event_of hash_part decide_asset all_digits
    combine
decides_to_settle = refl

completes_the_tuple : is_incomplete tuple ≡ false
unfolding is_incomplete codes testnet
completes_the_tuple = refl

find_exact_match_sound_example : In challenge ready.challenges × IsMatch tuple challenge
find_exact_match_sound_example =
    find_exact_match_sound tuple ready.challenges challenge completes_the_tuple finds_the_challenge

selects_the_challenge : selects (exact_match_filters tuple) challenge ≡ true
unfolding selects exact_match_filters network_candidates candidates_of text_eq testnet mainnet
    normalize_network_id trim normalize_trimmed lower starts_with ccd_prefix
    concordium_testnet_chain_id
selects_the_challenge = refl

compares_the_challenge : is_exact_match tuple challenge ≡ true
unfolding is_exact_match network_candidates candidates_of text_eq testnet mainnet num_eq trim
    normalize_network_id normalize_trimmed lower starts_with ccd_prefix concordium_testnet_chain_id
compares_the_challenge = refl

one_row : length (keep (selects (exact_match_filters tuple)) ready.challenges) ≤ 100
one_row = rw selects_the_challenge (omega arith)

find_exact_match_complete_example :
    (found : Challenge) × (find_exact_match tuple ready.challenges ≡ some found)
find_exact_match_complete_example =
    find_exact_match_complete tuple ready.challenges challenge one_row (inl refl)
      selects_the_challenge compares_the_challenge

create_payment-Effect_example :
    Effect
      (read_tuple services.runtime create_body)
      ready
      (create_payment services create_body 10 ready)
create_payment-Effect_example = create_payment-Effect services create_body 10 ready

settlement-IsExact_example :
    In paid.event ready.events
    × ((p : Proof) × (paid.receipt.payload ≡ proof p) × IsExact paid.tuple paid.event p)
settlement-IsExact_example = settlement-IsExact services fulfill_body ready paid decides_to_settle

settlement-IsMatch_example :
    In paid.row ready.challenges × IsMatch paid.tuple paid.row × (already_settled paid.row ≡ false)
settlement-IsMatch_example = settlement-IsMatch services fulfill_body ready paid decides_to_settle

search_payments_sound_example :
    (length (search_payments (exact_match_filters tuple) ready.challenges) ≤ 100)
    × ((x : Challenge)
        → In x (search_payments (exact_match_filters tuple) ready.challenges)
        → (selects (exact_match_filters tuple) x ≡ true) × In x ready.challenges)
search_payments_sound_example = search_payments_sound (exact_match_filters tuple) ready.challenges

post_payment_webhook-ok_iff_example :
    ((post_payment_webhook services.runtime services.env services.send tuple.merchant_id
        challenge).ok
      ≡ true)
    ↔ ((url : Text) × (get_webhook_url_for_merchant services.runtime services.env tuple.merchant_id
          ≡ some url)
        × IsAccepted (services.send url challenge))
post_payment_webhook-ok_iff_example =
    post_payment_webhook-ok_iff services.runtime services.env services.send tuple.merchant_id
      challenge
