-- ===== src/Examples/Texts.antt =====
-- Network names, amounts and webhook variables on single texts.
use xcf_concordium_facilitat.Base.{
  ◌≡◌, ◌≢◌, ◌≤◌, ◌-◌, ◌*◌, ◌^◌, refl, true, false, [], ◌∷◌, ◌++◌, Text, codes, arith, length,
  text_eq, trim, split,
}
use xcf_concordium_facilitat.NetworkId.{
  networks_equivalent, canonical_chain_id_for_receipt, testnet, concordium_testnet_chain_id,
}
use xcf_concordium_facilitat.NetworkId.Equivalence.{networks_equivalent-eq-same_chain}
use xcf_concordium_facilitat.Decimals.{
  ok, err, invalid_format, all_digits, is_negative, canonical_digits, to_minor, from_minor, combine,
}
use xcf_concordium_facilitat.Decimals.Digits.{digits_value}
use xcf_concordium_facilitat.Decimals.Signs.{IsSigned}
use xcf_concordium_facilitat.Decimals.Meaning.{integer_digits, fraction_digits, to_minor_exact}
use xcf_concordium_facilitat.Decimals.Padding.{signed}
use xcf_concordium_facilitat.Decimals.RoundTrip.{to_minor-from_minor, from_minor_no_decimals}
use xcf_concordium_facilitat.Decimals.Registry.{format_plt_amount}
use xcf_concordium_facilitat.Decimals.Formatting.{to_minor-format_plt_amount}
use xcf_concordium_facilitat.Webhook.{is_key_unit, get_webhook_url_for_merchant}
use xcf_concordium_facilitat.Webhook.Keys.{IsSeparator, webhook_url_shared}
use xcf_concordium_facilitat.Examples.Data.{services}

split_test : split b':' (codes "a:b:") ≡ codes "a" ∷ codes "b" ∷ [] ∷ []
unfolding split codes
split_test = refl

trim_test : trim (codes " a b\n") ≡ codes "a b"
unfolding trim codes
trim_test = refl

networks_equivalent-eq-same_chain_example :
    networks_equivalent testnet concordium_testnet_chain_id
    ≡ text_eq
        (canonical_chain_id_for_receipt testnet)
        (canonical_chain_id_for_receipt concordium_testnet_chain_id)
networks_equivalent-eq-same_chain_example =
    networks_equivalent-eq-same_chain testnet concordium_testnet_chain_id

abbrev amount : Text
unfolding codes
amount = codes "-1.5"

converts : to_minor amount 3 ≡ ok (codes "-1500")
unfolding to_minor combine split trim codes all_digits text_eq
converts = refl

to_minor_exact_example :
    (length (fraction_digits amount) ≤ 3)
    × IsSigned
        (is_negative (trim amount))
        (digits_value (integer_digits amount ++ fraction_digits amount)
          * 10 ^ (3 - length (fraction_digits amount)))
        (codes "-1500")
to_minor_exact_example = to_minor_exact amount 3 converts

abbrev minor : Text
unfolding codes
minor = codes "150"

digits_test : all_digits minor ≡ true
unfolding all_digits codes
digits_test = refl

canonical_test : canonical_digits minor ≡ minor
unfolding canonical_digits codes
canonical_test = refl

nonzero_test : text_eq minor (b'0' ∷ []) ≡ false
unfolding text_eq codes
nonzero_test = refl

to_minor-from_minor_example :
    (major : Text) × (from_minor (signed true minor) 2 ≡ ok major)
    × (to_minor major 2 ≡ ok (signed true minor))
to_minor-from_minor_example =
    to_minor-from_minor 2 true minor (omega arith) digits_test canonical_test (λ e. nonzero_test)

-- The worker writes "-1.5" for -150 with two decimals.
to_minor-format_plt_amount_example :
    to_minor (format_plt_amount (signed true minor) 2) 2 ≡ ok (signed true minor)
to_minor-format_plt_amount_example =
    to_minor-format_plt_amount 2 true minor (omega arith) digits_test canonical_test
      (λ e. nonzero_test)

some_digits : minor ≢ []
unfolding codes
some_digits h = cc

from_minor_no_decimals_example :
    (from_minor minor 0 ≡ ok (minor ++ b'.' ∷ []))
    × (to_minor (minor ++ b'.' ∷ []) 2 ≡ err invalid_format)
from_minor_no_decimals_example = from_minor_no_decimals 2 minor some_digits digits_test

dash : IsSeparator b'-'
unfolding is_key_unit
dash = record { ascii = omega arith; no_key_unit = refl; no_small_letter = λ a b. cc }

dot : IsSeparator b'.'
unfolding is_key_unit
dot = record { ascii = omega arith; no_key_unit = refl; no_small_letter = λ a b. cc }

webhook_url_shared_example :
    get_webhook_url_for_merchant services.runtime services.env (codes "shop" ++ b'-' ∷ codes "eu")
    ≡ get_webhook_url_for_merchant services.runtime services.env (codes "shop" ++ b'.' ∷ codes "eu")
webhook_url_shared_example =
    webhook_url_shared services.runtime services.env (codes "shop") (codes "eu") b'-' b'.' dash dot
