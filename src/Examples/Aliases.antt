-- ===== src/Examples/Aliases.antt =====
-- GET /payments/exact-match on the payment of the examples.
use xcf_concordium_facilitat.Base.{◌≡◌, refl, Value, codes, text_eq, starts_with, num_eq, split}
use xcf_concordium_facilitat.Base.Js.{str, obj, field, end}
use xcf_concordium_facilitat.NetworkId.{
  normalize_trimmed, candidates_of, testnet, mainnet, ccd_prefix, concordium_testnet_chain_id,
}
use xcf_concordium_facilitat.Decimals.{all_digits, combine}
use xcf_concordium_facilitat.Alias.{
  read_query, resolve_decimals_and_genesis_index, exact_match, exact_match_alias, ResolvedInfo,
}
use xcf_concordium_facilitat.Alias.Soundness.{Vouched, exact_match_alias-Vouched}
use xcf_concordium_facilitat.Examples.Data.{plain_runtime, ready, challenge, registry}

abbrev query : Value
unfolding codes
query = obj (
    field (codes "merchantId") (str (codes "shop")) (
      field (codes "nonce") (str (codes "n1")) (
        field (codes "network") (str (codes "concordium:testnet")) (
          field (codes "token_id") (str (codes " EUDemo")) (
            field (codes "amount") (str (codes "1.5"))
              (field (codes "payTo") (str (codes "addr")) end))))))

abbrev resolved : ResolvedInfo
resolved =
    resolve_decimals_and_genesis_index (read_query plain_runtime query).network
      (read_query plain_runtime query).token_id (read_query plain_runtime query).decimals_from_query
      registry

is_matched : exact_match_alias plain_runtime query ready ≡ exact_match challenge resolved
unfolding exact_match_alias text_eq normalize_trimmed testnet candidates_of mainnet starts_with
    ccd_prefix concordium_testnet_chain_id num_eq split all_digits combine
is_matched = refl

exact_match_alias-Vouched_example :
    Vouched (read_query plain_runtime query) resolved challenge ready
exact_match_alias-Vouched_example =
    exact_match_alias-Vouched plain_runtime query ready challenge resolved is_matched
