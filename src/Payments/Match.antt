-- ===== src/Payments/Match.antt =====
-- POST /v1/crp/payments/match: the read-only exact match.
use xcf_concordium_facilitat.Base.{
  Option, none, some, if◌then◌else◌, Text, starts_with, trim, ℤ, Num, Value,
}
use xcf_concordium_facilitat.NetworkId.{normalize_network_id, ccd_prefix}
use xcf_concordium_facilitat.Store.{Challenge, Db}
use xcf_concordium_facilitat.Payments.{
  read_tuple, is_incomplete, requested_genesis_index, resolved, asset_disabled, decimals_mismatch,
  normalize_asset_with_registry, find_exact_match,
}
use xcf_concordium_facilitat.Payments.Services.{Services, default_genesis}

pub data Matched : Type 0 where
  exact_match : Challenge → Option Text → Matched
  no_match : Matched
  bad_request : Matched
  mismatch : Num → ℤ → Matched
  disabled : Matched

-- The `chain_id` beside a row: its normalized network, if that is a genesis hash
unfoldable pub chain_id_of : Challenge → Option Text
chain_id_of c =
    let network = normalize_network_id (trim c.network) in
    if starts_with ccd_prefix network then some network else none

unfoldable pub match_payment : Services → Value → Db → Matched
match_payment sv body db =
    let t = read_tuple sv.runtime body in
    if is_incomplete t
    then bad_request
    else elim (normalize_asset_with_registry (default_genesis sv) t.network t.asset
        (requested_genesis_index sv.runtime body) db.assets) [
          | asset_disabled ↦ disabled
          | decimals_mismatch provided registry ↦ mismatch provided registry
          | resolved asset ngi from_db ↦
              elim (find_exact_match (record t { asset = asset }) db.challenges) [
                | none ↦ no_match
                | some row ↦ exact_match row (chain_id_of row)
              ]
        ]
