-- ===== src/Store/Assets.antt =====
-- src/store/pltAssets.pg.ts: the registry of tokens, by network, genesis index and token id.
use xcf_concordium_facilitat.Base.{
  ◌&&◌, Option, none, some, List, keep, find, head_of, Text, text_eq, includes, ℤ, int_eq,
  finite_floor, Runtime,
}
use xcf_concordium_facilitat.Base.Js.{pos}
use xcf_concordium_facilitat.NetworkId.{network_candidates}
use xcf_concordium_facilitat.Store.{PltAsset}

abbrev or_default : Option ℤ → ℤ
or_default none = pos 7
or_default (some z) = z

-- `getDefaultNetworkGenesisIndex`, over CRP_DEFAULT_NETWORK_GENESIS_INDEX
unfoldable pub get_default_network_genesis_index : Runtime → Option Text → ℤ
get_default_network_genesis_index rt none = pos 7
get_default_network_genesis_index rt (some raw) = or_default (finite_floor (rt.number_of_text raw))

abbrev or_first : Option PltAsset → List PltAsset → Option PltAsset
or_first (some a) rows = some a
or_first none rows = head_of rows

-- `getPltAsset`: of the rows under an equivalent network, one under the very name comes first. The
-- second sort key is the same in all of them.
unfoldable pub get_plt_asset : Text → ℤ → Text → List PltAsset → Option PltAsset
get_plt_asset network network_genesis_index asset_id assets =
    let rows =
      keep
        (λ a.
          includes a.network (network_candidates network)
          && int_eq a.network_genesis_index network_genesis_index
          && text_eq a.asset_id asset_id)
        assets in
    or_first (find (λ a. text_eq a.network network) rows) rows
