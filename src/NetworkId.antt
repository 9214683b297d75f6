-- ===== src/NetworkId.antt =====
-- src/lib/networkId.ts: a Concordium network is named "concordium:testnet", "concordium:mainnet" or
-- by its genesis hash, "ccd:<hash>".
pub mod Laws
pub mod Equivalence
pub mod Candidates
use xcf_concordium_facilitat.Base.{
  Bool, ◌||◌, not, Option, none, some, List, [], ◌∷◌, ◌++◌, if◌then◌else◌, is_empty, get_elem?,
  Text, codes, text_eq, includes, trim, lower, starts_with, split,
}

unfoldable pub concordium_testnet_chain_id : Text
unfolding codes
concordium_testnet_chain_id = codes "ccd:4221332d34e1694168c2a0c0b3fd0f27"

unfoldable pub concordium_mainnet_chain_id : Text
unfolding codes
concordium_mainnet_chain_id = codes "ccd:9dd9ca4d19e9393877d2c44b70f89acb"

-- The two legacy names.
unfoldable pub testnet : Text
unfolding codes
testnet = codes "concordium:testnet"

unfoldable pub mainnet : Text
unfolding codes
mainnet = codes "concordium:mainnet"

unfoldable pub ccd_prefix : Text
unfolding codes
ccd_prefix = codes "ccd:"

-- `parts.length >= 2 && parts[1].trim()`: the hash between the first two colons, "" for none.
unfoldable pub hash_part : Text → Text
hash_part s = elim (get_elem? (split b':' s) 1) [ none ↦ [] | some p ↦ trim p ]

-- The body of `normalizeNetworkId` for a trimmed, non-empty name.
unfoldable pub normalize_trimmed : Text → Text
normalize_trimmed s =
    if text_eq (lower s) testnet
    then testnet
    else if text_eq (lower s) mainnet
    then mainnet
    else if starts_with ccd_prefix (lower s)
    then (if is_empty (hash_part s) then ccd_prefix else ccd_prefix ++ hash_part s)
    else s

unfoldable pub normalize_network_id : Text → Text
normalize_network_id raw = let s = trim raw in if is_empty s then s else normalize_trimmed s

-- `out.add(x)` on a `Set`, which lists its members in the order of their insertion.
set_add : Text → List Text → List Text
set_add x out = if includes x out then out else out ++ x ∷ []

add_if : Bool → Text → List Text → List Text
unfolding set_add
add_if test x out = if test then set_add x out else out

-- The body of `networkCandidates` for a normalized name.
unfoldable pub candidates_of : Text → List Text
unfolding add_if
candidates_of n = add_if (text_eq n mainnet) concordium_mainnet_chain_id (
    add_if (text_eq n testnet) concordium_testnet_chain_id (
      let out = if is_empty n then [] else n ∷ [] in
      if starts_with ccd_prefix n
      then add_if (text_eq n concordium_mainnet_chain_id) mainnet
          (add_if (text_eq n concordium_testnet_chain_id) testnet out)
      else out))

unfoldable pub network_candidates : Text → List Text
network_candidates raw = candidates_of (normalize_network_id raw)

-- src/store/repo.pg.ts: `networksEquivalent`
unfoldable pub networks_equivalent : Text → Text → Bool
networks_equivalent a b =
    let left = normalize_network_id a in
    let right = normalize_network_id b in
    text_eq left right || includes right (network_candidates left)

-- src/routes/crp.payments.ts: `canonicalChainIdForReceipt`, after `normalizeNetworkId`
unfoldable pub chain_of : Text → Text
chain_of n =
    if text_eq n testnet
    then concordium_testnet_chain_id
    else if text_eq n mainnet
    then concordium_mainnet_chain_id
    else n

unfoldable pub canonical_chain_id_for_receipt : Text → Text
unfolding chain_of
canonical_chain_id_for_receipt network = chain_of (normalize_network_id network)
