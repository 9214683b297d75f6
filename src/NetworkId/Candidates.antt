-- ===== src/NetworkId/Candidates.antt =====
-- `networkCandidates` of a name.
use xcf_concordium_facilitat.Base.{
  ◌≡◌, refl, Bool, true, false, List, [], ◌∷◌, inl, inr, Bool-cases, is_empty, Text, includes,
  text_eq, starts_with,
}
use xcf_concordium_facilitat.NetworkId.{
  normalize_network_id, set_add, add_if, candidates_of, network_candidates, ccd_prefix, testnet,
  mainnet, concordium_testnet_chain_id, concordium_mainnet_chain_id,
}

add_if_some :
    (test : Bool) (x : Text) (out : List Text)
    → is_empty out ≡ false
    → is_empty (add_if test x out) ≡ false
unfolding add_if set_add
add_if_some false x out h = h
add_if_some true x [] h = cc
add_if_some true x (y ∷ ys) h = elim (Bool-cases (includes x (y ∷ ys))) [
  | inl there ↦ rw there refl
  | inr new ↦ rw new refl
]

candidates_of_some : (n : Text) → is_empty n ≡ false → is_empty (candidates_of n) ≡ false
unfolding candidates_of
candidates_of_some n h = add_if_some (text_eq n mainnet) concordium_mainnet_chain_id _ (
    add_if_some (text_eq n testnet) concordium_testnet_chain_id _
      (elim (Bool-cases (starts_with ccd_prefix n)) [
        | inl ccd ↦
            rw (ccd, h)
              (add_if_some (text_eq n concordium_mainnet_chain_id) mainnet _
                (add_if_some (text_eq n concordium_testnet_chain_id) testnet (n ∷ []) refl))
        | inr other ↦ rw (other, h) refl
      ]))

-- A name that is not blank has a candidate.
pub network_candidates_some :
    (raw : Text)
    → is_empty (normalize_network_id raw) ≡ false
    → is_empty (network_candidates raw) ≡ false
unfolding network_candidates
network_candidates_some raw h = candidates_of_some (normalize_network_id raw) h
