-- ===== src/NetworkId/Equivalence.antt =====
-- The candidate lists of `networkCandidates` against the chain that a name stands for.
use xcf_concordium_facilitat.Base.{
  ◌≡◌, refl, inl, inr, Bool, false, ◌||◌, [], ◌∷◌, arith, if◌then◌else◌, is_empty, Bool-cases, Text,
  text_eq, text_eq_iff, includes, starts_with,
}
use xcf_concordium_facilitat.NetworkId.{
  testnet, mainnet, ccd_prefix, concordium_testnet_chain_id, concordium_mainnet_chain_id,
  normalize_network_id, candidates_of, network_candidates, networks_equivalent, chain_of,
  canonical_chain_id_for_receipt,
}
use xcf_concordium_facilitat.NetworkId.Laws.{normalize_network_id_idempotent}

record IsOther (n : Text) : Type 0 where
  not_testnet : text_eq n testnet ≡ false
  not_mainnet : text_eq n mainnet ≡ false
  not_testnet_chain : text_eq n concordium_testnet_chain_id ≡ false
  not_mainnet_chain : text_eq n concordium_mainnet_chain_id ≡ false

candidates-testnet : candidates_of testnet ≡ testnet ∷ concordium_testnet_chain_id ∷ []
unfolding candidates_of testnet mainnet concordium_testnet_chain_id concordium_mainnet_chain_id
    ccd_prefix text_eq starts_with
candidates-testnet = refl

candidates-mainnet : candidates_of mainnet ≡ mainnet ∷ concordium_mainnet_chain_id ∷ []
unfolding candidates_of testnet mainnet concordium_testnet_chain_id concordium_mainnet_chain_id
    ccd_prefix text_eq starts_with
candidates-mainnet = refl

candidates-testnet_chain :
    candidates_of concordium_testnet_chain_id ≡ concordium_testnet_chain_id ∷ testnet ∷ []
unfolding candidates_of testnet mainnet concordium_testnet_chain_id concordium_mainnet_chain_id
    ccd_prefix text_eq starts_with
candidates-testnet_chain = refl

candidates-mainnet_chain :
    candidates_of concordium_mainnet_chain_id ≡ concordium_mainnet_chain_id ∷ mainnet ∷ []
unfolding candidates_of testnet mainnet concordium_testnet_chain_id concordium_mainnet_chain_id
    ccd_prefix text_eq starts_with
candidates-mainnet_chain = refl

candidates_of-IsOther :
    (n : Text) → IsOther n → candidates_of n ≡ (if is_empty n then [] else n ∷ [])
unfolding candidates_of
candidates_of-IsOther n o = ground arith

-- The four names are distinct.
distinct :
    (text_eq testnet mainnet ≡ false)
    × (text_eq mainnet testnet ≡ false)
    × (text_eq concordium_testnet_chain_id testnet ≡ false)
    × (text_eq concordium_testnet_chain_id mainnet ≡ false)
    × (text_eq concordium_mainnet_chain_id testnet ≡ false)
    × (text_eq concordium_mainnet_chain_id mainnet ≡ false)
    × (text_eq concordium_testnet_chain_id concordium_mainnet_chain_id ≡ false)
    × (text_eq concordium_mainnet_chain_id concordium_testnet_chain_id ≡ false)
unfolding testnet mainnet concordium_testnet_chain_id concordium_mainnet_chain_id text_eq
distinct = (refl, refl, refl, refl, refl, refl, refl, refl)

abbrev related : Text → Text → Bool
related n m = text_eq n m || includes m (candidates_of n)

module _ (m : Text) where
  related-testnet : related testnet m ≡ text_eq (chain_of testnet) (chain_of m)
  unfolding chain_of
  related-testnet = ground (
    arith,
    candidates-testnet,
    distinct,
    text_eq_iff testnet testnet,
    text_eq_iff testnet m,
    text_eq_iff m testnet,
    text_eq_iff m mainnet,
    text_eq_iff concordium_testnet_chain_id m,
    text_eq_iff concordium_testnet_chain_id concordium_testnet_chain_id,
    text_eq_iff concordium_testnet_chain_id concordium_mainnet_chain_id,
  )

  related-mainnet : related mainnet m ≡ text_eq (chain_of mainnet) (chain_of m)
  unfolding chain_of
  related-mainnet = ground (
    arith,
    candidates-mainnet,
    distinct,
    text_eq_iff mainnet mainnet,
    text_eq_iff mainnet m,
    text_eq_iff m testnet,
    text_eq_iff m mainnet,
    text_eq_iff concordium_mainnet_chain_id m,
    text_eq_iff concordium_mainnet_chain_id concordium_mainnet_chain_id,
    text_eq_iff concordium_mainnet_chain_id concordium_testnet_chain_id,
  )

  related_testnet_chain :
      related concordium_testnet_chain_id m
      ≡ text_eq (chain_of concordium_testnet_chain_id) (chain_of m)
  unfolding chain_of
  related_testnet_chain = ground (
    arith,
    candidates-testnet_chain,
    distinct,
    text_eq_iff testnet m,
    text_eq_iff m testnet,
    text_eq_iff m mainnet,
    text_eq_iff concordium_testnet_chain_id m,
    text_eq_iff concordium_testnet_chain_id concordium_testnet_chain_id,
    text_eq_iff concordium_testnet_chain_id concordium_mainnet_chain_id,
  )

  related_mainnet_chain :
      related concordium_mainnet_chain_id m
      ≡ text_eq (chain_of concordium_mainnet_chain_id) (chain_of m)
  unfolding chain_of
  related_mainnet_chain = ground (
    arith,
    candidates-mainnet_chain,
    distinct,
    text_eq_iff mainnet m,
    text_eq_iff m testnet,
    text_eq_iff m mainnet,
    text_eq_iff concordium_mainnet_chain_id m,
    text_eq_iff concordium_mainnet_chain_id concordium_mainnet_chain_id,
    text_eq_iff concordium_mainnet_chain_id concordium_testnet_chain_id,
  )

  related-IsOther : (n : Text) → IsOther n → related n m ≡ text_eq (chain_of n) (chain_of m)
  unfolding chain_of
  related-IsOther [] o = ground (
    arith,
    candidates_of-IsOther [] o,
    text_eq_iff m testnet,
    text_eq_iff m mainnet,
    text_eq_iff [] m,
    text_eq_iff [] concordium_testnet_chain_id,
    text_eq_iff [] concordium_mainnet_chain_id,
    text_eq_iff [] testnet,
    text_eq_iff [] mainnet,
  )
  related-IsOther (c ∷ n) o = ground (
    arith,
    candidates_of-IsOther (c ∷ n) o,
    text_eq_iff m testnet,
    text_eq_iff m mainnet,
    text_eq_iff (c ∷ n) m,
    text_eq_iff (c ∷ n) concordium_testnet_chain_id,
    text_eq_iff (c ∷ n) concordium_mainnet_chain_id,
    text_eq_iff (c ∷ n) testnet,
    text_eq_iff (c ∷ n) mainnet,
  )

  related-eq-chain : (n : Text) → related n m ≡ text_eq (chain_of n) (chain_of m)
  related-eq-chain n = elim (Bool-cases (text_eq n testnet)) [
    | inl e ↦ rw ((text_eq_iff n testnet).0 e) related-testnet
    | inr t ↦ elim (Bool-cases (text_eq n mainnet)) [
      | inl e ↦ rw ((text_eq_iff n mainnet).0 e) related-mainnet
      | inr k ↦ elim (Bool-cases (text_eq n concordium_testnet_chain_id)) [
        | inl e ↦ rw ((text_eq_iff n concordium_testnet_chain_id).0 e) related_testnet_chain
        | inr tc ↦ elim (Bool-cases (text_eq n concordium_mainnet_chain_id)) [
          | inl e ↦ rw ((text_eq_iff n concordium_mainnet_chain_id).0 e) related_mainnet_chain
          | inr kc ↦ related-IsOther n (record {
            not_testnet = t;
            not_mainnet = k;
            not_testnet_chain = tc;
            not_mainnet_chain = kc;
          })
        ]
      ]
    ]
  ]

-- Two network names are equivalent exactly when they stand for the same chain, as the receipt names
-- it.
pub networks_equivalent-eq-same_chain :
    (a b : Text)
    → networks_equivalent a b
      ≡ text_eq (canonical_chain_id_for_receipt a) (canonical_chain_id_for_receipt b)
unfolding networks_equivalent network_candidates canonical_chain_id_for_receipt
networks_equivalent-eq-same_chain a b =
    rw (normalize_network_id_idempotent a)
      (related-eq-chain (normalize_network_id b) (normalize_network_id a))
