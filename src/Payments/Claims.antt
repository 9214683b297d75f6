-- ===== src/Payments/Claims.antt =====
-- `claimPltEvent` on every branch: what it answers, and what it leaves in the table.
use mathlib.Core.Logic.{◌⊎◌}
use xcf_concordium_facilitat.Base.{
  ◌≡◌, refl, sym, Bool, true, false, ◌&&◌, some, List, [], ◌∷◌, ◌++◌, arith, Bool-cases,
  Option-cases, inl, inr, text_eq, text_eq_iff, In, Within, In-append_last, find_sound,
  and-eq-true_iff,
}
use xcf_concordium_facilitat.Base.Js.{int_eq_iff}
use xcf_concordium_facilitat.Store.{Claim}
use xcf_concordium_facilitat.Payments.Claiming.{
  claimed, same_event, same_key, is_taken, lookup_claim, canonical_claim, owned, claim_plt_event,
}

-- The same event, as equations
pub record SameEvent (c d : Claim) : Type 0 where
  pub genesis : c.network_genesis_index ≡ d.network_genesis_index
  pub tx_hash : c.tx_hash ≡ d.tx_hash
  pub event_index : c.event_index ≡ d.event_index

pub record SameOwner (c d : Claim) : Type 0 where
  pub merchant_id : c.merchant_id ≡ d.merchant_id
  pub nonce : c.nonce ≡ d.nonce

same_event_sound : (c d : Claim) → same_event c d ≡ true → SameEvent c d
same_event_sound c d h = record {
  genesis = (int_eq_iff _ _).0 (ground arith);
  tx_hash = (text_eq_iff _ _).0 (ground arith);
  event_index = ground arith;
}

pub same_key_complete : (c d : Claim) → c.network ≡ d.network → SameEvent c d → same_key c d ≡ true
same_key_complete c d n s = ground (
  arith,
  (text_eq_iff c.network d.network).1 n,
  (text_eq_iff c.tx_hash d.tx_hash).1 s.tx_hash,
  (int_eq_iff c.network_genesis_index d.network_genesis_index).1 s.genesis,
  s.event_index,
)

pub same_key_sound : (c d : Claim) → same_key c d ≡ true → (c.network ≡ d.network) × SameEvent c d
same_key_sound c d h =
    let (network, event) = (and-eq-true_iff (text_eq c.network d.network) (same_event c d)).0 h in
    ((text_eq_iff c.network d.network).0 network, same_event_sound c d event)

pub same_key_sym : (c d : Claim) → same_key c d ≡ true → same_key d c ≡ true
same_key_sym c d h =
    let (network, event) = same_key_sound c d h in
    same_key_complete d c (sym network) (record {
      genesis = sym event.genesis;
      tx_hash = sym event.tx_hash;
      event_index = sym event.event_index;
    })

-- The table is as it was, or holds the new claim at its end, whose key was free.
pub claim_plt_event-table :
    (w : Claim) (snapshot claims : List Claim)
    → ((claim_plt_event w snapshot claims).1 ≡ claims)
      ⊎ (((claim_plt_event w snapshot claims).1 ≡ claims ++ canonical_claim w ∷ [])
          × (is_taken (canonical_claim w) claims ≡ false))
unfolding claim_plt_event
claim_plt_event-table w snapshot claims = elim (Bool-cases (is_taken (canonical_claim w) claims)) [
  | inl taken ↦ inl (rw taken)
  | inr free ↦ inr (rw free, free)
]

owned_sound :
    (w row : Claim) (b : Bool) {inserted : Bool}
    → owned w row b ≡ claimed inserted
    → SameOwner w row
owned_sound w row b h =
    let test : (text_eq row.merchant_id w.merchant_id && text_eq row.nonce w.nonce) ≡ true =
      ground arith in
    let (m, n) = (and-eq-true_iff _ _).0 test in
    record { merchant_id = sym ((text_eq_iff _ _).0 m); nonce = sym ((text_eq_iff _ _).0 n) }

-- The row that the lookup returns is one of the table's, for the same event.
lookup_claim_sound :
    (c row : Claim) (snapshot : List Claim)
    → lookup_claim c snapshot ≡ some row
    → SameEvent c row × In row snapshot
unfolding lookup_claim
lookup_claim_sound c row snapshot h =
    let (test, there) = find_sound _ snapshot row h in
    (same_event_sound c row ((and-eq-true_iff _ _).0 test).1, there)

-- If the claims that the statement began with are still in the table, a success leaves a claim there
-- with the wanted genesis index, transaction hash and event index, owned by the claimant.
pub claim_plt_event-claimed :
    (w : Claim) (snapshot claims : List Claim) {inserted : Bool}
    → Within snapshot claims
    → (claim_plt_event w snapshot claims).0 ≡ claimed inserted
    → (c : Claim) × In c (claim_plt_event w snapshot claims).1 × SameEvent w c × SameOwner w c
unfolding claim_plt_event
claim_plt_event-claimed w snapshot claims within h =
    elim (Bool-cases (is_taken (canonical_claim w) claims)) [
      | inr free ↦ (
        canonical_claim w,
        rw free (In-append_last (canonical_claim w) claims),
        record { genesis = refl; tx_hash = refl; event_index = refl },
        record { merchant_id = refl; nonce = refl },
      )
      | inl taken ↦ elim (Option-cases (lookup_claim (canonical_claim w) snapshot)) [
        | inl missing ↦ cc (rw (taken, missing) at h)
        | inr (c, found) ↦
            let (same, there) = lookup_claim_sound (canonical_claim w) c snapshot found in
            (
              c,
              rw taken (within c there),
              record {
                genesis = same.genesis;
                tx_hash = same.tx_hash;
                event_index = same.event_index;
              },
              let own = owned_sound (canonical_claim w) c false (rw (taken, found) at h) in
                  record { merchant_id = own.merchant_id; nonce = own.nonce },
            )
      ]
    ]
