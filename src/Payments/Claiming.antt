-- ===== src/Payments/Claiming.antt =====
-- `claimPltEvent`: one statement inserts the claim of an event, unless its key is taken, and returns
-- the inserted row or else a row that stood under an equivalent network name.
use xcf_concordium_facilitat.Base.{
  Bool, true, false, ◌&&◌, Option, none, some, List, [], ◌∷◌, ◌++◌, if◌then◌else◌, any, find, ◌==◌,
  Text, text_eq, includes, int_eq,
}
use xcf_concordium_facilitat.NetworkId.{normalize_network_id, network_candidates}
use xcf_concordium_facilitat.Store.{Claim}

pub data ClaimResult : Type 0 where
  claimed : Bool → ClaimResult
  event_claimed : Text → Text → ClaimResult
  claim_lookup_failed : ClaimResult

-- Equality of all columns but the network and the owner
abbrev pub same_event : Claim → Claim → Bool
same_event c d =
    int_eq c.network_genesis_index d.network_genesis_index
    && text_eq c.tx_hash d.tx_hash
    && c.event_index == d.event_index

-- Equality of the primary keys
abbrev pub same_key : Claim → Claim → Bool
same_key c d = text_eq c.network d.network && same_event c d

-- `ON CONFLICT ... DO NOTHING`
unfoldable pub is_taken : Claim → List Claim → Bool
is_taken c claims = any (same_key c) claims

abbrev pub owned : Claim → Claim → Bool → ClaimResult
owned wanted row inserted =
    if text_eq row.merchant_id wanted.merchant_id && text_eq row.nonce wanted.nonce
    then claimed inserted
    else event_claimed row.merchant_id row.nonce

abbrev looked_up : Claim → Option Claim → ClaimResult
looked_up wanted none = claim_lookup_failed
looked_up wanted (some row) = owned wanted row false

-- The second `SELECT`
unfoldable pub lookup_claim : Claim → List Claim → Option Claim
lookup_claim c snapshot =
    find (λ d. includes d.network (network_candidates c.network) && same_event c d) snapshot

-- The row to insert, under the normalized network
abbrev pub canonical_claim : Claim → Claim
canonical_claim c = record c { network = normalize_network_id c.network }

-- `snapshot` is the table when the statement began, which is what the second `SELECT` sees; `claims`
-- is the table when the row is inserted, which other transactions may have changed since.
-- `UNION ALL ... LIMIT 1` returns the inserted row first.
unfoldable pub claim_plt_event : Claim → List Claim → List Claim → ClaimResult × List Claim
unfolding is_taken lookup_claim
claim_plt_event wanted snapshot claims =
    let c = canonical_claim wanted in
    if is_taken c claims
    then (looked_up c (lookup_claim c snapshot), claims)
    else (claimed true, claims ++ c ∷ [])
