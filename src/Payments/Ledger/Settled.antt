-- ===== src/Payments/Ledger/Settled.antt =====
-- What the invariant of the ledger means for the merchants: a transfer pays for one challenge.
use xcf_concordium_facilitat.Base.{◌≡◌, sym, ap, ◌∙◌, some, In, Text}
use xcf_concordium_facilitat.NetworkId.{normalize_network_id}
use xcf_concordium_facilitat.Store.{Proof, proof, Receipt, Challenge, PltEvent, Claim, Db}
use xcf_concordium_facilitat.Payments.Services.{Services}
use xcf_concordium_facilitat.Payments.Claims.{same_key_complete}
use xcf_concordium_facilitat.Payments.Ledger.{Reach, IsLedger}
use xcf_concordium_facilitat.Payments.Ledger.Invariant.{Reach-IsLedger}

-- Two claims that name the same place on the chain are one claim.
place-claim :
    {db : Db}
    → IsLedger db
    → (c d : Claim) → In c db.claims
    → In d db.claims
    → c.tx_hash ≡ d.tx_hash
    → c.event_index ≡ d.event_index
    → c ≡ d
place-claim {db} l c d hc hd tx index =
    let (e, ine, be) = l.claims_backed c hc in
    let (f, inf, bf) = l.claims_backed d hd in
    let same : e ≡ f = l.events_unique e f ine inf (record {
      transaction_hash = sym be.tx_hash ∙ tx ∙ bf.tx_hash;
      event_index = sym be.event_index ∙ index ∙ bf.event_index;
    }) in
    l.claims_unique c d hc hd (
      same_key_complete c d
        (be.network ∙ ap (λ (x : PltEvent). normalize_network_id x.network) same ∙ sym bf.network)
        (record {
          genesis =
              be.genesis ∙ ap (λ (x : PltEvent). x.network_genesis_index) same ∙ sym bf.genesis;
          tx_hash = tx;
          event_index = index;
        }))

-- A challenge that holds a proof of a transaction
pub record IsPaid (db : Db) (row : Challenge) (tx_hash : Text) : Type 0 where
  pub listed : In row db.challenges
  pub receipt : Receipt
  pub payload : Proof
  pub held : row.receipt ≡ some receipt
  pub proved : receipt.payload ≡ proof payload
  pub names : payload.transaction_hash ≡ tx_hash

-- The transaction has one event: all its events stand at the same index.
abbrev pub IsSingle : Db → Text → Type 0
IsSingle db tx_hash =
    (d e : PltEvent)
    → In d db.events
    → In e db.events
    → d.transaction_hash ≡ tx_hash
    → e.transaction_hash ≡ tx_hash
    → d.event_index ≡ e.event_index

paid-claim :
    {db : Db}
    → IsLedger db
    → (row : Challenge) (tx_hash : Text) → IsPaid db row tx_hash
    → (c : Claim) × In c db.claims
      × (c.tx_hash ≡ tx_hash)
      × (c.merchant_id ≡ row.merchant_id)
      × (c.nonce ≡ row.nonce)
paid-claim l row tx_hash p =
    let (c, there, pays) = l.receipts_paid row p.receipt p.payload p.listed p.held p.proved in
    (c, there, pays.tx_hash ∙ p.names, pays.merchant_id, pays.nonce)

-- No double spending: start with a ledger in order, let any requests and worker steps follow, and
-- look at two challenges that hold proofs of the same transaction. If the transaction has one
-- event, both are the challenge of the same merchant and nonce.
pub no_double_spend :
    (sv : Services) (start db : Db) (row other : Challenge) (tx_hash : Text)
    → Reach sv start db
    → IsLedger start
    → IsSingle db tx_hash
    → IsPaid db row tx_hash
    → IsPaid db other tx_hash
    → (row.merchant_id ≡ other.merchant_id) × (row.nonce ≡ other.nonce)
no_double_spend sv start db row other tx_hash reach l single p q =
    let l' = Reach-IsLedger sv start db reach l in
    let (c, hc, tc, mc, nc) = paid-claim l' row tx_hash p in
    let (d, hd, td, md, nd) = paid-claim l' other tx_hash q in
    let (e, ine, be) = l'.claims_backed c hc in
    let (f, inf, bf) = l'.claims_backed d hd in
    let index : c.event_index ≡ d.event_index =
      be.event_index
      ∙ single e f ine inf (sym be.tx_hash ∙ tc) (sym bf.tx_hash ∙ td)
      ∙ sym bf.event_index in
    let same = place-claim l' c d hc hd (tc ∙ sym td) index in
    (
      sym mc ∙ ap (λ (x : Claim). x.merchant_id) same ∙ md,
      sym nc ∙ ap (λ (x : Claim). x.nonce) same ∙ nd,
    )

-- In a ledger in order, no two claims are for the same event of the chain, whatever network names
-- they carry: two claims of one transaction hash and event index have the same owner.
pub one_owner :
    (sv : Services) (start db : Db) (c d : Claim)
    → Reach sv start db
    → IsLedger start
    → In c db.claims
    → In d db.claims
    → c.tx_hash ≡ d.tx_hash
    → c.event_index ≡ d.event_index
    → (c.merchant_id ≡ d.merchant_id) × (c.nonce ≡ d.nonce)
one_owner sv start db c d reach l hc hd tx index =
    let same = place-claim (Reach-IsLedger sv start db reach l) c d hc hd tx index in
    (ap (λ (x : Claim). x.merchant_id) same, ap (λ (x : Claim). x.nonce) same)
