-- ===== src/Payments/Ledger.antt =====
-- The steps that requests and the stream worker make on the database, in any order, and what holds
-- after them. A fulfilment reads at one time and commits at a later one, so other steps may come
-- between.
pub mod Writes
pub mod Tables
pub mod Invariant
pub mod Settled
use xcf_concordium_facilitat.Base.{ℕ, ◌≡◌, true, some, List, ◌∷◌, Text, Value, In, Within}
use xcf_concordium_facilitat.NetworkId.{normalize_network_id}
use xcf_concordium_facilitat.Store.{Proof, proof, Receipt, Challenge, PltEvent, PltAsset, Claim, Db}
use xcf_concordium_facilitat.Payments.Services.{Services}
use xcf_concordium_facilitat.Payments.Claiming.{same_key}
use xcf_concordium_facilitat.Payments.Create.{create_payment}
use xcf_concordium_facilitat.Payments.Fulfill.{Settlement, settle, decide}
use xcf_concordium_facilitat.Payments.Settle.{Outage, run_transaction}

-- The unique key of `crp_plt_events`
pub record SamePlace (d e : PltEvent) : Type 0 where
  pub transaction_hash : d.transaction_hash ≡ e.transaction_hash
  pub event_index : d.event_index ≡ e.event_index

-- `insertPltTransfers` writes no second row for a place: `ON CONFLICT ... DO NOTHING`.
abbrev pub IsFresh : PltEvent → List PltEvent → Type 0
IsFresh e events = (d : PltEvent) → In d events → SamePlace d e → ⊥

pub data Step (sv : Services) : Db → Db → Type 0 where
  create : (body : Value) (now : ℕ) (db : Db) → Step sv db (create_payment sv body now db).1
  -- The settlement was decided on an earlier database, whose events are still there; `snapshot` is
  -- the table of claims at the start of the claiming statement.
  commit :
      (s : Settlement) (body : Value) (earlier : Db) (snapshot : List Claim) (when : Outage)
      (now : ℕ) (db : Db)
      → decide sv body earlier ≡ settle s
      → Within earlier.events db.events
      → Within snapshot db.claims
      → Step sv db (run_transaction s snapshot when now db).1
  observe :
      (e : PltEvent) (db : Db)
      → IsFresh e db.events
      → Step sv db (record db { events = e ∷ db.events })
  register : (assets : List PltAsset) (db : Db) → Step sv db (record db { assets = assets })

pub data Reach (sv : Services) (start : Db) : Db → Type 0 where
  here : Reach sv start start
  next : {db db' : Db} → Reach sv start db → Step sv db db' → Reach sv start db'

-- The event that a claim is for
pub record Backs (e : PltEvent) (c : Claim) : Type 0 where
  pub network : c.network ≡ normalize_network_id e.network
  pub genesis : c.network_genesis_index ≡ e.network_genesis_index
  pub tx_hash : c.tx_hash ≡ e.transaction_hash
  pub event_index : c.event_index ≡ e.event_index

-- The claim that paid for a receipt
pub record Pays (c : Claim) (row : Challenge) (p : Proof) : Type 0 where
  pub merchant_id : c.merchant_id ≡ row.merchant_id
  pub nonce : c.nonce ≡ row.nonce
  pub tx_hash : c.tx_hash ≡ p.transaction_hash

-- The keys of the two tables are unique, every claim is for an event of the table, and every proof
-- that a challenge holds is for a transaction that the challenge has claimed.
pub record IsLedger (db : Db) : Type 0 where
  pub events_unique : (d e : PltEvent) → In d db.events → In e db.events → SamePlace d e → d ≡ e
  pub claims_unique : (c d : Claim) → In c db.claims → In d db.claims → same_key c d ≡ true → c ≡ d
  pub claims_backed : (c : Claim) → In c db.claims → (e : PltEvent) × In e db.events × Backs e c
  pub receipts_paid :
      (row : Challenge) (r : Receipt) (p : Proof)
      → In row db.challenges
      → row.receipt ≡ some r
      → r.payload ≡ proof p
      → (c : Claim) × In c db.claims × Pays c row p
