-- ===== src/Source/Progress.antt =====
-- The worker on the wallet proxy: it arrives at every transaction.
use mathlib.Core.Path.{subst}
use xcf_concordium_facilitat.Base.{
  ℕ, suc, ◌+◌, ◌≤◌, ◌<◌, ◌≡◌, refl, sym, ap, ◌∙◌, true, false, some, List, [], ◌∷◌, arith, map,
  length, inl, inr, Bool-cases, ltb, ltb→lt, ltb_false→le, In, Text, text_eq_iff, int_eq_iff, Value,
  Runtime, ℤ,
}
use xcf_concordium_facilitat.Store.{PltEvent, PltAsset, Db}
use xcf_concordium_facilitat.Store.Events.{is_registered}
use xcf_concordium_facilitat.Store.Amounts.{insert_plt_transfers-registered}
use xcf_concordium_facilitat.Worker.{
  WorkerConfig, WorkerState, PltSource, PltSourceResult, Storage, saves_cursor, save_cursor, Ticked,
  ticked, advance, store_events, run_tick, run_worker,
}
use xcf_concordium_facilitat.Worker.Progress.{run_worker-Forward}
use xcf_concordium_facilitat.Worker.Insertion.{advance-db}
use xcf_concordium_facilitat.Source.{
  ConcordiumNodeConfig, Clock, Proxy, TransactionsParams, Tick, tx_id, best_of, event_of,
  is_token_transfer, token_amount_value, transactions_of, scan, source_of, params_since,
  not_negative,
}
use xcf_concordium_facilitat.Source.Coverage.{best_of-bound, scan-events}
use xcf_concordium_facilitat.Source.Fetching.{advance-height, source_of-answered, run_tick-stored}
use xcf_concordium_facilitat.Source.Soundness.{IsTruthful}

-- The proxy always answers, and never with nothing while a transaction of the account is left.
pub record IsResponsive (account : Text) (history : List Value) (proxy : Proxy) : Type 0 where
  pub response : TransactionsParams → Value
  pub txs : TransactionsParams → List Value
  pub answers : (params : TransactionsParams) → proxy account params ≡ some (response params)
  pub lists : (params : TransactionsParams) → transactions_of (response params) ≡ some (txs params)
  pub next_tx :
      (params : TransactionsParams) (tx : Value) (id : ℕ)
      → In tx history
      → tx_id tx ≡ some id
      → params.from < id
      → 0 < params.limit
      → (t : Value) × (i : ℕ) × In t (txs params) × (tx_id t ≡ some i) × (params.from < i)

-- The token of the configuration is in the registry.
pub record IsRegistered (node : ConcordiumNodeConfig) (assets : List PltAsset) : Type 0 where
  pub asset : PltAsset
  pub listed : In asset assets
  pub network : asset.network ≡ node.network
  pub network_genesis_index : asset.network_genesis_index ≡ node.network_genesis_index
  pub asset_id : asset.asset_id ≡ node.asset_id

is_registered_complete :
    (rt : Runtime) (clock : Clock) (node : ConcordiumNodeConfig) (tx : Value) (id : ℕ)
    (assets : List PltAsset) (a : PltAsset)
    → In a assets
    → a.network ≡ node.network
    → a.network_genesis_index ≡ node.network_genesis_index
    → a.asset_id ≡ node.asset_id
    → is_registered (event_of rt clock node tx id) assets ≡ true
unfolding is_registered event_of
is_registered_complete rt clock node tx id [] a there n g t = absurd there
is_registered_complete rt clock node tx id (b ∷ bs) a (inl e) n g t =
    let n' = (text_eq_iff b.network node.network).1 (ap (λ x. x.network) (sym e) ∙ n) in
    let g' =
      (int_eq_iff b.network_genesis_index node.network_genesis_index).1
        (ap (λ x. x.network_genesis_index) (sym e) ∙ g) in
    let t' = (text_eq_iff b.asset_id node.asset_id).1 (ap (λ x. x.asset_id) (sym e) ∙ t) in
    rw (n', g', t') refl
is_registered_complete rt clock node tx id (b ∷ bs) a (inr later) n g t =
    let rest = is_registered_complete rt clock node tx id bs a later n g t in ground (arith, rest)

store_events-registered :
    (st : Storage) (cfg : WorkerConfig) (tick : ℕ) (events : List PltEvent) (db : Db)
    → st.insertion_fails tick ≡ false
    → ((e : PltEvent) → In e events → is_registered e db.assets ≡ true)
    → ((e : PltEvent) → In e events → (v : Text) × (st.numeric e.amount_raw ≡ some v))
    → (db' : Db) × (store_events st cfg tick events db ≡ some db') × (db'.assets ≡ db.assets)
unfolding store_events
store_events-registered st cfg tick [] db answers known numbers = (db, refl, refl)
store_events-registered st cfg tick (e ∷ es) db answers known numbers =
    elim (Bool-cases cfg.dry_run) [
      | inl dry ↦ (db, rw (dry, store_events), refl)
      | inr wet ↦
          let (n, events, written) =
            insert_plt_transfers-registered st.numeric (e ∷ es) db known numbers in
          (record db { events = events }, rw (wet, answers, written, store_events), refl)
    ]

-- The database takes the tick's statements, and the amounts of the transfers are numbers to it.
pub record IsStoring (st : Storage) (rt : Runtime) (node : ConcordiumNodeConfig)
    (history : List Value) : Type 0 where
  pub inserts : (tick : ℕ) → st.insertion_fails tick ≡ false
  pub saves : (tick : ℕ) → st.cursor_fails tick ≡ false
  pub numbers :
      (tx : Value)
      → In tx history
      → is_token_transfer rt node.asset_id tx ≡ true
      → (v : Text) × (st.numeric (token_amount_value rt tx) ≡ some v)

-- A tick that ends without an error, further on
record IsStep (height : ℕ) (assets : List PltAsset) (t : Ticked) : Type 0 where
  pub state : WorkerState
  pub done : t ≡ ticked state
  pub further : height < state.last_height_exclusive
  pub same : state.db.assets ≡ assets

event_of-numeric :
    (st : Storage) (rt : Runtime) (node : ConcordiumNodeConfig) (clock : Clock)
    (history : List Value) (tx : Value) (id : ℕ)
    → IsStoring st rt node history
    → In tx history
    → is_token_transfer rt node.asset_id tx ≡ true
    → (v : Text) × (st.numeric (event_of rt clock node tx id).amount_raw ≡ some v)
unfolding event_of
event_of-numeric st rt node clock history tx id stores there transfer =
    stores.numbers tx there transfer

run_tick-ticked :
    (st : Storage) (cfg : WorkerConfig) (key : Text) (tick : ℕ) (source : PltSource)
    (s : WorkerState) (result : PltSourceResult) (db : Db)
    → source s.last_height_exclusive ≡ some result
    → store_events st cfg tick result.events s.db ≡ some db
    → st.cursor_fails tick ≡ false
    → run_tick st cfg key tick source s
      ≡ ticked (advance cfg key result.best_height (record s { db = db }))
unfolding save_cursor advance
run_tick-ticked st cfg key tick source s result db fetched written saves =
    run_tick-stored st cfg key tick source s result db fetched written
    ∙ elim (Bool-cases (saves_cursor cfg result.best_height (record s { db = db }))) [
      | inl moves ↦ rw (save_cursor, moves, saves) refl
      | inr stays ↦ rw (save_cursor, stays) refl
    ]

module _ (rt : Runtime) (node : ConcordiumNodeConfig) (overlap : ℤ) (history : List Value)
    (st : Storage) (cfg : WorkerConfig) (key : Text) where
  run_tick-IsStep :
      (tick : ℕ) (t : Tick) (s : WorkerState)
      → not_negative overlap ≡ 0
      → IsStoring st rt node history
      → IsTruthful node.account_address history t.proxy
      → IsResponsive node.account_address history t.proxy
      → IsRegistered node s.db.assets
      → (tx : Value) (id : ℕ) → In tx history
      → tx_id tx ≡ some id
      → s.last_height_exclusive < id
      → IsStep s.last_height_exclusive s.db.assets
          (run_tick st cfg key tick (source_of rt node overlap t) s)
  unfolding params_since
  run_tick-IsStep tick t s flat stores honest r known tx id there at ahead =
      let last = s.last_height_exclusive in
      let params = params_since overlap last in
      let txs = r.txs params in
      let best = best_of last txs in
      let asked : params.from < id = omega arith in
      let (x, i, inside, at_x, new) = r.next_tx params tx id there at asked (omega arith) in
      let low = best_of-bound last txs x i inside at_x in
      let result = scan rt t.clock node overlap last txs in
      let numbers : (e : PltEvent)
          → In e result.events
          → (v : Text) × (st.numeric e.amount_raw ≡ some v) =
        λ e listed.
          let (y, j, here_y, at_y, above, transfer, is_e) =
            (scan-events rt t.clock node overlap last txs e).0 listed in
          subst (λ (z : PltEvent). (v : Text) × (st.numeric z.amount_raw ≡ some v)) (sym is_e)
            (event_of-numeric st rt node t.clock history y j stores
              (honest.truthful params (r.response params) txs (r.answers params) (r.lists params) y
                here_y)
              transfer) in
      let (db, written, same) =
        store_events-registered st cfg tick result.events s.db (stores.inserts tick)
          (λ e listed.
            let (y, j, here_y, at_y, above, transfer, is_e) =
              (scan-events rt t.clock node overlap last txs e).0 listed in
            subst (λ z. is_registered z s.db.assets ≡ true) (sym is_e)
              (is_registered_complete rt t.clock node y j s.db.assets known.asset known.listed
                known.network known.network_genesis_index known.asset_id))
          numbers in
      record {
        state = advance cfg key (some best) (record s { db = db });
        done =
            run_tick-ticked st cfg key tick (source_of rt node overlap t) s
              (record { events = result.events; best_height = some best }) db
              (source_of-answered rt node overlap t last (r.response params) txs (r.answers params)
                (r.lists params))
              written (stores.saves tick);
        further =
            let h = advance-height cfg key best (record s { db = db }) (omega arith) in omega arith;
        same = ap (λ x. x.assets) (advance-db cfg key (some best) (record s { db = db })) ∙ same;
      }

-- The worker gets there: with no overlap and no limit on the ticks, if the token is registered, no
-- statement of the database fails, the amounts of the transfers are numbers to Postgres, and the proxy
-- always answers, with transactions of the account only and never with nothing while one is left, then after as many
-- ticks as the id of a transaction is ahead of the cursor, the cursor is not before that id.
pub run_worker-reaches :
    (rt : Runtime) (node : ConcordiumNodeConfig) (overlap : ℤ) (history : List Value) (st : Storage)
    (cfg : WorkerConfig) (key : Text)
    → not_negative overlap ≡ 0
    → cfg.max_ticks ≡ 0
    → IsStoring st rt node history
    → (tx : Value) (id : ℕ) → In tx history
    → tx_id tx ≡ some id
    → (ticks : List Tick)
    → ((t : Tick) → In t ticks → IsTruthful node.account_address history t.proxy)
    → ((t : Tick) → In t ticks → IsResponsive node.account_address history t.proxy)
    → (tick : ℕ) (s : WorkerState) → IsRegistered node s.db.assets
    → id ≤ s.last_height_exclusive + length ticks
    → id
      ≤ (run_worker st cfg key tick (map (source_of rt node overlap) ticks) s).last_height_exclusive
unfolding run_worker
run_worker-reaches rt node overlap history st cfg key flat free stores tx id there at [] honest r
      tick s known near =
    omega arith
run_worker-reaches rt node overlap history st cfg key flat free stores tx id there at (t ∷ ts)
      honest r tick s known near =
    elim (Bool-cases (ltb s.last_height_exclusive id)) [
      | inr passed ↦
          let low = ltb_false→le s.last_height_exclusive id passed in
          let (on, stored) =
            run_worker-Forward st cfg key tick (map (source_of rt node overlap) (t ∷ ts)) s in
          omega arith
      | inl ahead ↦
          let step =
            run_tick-IsStep rt node overlap history st cfg key tick t s flat stores
              (honest t (inl refl)) (r t (inl refl)) known tx id there at
              (ltb→lt s.last_height_exclusive id ahead) in
          let more = step.further in
          let rest =
            run_worker-reaches rt node overlap history st cfg key flat free stores tx id there at ts
              (λ x later. honest x (inr later)) (λ x later. r x (inr later)) (suc tick) step.state
              (subst (IsRegistered node) (sym step.same) known) (omega arith) in
          rw (run_worker, free, step.done) rest
    ]
