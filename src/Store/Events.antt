-- ===== src/Store/Events.antt =====
-- src/store/plt.pg.ts: `insertPltTransfers`, one INSERT of several rows into `crp_plt_events`. A row
-- has its amount read as a `NUMERIC(38, 0)`; one whose place is taken is passed over (`ON CONFLICT ... DO NOTHING`), also by an earlier row of the
-- same statement; a row to write whose token is not registered breaks the foreign key, and the
-- statement writes nothing, as it does if an amount is no such number.
use xcf_concordium_facilitat.Base.{
  ℕ, suc, Bool, ◌&&◌, Option, none, some, List, [], ◌∷◌, if◌then◌else◌, any, ◌==◌, text_eq, int_eq,
  Text,
}
use xcf_concordium_facilitat.Store.{PltEvent, PltAsset, Db}

-- Equality of `UNIQUE (transaction_hash, event_index)`
abbrev pub same_place : PltEvent → PltEvent → Bool
same_place d e = text_eq d.transaction_hash e.transaction_hash && d.event_index == e.event_index

-- `crp_plt_events_asset_fk`
unfoldable pub is_registered : PltEvent → List PltAsset → Bool
is_registered e assets =
    any
      (λ a.
        text_eq a.network e.network
        && int_eq a.network_genesis_index e.network_genesis_index
        && text_eq a.asset_id e.asset_id)
      assets

-- The number of rows written, and the table, which has the new rows in front
pub record Inserted : Type 0 where
  pub inserted : ℕ
  pub events : List PltEvent

abbrev one_more : PltEvent → Inserted → Inserted
one_more e done = record { inserted = suc done.inserted; events = e ∷ done.events }

unfoldable pub insert_row : PltEvent → List PltAsset → Inserted → Option Inserted
unfolding is_registered
insert_row e assets done =
    if any (λ d. same_place d e) done.events
    then some done
    else if is_registered e assets
    then some (one_more e done)
    else none

unfoldable pub insert_rows : List PltEvent → List PltAsset → Inserted → Option Inserted
unfolding insert_row
insert_rows [] assets done = some done
insert_rows (e ∷ es) assets done = elim (insert_row e assets done) [
  | none ↦ none
  | some done' ↦ insert_rows es assets done'
]

-- The rows as the column of the amounts takes them; `numeric` is what Postgres stores of a text as a
-- `NUMERIC(38, 0)`, `none` where it refuses the text.
unfoldable pub read_amounts : (Text → Option Text) → List PltEvent → Option (List PltEvent)
read_amounts numeric [] = some []
read_amounts numeric (e ∷ es) =
    let rest = read_amounts numeric es in
    elim (numeric e.amount_raw) [
      | none ↦ none
      | some amount ↦ elim rest [
        | none ↦ none
        | some read ↦ some (record e { amount_raw = amount } ∷ read)
      ]
    ]

unfoldable pub insert_values : List PltEvent → Db → Option (ℕ × Db)
unfolding insert_rows
insert_values rows db =
    elim (insert_rows rows db.assets (record { inserted = 0; events = db.events })) [
      | none ↦ none
      | some done ↦ some (done.inserted, record db { events = done.events })
    ]

-- `none` where the statement fails
unfoldable pub insert_plt_transfers : (Text → Option Text) → List PltEvent → Db → Option (ℕ × Db)
unfolding read_amounts insert_values
insert_plt_transfers numeric rows db = elim (read_amounts numeric rows) [
  | none ↦ none
  | some read ↦ insert_values read db
]
