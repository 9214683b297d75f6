-- ===== src/Source/Fixture.antt =====
-- src/worker/pltSource.fixture.ts: the source of the stream worker that reads a file of events. The
-- fields of a row have their declared types, another value counts as absent; cursors, heights and
-- indices are natural numbers, another number counts as 0, and as a cursor as absent.
use xcf_concordium_facilitat.Base.{
  ℕ, ◌+◌, ◌*◌, Bool, true, ◌||◌, Option, none, some, List, [], ◌∷◌, if◌then◌else◌, ltb, leb, keep,
  take, map, Text, codes, ℤ, Value, Runtime, get, is_falsy, is_undefined, to_number, as_natural,
}
use xcf_concordium_facilitat.Base.Js.{whole, bool, num, str, arr}
use xcf_concordium_facilitat.Base.Sorting.{sort_by}
use xcf_concordium_facilitat.Store.{PltEvent}
use xcf_concordium_facilitat.Source.{items}
use xcf_concordium_facilitat.Worker.{PltSource}

pub record FixtureOptions : Type 0 where
  pub network : Text
  pub network_genesis_index : ℤ
  pub default_asset_id : Text
  pub limit : ℕ

-- The file, parsed, `none` where it is missing or no JSON; `new Date(s)` where it is valid; and
-- `new Date()`
pub record FixtureFile : Type 0 where
  pub parsed : Option Value
  pub date : Text → Option ℕ
  pub now : ℕ

abbrev natural_number : Option ℕ → ℕ
natural_number none = 0
natural_number (some n) = n

-- `Number(v) || 0`
abbrev number_or_zero : Runtime → Value → ℕ
unfolding to_number
number_or_zero rt v = natural_number (as_natural (to_number rt v))

abbrev explicit_cursor : Value → Option ℕ
explicit_cursor (num n) = as_natural n
explicit_cursor v = none

abbrev cursor_or : ℕ → Option ℕ → ℕ
cursor_or derived none = derived
cursor_or derived (some n) = n

-- `deriveCursor`
unfoldable pub derive_cursor : Runtime → Value → ℕ
unfolding codes number_or_zero
derive_cursor rt row =
    cursor_or
      (number_or_zero rt (get row (codes "blockHeight")) * 1000000
        + number_or_zero rt (get row (codes "eventIndex")))
      (explicit_cursor (get row (codes "cursor")))

abbrev str_or : Text → Value → Text
str_or default (str s) = s
str_or default v = default

abbrev str_or_null : Value → Option Text
str_or_null (str s) = some s
str_or_null v = none

abbrev fixture_genesis_or : ℤ → Value → ℤ
fixture_genesis_or default (num (whole z)) = z
fixture_genesis_or default v = default

abbrev bool_or : Bool → Value → Bool
bool_or default (bool b) = b
bool_or default v = default

abbrev time_of : FixtureFile → Option ℕ → ℕ
time_of file none = file.now
time_of file (some t) = t

-- `toDate`
abbrev to_date : FixtureFile → Value → ℕ
to_date file (str s) = time_of file (file.date s)
to_date file v = file.now

-- The rows that the loop of `load` skips
unfoldable pub is_skipped : Value → Bool
unfolding codes
is_skipped row =
    is_falsy (get row (codes "blockHash"))
    || is_undefined (get row (codes "blockHeight"))
    || is_falsy (get row (codes "transactionHash"))
    || is_undefined (get row (codes "eventIndex"))
    || is_falsy (get row (codes "amountRaw"))
    || is_falsy (get row (codes "assetId"))

pub record FixtureItem : Type 0 where
  pub cursor : ℕ
  pub ev : PltEvent

unfoldable pub item_of : Runtime → FixtureOptions → FixtureFile → Value → FixtureItem
unfolding codes derive_cursor number_or_zero
item_of rt opts file row = record {
  cursor = derive_cursor rt row;
  ev = record {
    block_hash = str_or [] (get row (codes "blockHash"));
    block_height = number_or_zero rt (get row (codes "blockHeight"));
    transaction_hash = str_or [] (get row (codes "transactionHash"));
    event_index = number_or_zero rt (get row (codes "eventIndex"));
    network = str_or opts.network (get row (codes "network"));
    network_genesis_index =
        fixture_genesis_or opts.network_genesis_index (get row (codes "networkGenesisIndex"));
    finalized = bool_or true (get row (codes "finalized"));
    event_type = str_or (codes "transfer") (get row (codes "eventType"));
    from_address = str_or_null (get row (codes "fromAddress"));
    to_address = str_or_null (get row (codes "toAddress"));
    amount_raw = str_or [] (get row (codes "amountRaw"));
    asset_id = str_or opts.default_asset_id (get row (codes "assetId"));
    occurred_at = to_date file (get row (codes "occurredAt"));
  };
}

unfoldable pub items_of : Runtime → FixtureOptions → FixtureFile → List Value → List FixtureItem
unfolding is_skipped item_of
items_of rt opts file [] = []
items_of rt opts file (row ∷ rows) =
    let rest = items_of rt opts file rows in
    if is_skipped row then rest else item_of rt opts file row ∷ rest

-- `items.sort((a, b) => a.cursor - b.cursor)`
unfoldable pub cursor_le : FixtureItem → FixtureItem → Bool
cursor_le a b = leb a.cursor b.cursor

unfoldable pub load_parsed_file :
    Runtime → FixtureOptions → FixtureFile → Option Value → Option (List FixtureItem)
unfolding items_of cursor_le sort_by
load_parsed_file rt opts file (some (arr vs)) =
    some (sort_by cursor_le (items_of rt opts file (items vs)))
load_parsed_file rt opts file v = none

-- `load`; `none` where it throws. The file is read once, so the same items come at every fetch.
unfoldable pub load_items : Runtime → FixtureOptions → FixtureFile → Option (List FixtureItem)
unfolding load_parsed_file
load_items rt opts file = load_parsed_file rt opts file file.parsed

abbrev pub is_after : ℕ → FixtureItem → Bool
is_after last x = ltb last x.cursor

-- `Math.max(...)` of the cursors, and `lastHeightExclusive` for none
unfoldable pub best_cursor : ℕ → List FixtureItem → ℕ
best_cursor best [] = best
best_cursor best (x ∷ xs) = best_cursor (if ltb best x.cursor then x.cursor else best) xs

-- `fetchSince`
unfoldable pub fetch_fixture : Runtime → FixtureOptions → FixtureFile → PltSource
unfolding load_items best_cursor
fetch_fixture rt opts file last = elim (load_items rt opts file) [
  | none ↦ none
  | some all ↦
      let slice = take opts.limit (keep (is_after last) all) in
      some (record { events = map (λ x. x.ev) slice; best_height = some (best_cursor last slice) })
]
