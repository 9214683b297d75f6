-- ===== src/Examples/Paging.antt =====
-- A fixture file of three rows, which stand in another order than their cursors.
use xcf_concordium_facilitat.Base.{
  ℕ, ◌+◌, ◌*◌, ◌<◌, ◌≡◌, ◌≢◌, sym, ap, ◌∙◌, arith, refl, some, none, List, [], ◌∷◌, ◌++◌, map, take,
  keep, inl, inr, codes, text_eq, Value, to_number,
}
use xcf_concordium_facilitat.Base.Js.{pos, whole, num, str, obj, arr, nil, cons, field, end}
use xcf_concordium_facilitat.Base.Sorting.{sort_by, insert_by}
use xcf_concordium_facilitat.NetworkId.{testnet}
use xcf_concordium_facilitat.Worker.{PltSourceResult}
use xcf_concordium_facilitat.Source.Fixture.{
  FixtureOptions, FixtureFile, FixtureItem, item_of, derive_cursor, items_of, is_skipped,
  load_parsed_file, cursor_le, load_items, is_after, fetch_fixture,
}
use xcf_concordium_facilitat.Source.Pages.{IsDistinctCursor, nothing, another, fetch_fixture-pages}
use xcf_concordium_facilitat.Examples.Data.{plain_runtime}

abbrev options : FixtureOptions
unfolding codes
options = record {
  network = testnet;
  network_genesis_index = pos 7;
  default_asset_id = codes "EUDemo";
  limit = 1;
}

-- The row of the event at a block height
abbrev row : ℕ → Value
unfolding codes
row height = obj (
    field (codes "blockHash") (str (codes "b")) (
      field (codes "blockHeight") (num (whole (pos height))) (
        field (codes "transactionHash") (str (codes "t")) (
          field (codes "eventIndex") (num (whole (pos 0))) (
            field (codes "amountRaw") (str (codes "150"))
              (field (codes "assetId") (str (codes "EUDemo")) end))))))

abbrev file : FixtureFile
unfolding codes
file = record {
  parsed = some (arr (cons (row 2) (cons (row 3) (cons (row 1) nil))));
  date = λ s. none;
  now = 5000;
}

abbrev loaded : List FixtureItem
unfolding codes
loaded =
    item_of plain_runtime options file (row 1)
    ∷ item_of plain_runtime options file (row 2)
    ∷ item_of plain_runtime options file (row 3)
    ∷ []

loads : load_items plain_runtime options file ≡ some loaded
unfolding load_items load_parsed_file items_of is_skipped item_of derive_cursor to_number cursor_le
    sort_by insert_by codes text_eq
loads = refl

cursor_at :
    (height : ℕ) → (item_of plain_runtime options file (row height)).cursor ≡ height * 1000000 + 0
unfolding item_of derive_cursor to_number codes text_eq
cursor_at height = refl

apart :
    (a b : ℕ) (y : FixtureItem)
    → a < b
    → y ≡ item_of plain_runtime options file (row b)
    → (item_of plain_runtime options file (row a)).cursor ≢ y.cursor
apart a b y less e same =
    let at : a * 1000000 + 0 ≡ b * 1000000 + 0 =
      sym (cursor_at a) ∙ same ∙ ap (λ x. x.cursor) e ∙ cursor_at b in
    omega arith

distinct : IsDistinctCursor loaded
unfolding loaded
distinct =
    another
      (λ y there. elim there [
        | inl e ↦ apart 1 2 y (omega arith) e
        | inr (inl e) ↦ apart 1 3 y (omega arith) e
        | inr (inr h) ↦ absurd h
      ])
      (another (λ y there. elim there [ inl e ↦ apart 2 3 y (omega arith) e | inr h ↦ absurd h ])
        (another (λ y there. absurd there) nothing))

fetch_fixture-pages_example :
    (first : PltSourceResult) × (second : PltSourceResult) × (best : ℕ) × (fetch_fixture
        plain_runtime options file 0
      ≡ some first)
    × (first.best_height ≡ some best)
    × (fetch_fixture plain_runtime options file best ≡ some second)
    × (first.events ++ second.events
        ≡ map (λ x. x.ev) (take (options.limit + options.limit) (keep (is_after 0) loaded)))
fetch_fixture-pages_example = fetch_fixture-pages plain_runtime options file 0 loaded loads distinct
