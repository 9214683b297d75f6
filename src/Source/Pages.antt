-- ===== src/Source/Pages.antt =====
-- The fixture source hands its file out page by page.
use xcf_concordium_facilitat.Base.{
  ℕ, zero, suc, ◌+◌, ◌≤◌, ◌<◌, ◌≡◌, refl, sym, ap, ◌∙◌, ◌≢◌, true, false, some, List, [], ◌∷◌, ◌++◌,
  arith, map, take, drop, keep, inl, inr, In, Bool-cases, ltb, ltb→lt, ltb_false→le, leb, Value,
  Option, Runtime,
}
use mathlib.Core.List.{map-append}
use mathlib.Core.Path.{subst}
use mathlib.Core.Option.{some-injective}
use xcf_concordium_facilitat.Base.Js.{arr}
use xcf_concordium_facilitat.Source.{items}
use xcf_concordium_facilitat.Base.Sorting.{
  IsSorted, sorted_next, IsOrder, sort_by, sort_by-IsSorted,
}
use xcf_concordium_facilitat.Worker.{PltSourceResult}
use xcf_concordium_facilitat.Source.Fixture.{
  FixtureOptions, FixtureFile, FixtureItem, items_of, load_items, load_parsed_file, cursor_le,
  is_after, best_cursor, fetch_fixture,
}

-- The cursors ascend, and no two items have the same.
pub data IsAscendingCursor : List FixtureItem → Type 0 where
  no_item : IsAscendingCursor []
  next_item :
      {x : FixtureItem} {xs : List FixtureItem}
      → ((y : FixtureItem) → In y xs → x.cursor < y.cursor)
      → IsAscendingCursor xs
      → IsAscendingCursor (x ∷ xs)

best_cursor-le : (best : ℕ) (xs : List FixtureItem) → best ≤ best_cursor best xs
unfolding best_cursor
best_cursor-le best [] = omega arith
best_cursor-le best (x ∷ xs) = elim (Bool-cases (ltb best x.cursor)) [
  | inl more ↦
      let up = ltb→lt best x.cursor more in
      let rest = best_cursor-le x.cursor xs in rw more (omega arith)
  | inr less ↦ rw less (best_cursor-le best xs)
]

-- Everything is after a cursor before all of them.
keep-after_all :
    (last : ℕ) (xs : List FixtureItem)
    → ((y : FixtureItem) → In y xs → last < y.cursor)
    → keep (is_after last) xs ≡ xs
keep-after_all last [] low = refl
keep-after_all last (x ∷ xs) low =
    let up = low x (inl refl) in
    let rest = keep-after_all last xs (λ y there. low y (inr there)) in
    let young : ltb last x.cursor ≡ true = ground arith in rw (young, rest)

after_least :
    (last : ℕ) (x : FixtureItem) (xs : List FixtureItem)
    → last < x.cursor
    → ((y : FixtureItem) → In y xs → x.cursor < y.cursor)
    → (y : FixtureItem) → In y (x ∷ xs)
    → last < y.cursor
after_least last x xs low least y (inl e) = rw e low
after_least last x xs low least y (inr there) = let l = least y there in omega arith

-- After a page, what is left is what comes after its best cursor.
keep-after_page :
    (n last : ℕ) (xs : List FixtureItem)
    → IsAscendingCursor xs
    → keep (is_after (best_cursor last (take n (keep (is_after last) xs)))) xs
      ≡ drop n (keep (is_after last) xs)
unfolding best_cursor
keep-after_page zero last xs up = refl
keep-after_page (suc n) last [] up = refl
keep-after_page (suc n) last (x ∷ xs) (next_item least up) = elim (Bool-cases (ltb last x.cursor)) [
  | inl young ↦
      let low = ltb→lt last x.cursor young in
      let all : keep (is_after x.cursor) xs ≡ xs = keep-after_all x.cursor xs least in
      let left : keep (is_after last) (x ∷ xs) ≡ x ∷ xs =
        keep-after_all last (x ∷ xs) (after_least last x xs low least) in
      let far = best_cursor-le x.cursor (take n xs) in
      let old : ltb (best_cursor x.cursor (take n xs)) x.cursor ≡ false = ground arith in
      let pick : best_cursor last (x ∷ take n xs) ≡ best_cursor x.cursor (take n xs) =
        rw (best_cursor, young) refl in
      let skip : keep (is_after (best_cursor x.cursor (take n xs))) (x ∷ xs)
          ≡ keep (is_after (best_cursor x.cursor (take n xs))) xs =
        rw old refl in
      let page : keep (is_after (best_cursor x.cursor (take n xs))) xs ≡ drop n xs =
        rw all at (keep-after_page n x.cursor xs up) in
      ap (λ ys. keep (is_after (best_cursor last (take (suc n) ys))) (x ∷ xs)) left
      ∙ ap (λ b. keep (is_after b) (x ∷ xs)) pick
      ∙ skip
      ∙ page
      ∙ sym (ap (λ ys. drop (suc n) ys) left)
  | inr old ↦
      let left : keep (is_after last) (x ∷ xs) ≡ keep (is_after last) xs = rw old refl in
      let far = best_cursor-le last (take (suc n) (keep (is_after last) xs)) in
      let low = ltb_false→le last x.cursor old in
      let past : ltb (best_cursor last (take (suc n) (keep (is_after last) xs))) x.cursor ≡ false =
        ground arith in
      let skip : keep (is_after (best_cursor last (take (suc n) (keep (is_after last) xs))))
            (x ∷ xs)
          ≡ keep (is_after (best_cursor last (take (suc n) (keep (is_after last) xs)))) xs =
        rw past refl in
      ap (λ ys. keep (is_after (best_cursor last (take (suc n) ys))) (x ∷ xs)) left
      ∙ skip
      ∙ keep-after_page (suc n) last xs up
      ∙ sym (ap (λ ys. drop (suc n) ys) left)
]

module _ {A : Type 0} where
  take_nil : (n : ℕ) → take {A = A} n [] ≡ []
  take_nil zero = refl
  take_nil (suc n) = refl

  take-drop : (m n : ℕ) (xs : List A) → take (m + n) xs ≡ take m xs ++ take n (drop m xs)
  take-drop zero n xs = let e : 0 + n ≡ n = omega arith in ap (λ k. take k xs) e
  take-drop (suc m) n [] = take_nil (suc m + n) ∙ sym (take_nil n)
  take-drop (suc m) n (x ∷ xs) =
      let e : suc m + n ≡ suc (m + n) = omega arith in
      ap (λ k. take k (x ∷ xs)) e ∙ ap (λ ys. x ∷ ys) (take-drop m n xs)

-- No two items have the same cursor.
pub data IsDistinctCursor : List FixtureItem → Type 0 where
  nothing : IsDistinctCursor []
  another :
      {x : FixtureItem} {xs : List FixtureItem}
      → ((y : FixtureItem) → In y xs → x.cursor ≢ y.cursor)
      → IsDistinctCursor xs
      → IsDistinctCursor (x ∷ xs)

IsSorted-IsAscendingCursor :
    (xs : List FixtureItem) → IsSorted cursor_le xs → IsDistinctCursor xs → IsAscendingCursor xs
unfolding cursor_le
IsSorted-IsAscendingCursor [] s d = no_item
IsSorted-IsAscendingCursor (x ∷ xs) (sorted_next least s) (another other d) =
    next_item
      (λ y there.
        let le : leb x.cursor y.cursor ≡ true = least y there in
        let ne = other y there in ground arith)
      (IsSorted-IsAscendingCursor xs s d)

cursor_le-IsOrder : IsOrder cursor_le
unfolding cursor_le
cursor_le-IsOrder = record {
  total = λ a b h. let k : leb a.cursor b.cursor ≡ false = h in ground arith;
  trans = λ a b c h k.
      let low : leb a.cursor b.cursor ≡ true = h in
      let high : leb b.cursor c.cursor ≡ true = k in ground arith;
}

load_parsed_file-IsSorted :
    (rt : Runtime) (opts : FixtureOptions) (file : FixtureFile) (parsed : Option Value)
    → (all : List FixtureItem) → load_parsed_file rt opts file parsed ≡ some all
    → IsSorted cursor_le all
unfolding load_parsed_file
load_parsed_file-IsSorted rt opts file (some (arr vs)) all h =
    subst (IsSorted cursor_le)
      (some-injective (sort_by cursor_le (items_of rt opts file (items vs))) all h)
      (sort_by-IsSorted cursor_le cursor_le-IsOrder (items_of rt opts file (items vs)))
load_parsed_file-IsSorted rt opts file v all h = cc

load_items-IsSorted :
    (rt : Runtime) (opts : FixtureOptions) (file : FixtureFile) (all : List FixtureItem)
    → load_items rt opts file ≡ some all
    → IsSorted cursor_le all
unfolding load_items
load_items-IsSorted rt opts file all h = load_parsed_file-IsSorted rt opts file file.parsed all h

-- Two fetches in a row hand out what one fetch of twice the limit would: if the file is read and no
-- two of its items have the same cursor, then a fetch after a cursor and the next fetch, after the
-- best cursor of the first, both succeed, and their events together are those of the loaded items
-- after the first cursor, in the order in which they are loaded, up to twice the limit.
pub fetch_fixture-pages :
    (rt : Runtime) (opts : FixtureOptions) (file : FixtureFile) (last : ℕ) (all : List FixtureItem)
    → load_items rt opts file ≡ some all
    → IsDistinctCursor all
    → (first : PltSourceResult) × (second : PltSourceResult) × (best : ℕ) × (fetch_fixture rt opts
          file last
        ≡ some first)
      × (first.best_height ≡ some best)
      × (fetch_fixture rt opts file best ≡ some second)
      × (first.events ++ second.events
          ≡ map (λ x. x.ev) (take (opts.limit + opts.limit) (keep (is_after last) all)))
unfolding fetch_fixture
fetch_fixture-pages rt opts file last all loaded distinct =
    let sorted = load_items-IsSorted rt opts file all loaded in
    let up = IsSorted-IsAscendingCursor all sorted distinct in
    let page = take opts.limit (keep (is_after last) all) in
    let best = best_cursor last page in
    let next = take opts.limit (keep (is_after best) all) in
    let left : next ≡ take opts.limit (drop opts.limit (keep (is_after last) all)) =
      ap (λ xs. take opts.limit xs) (keep-after_page opts.limit last all up) in
    (
      record { events = map (λ x. x.ev) page; best_height = some best },
      record { events = map (λ x. x.ev) next; best_height = some (best_cursor best next) },
      best,
      rw (fetch_fixture, loaded) refl,
      refl,
      rw (fetch_fixture, loaded) refl,
      sym (map-append (λ x. x.ev) page next)
          ∙ ap (λ xs. map (λ x. x.ev) (page ++ xs)) left
          ∙ ap (λ xs. map (λ x. x.ev) xs)
              (sym (take-drop opts.limit opts.limit (keep (is_after last) all))),
    )
