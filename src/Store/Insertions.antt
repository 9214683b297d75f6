-- ===== src/Store/Insertions.antt =====
-- What an insertion into the table of events leaves there.
use mathlib.Core.Option.{some-injective}
use mathlib.Core.Path.{subst}
use xcf_concordium_facilitat.Base.{
  ℕ, suc, ◌≡◌, refl, sym, ap, true, some, List, [], ◌∷◌, arith, inl, inr, Bool-cases, Option-cases,
  any, In, Within, text_eq_iff, text_eq, ◌==◌, and-eq-true_iff, Bool,
}
use xcf_concordium_facilitat.Store.{PltEvent, PltAsset, Db}
use xcf_concordium_facilitat.Store.Events.{
  same_place, is_registered, Inserted, insert_row, insert_rows, insert_values,
}

pub any_some :
    {A : Type 0} (p : A → Bool) (xs : List A) → any p xs ≡ true → (x : A) × In x xs × (p x ≡ true)
any_some p [] h = cc
any_some p (y ∷ ys) h = elim (Bool-cases (p y)) [
  | inl yes_y ↦ (y, inl refl, yes_y)
  | inr no_y ↦ let (x, there, px) = any_some p ys (rw no_y at h) in (x, inr there, px)
]

-- An event at the place of `e` is among the events.
pub record IsPlaced (e : PltEvent) (events : List PltEvent) : Type 0 where
  pub event : PltEvent
  pub stored : In event events
  pub transaction_hash : event.transaction_hash ≡ e.transaction_hash
  pub event_index : event.event_index ≡ e.event_index

pub IsPlaced-Within :
    (e : PltEvent) (xs ys : List PltEvent) → Within xs ys → IsPlaced e xs → IsPlaced e ys
IsPlaced-Within e xs ys w p = record {
  event = p.event;
  stored = w p.event p.stored;
  transaction_hash = p.transaction_hash;
  event_index = p.event_index;
}

taken_IsPlaced :
    (e : PltEvent) (events : List PltEvent)
    → any (λ d. same_place d e) events ≡ true
    → IsPlaced e events
taken_IsPlaced e events h =
    let (d, there, same) = any_some (λ d. same_place d e) events h in
    let both =
      (and-eq-true_iff (text_eq d.transaction_hash e.transaction_hash)
          (d.event_index == e.event_index)).0
        same in
    record {
      event = d;
      stored = there;
      transaction_hash = (text_eq_iff d.transaction_hash e.transaction_hash).0 both.0;
      event_index = let b = both.1 in ground arith;
    }

insert_row-IsPlaced :
    (e : PltEvent) (assets : List PltAsset) (done done' : Inserted)
    → insert_row e assets done ≡ some done'
    → Within done.events done'.events × IsPlaced e done'.events
unfolding insert_row
insert_row-IsPlaced e assets done done' h =
    elim (Bool-cases (any (λ d. same_place d e) done.events)) [
      | inl taken ↦
          subst (λ (x : Inserted). Within done.events x.events × IsPlaced e x.events)
            (some-injective done done' (rw (taken, insert_row) at h))
            (λ x there. there, taken_IsPlaced e done.events taken)
      | inr free ↦ elim (Bool-cases (is_registered e assets)) [
        | inr unknown ↦ cc (rw (free, unknown, insert_row) at h)
        | inl known ↦
            subst (λ (x : Inserted). Within done.events x.events × IsPlaced e x.events)
              (some-injective _ done' (rw (free, known, insert_row) at h))
              (
                λ x there. inr there,
                record {
                  event = e;
                  stored = inl refl;
                  transaction_hash = refl;
                  event_index = refl;
                },
              )
      ]
    ]

insert_rows-IsPlaced :
    (es : List PltEvent) (assets : List PltAsset) (done done' : Inserted)
    → insert_rows es assets done ≡ some done'
    → Within done.events done'.events × ((e : PltEvent) → In e es → IsPlaced e done'.events)
unfolding insert_rows
insert_rows-IsPlaced [] assets done done' h =
    subst
      (λ (x : Inserted).
        Within done.events x.events × ((e : PltEvent) → In e [] → IsPlaced e x.events))
      (some-injective done done' h) (λ x there. there, λ e there. absurd there)
insert_rows-IsPlaced (e ∷ es) assets done done' h = elim (Option-cases (insert_row e assets done)) [
  | inl refused ↦ cc (rw (refused, insert_rows) at h)
  | inr (mid, first) ↦
      let (kept, placed) = insert_row-IsPlaced e assets done mid first in
      let (kept', placed') =
        insert_rows-IsPlaced es assets mid done' (rw (first, insert_rows) at h) in
      (
        λ x there. kept' x (kept x there),
        λ x there. elim there [
          | inl same ↦
              subst (λ y. IsPlaced y done'.events) (sym same)
                (IsPlaced-Within e mid.events done'.events kept' placed)
          | inr later ↦ placed' x later
        ],
      )
]

-- After an insertion, every event of before is still in the table, and every row has an event at
-- its place.
pub insert_values-IsPlaced :
    (rows : List PltEvent) (db db' : Db) (n : ℕ)
    → insert_values rows db ≡ some (n, db')
    → Within db.events db'.events × ((e : PltEvent) → In e rows → IsPlaced e db'.events)
unfolding insert_values
insert_values-IsPlaced rows db db' n h =
    elim (Option-cases (insert_rows rows db.assets (record { inserted = 0; events = db.events }))) [
      | inl refused ↦ cc (rw (refused, insert_values) at h)
      | inr (done, written) ↦
          subst
            (λ (x : Db).
              Within db.events x.events × ((e : PltEvent) → In e rows → IsPlaced e x.events))
            (ap (λ x. x.1) (some-injective _ (n, db') (rw (written, insert_values) at h)))
            (insert_rows-IsPlaced rows db.assets _ done written)
    ]

insert_row-registered :
    (e : PltEvent) (assets : List PltAsset) (done : Inserted)
    → is_registered e assets ≡ true
    → (done' : Inserted) × (insert_row e assets done ≡ some done')
unfolding insert_row
insert_row-registered e assets done known =
    elim (Bool-cases (any (λ d. same_place d e) done.events)) [
      | inl taken ↦ (done, rw (taken, insert_row))
      | inr free ↦ (
        record { inserted = suc done.inserted; events = e ∷ done.events },
        rw (free, known, insert_row),
      )
    ]

insert_rows-registered :
    (es : List PltEvent) (assets : List PltAsset) (done : Inserted)
    → ((e : PltEvent) → In e es → is_registered e assets ≡ true)
    → (done' : Inserted) × (insert_rows es assets done ≡ some done')
unfolding insert_rows
insert_rows-registered [] assets done known = (done, refl)
insert_rows-registered (e ∷ es) assets done known =
    let (mid, first) = insert_row-registered e assets done (known e (inl refl)) in
    let (done', rest) = insert_rows-registered es assets mid (λ x there. known x (inr there)) in
    (done', rw (first, insert_rows) rest)

-- An insertion of rows of registered tokens does not fail, and changes only the table of events.
pub insert_values-registered :
    (rows : List PltEvent) (db : Db)
    → ((e : PltEvent) → In e rows → is_registered e db.assets ≡ true)
    → (n : ℕ) × (events : List PltEvent) × (insert_values rows db
        ≡ some (n, record db { events = events }))
unfolding insert_values
insert_values-registered rows db known =
    let (done, written) =
      insert_rows-registered rows db.assets (record { inserted = 0; events = db.events }) known in
    (done.inserted, done.events, rw (written, insert_values))
