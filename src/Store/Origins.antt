-- ===== src/Store/Origins.antt =====
-- Where the events come from that an insertion leaves in the table.
use mathlib.Core.Option.{some-injective}
use mathlib.Core.Path.{subst}
use xcf_concordium_facilitat.Base.{
  ℕ, ◌≡◌, ◌⊎◌, ap, some, List, [], ◌∷◌, inl, inr, Bool-cases, Option-cases, any, In,
}
use xcf_concordium_facilitat.Store.{PltEvent, PltAsset, Db}
use xcf_concordium_facilitat.Store.Events.{
  same_place, is_registered, Inserted, insert_row, insert_rows, insert_values,
}

-- An event of the table after is one of the table before or one of the rows.
abbrev pub ComesFrom : List PltEvent → List PltEvent → List PltEvent → Type 0
ComesFrom before rows after = (x : PltEvent) → In x after → In x before ⊎ In x rows

insert_row-ComesFrom :
    (e : PltEvent) (assets : List PltAsset) (done done' : Inserted)
    → insert_row e assets done ≡ some done'
    → ComesFrom done.events (e ∷ []) done'.events
unfolding insert_row
insert_row-ComesFrom e assets done done' h =
    elim (Bool-cases (any (λ d. same_place d e) done.events)) [
      | inl taken ↦
          subst (λ (y : Inserted). ComesFrom done.events (e ∷ []) y.events)
            (some-injective done done' (rw (taken, insert_row) at h)) (λ x there. inl there)
      | inr free ↦ elim (Bool-cases (is_registered e assets)) [
        | inr unknown ↦ cc (rw (free, unknown, insert_row) at h)
        | inl known ↦
            subst (λ (y : Inserted). ComesFrom done.events (e ∷ []) y.events)
              (some-injective _ done' (rw (free, known, insert_row) at h))
              (λ x there. elim there [ inl same ↦ inr (inl same) | inr old ↦ inl old ])
      ]
    ]

insert_rows-ComesFrom :
    (es : List PltEvent) (assets : List PltAsset) (done done' : Inserted)
    → insert_rows es assets done ≡ some done'
    → ComesFrom done.events es done'.events
unfolding insert_rows
insert_rows-ComesFrom [] assets done done' h =
    subst (λ (y : Inserted). ComesFrom done.events [] y.events) (some-injective done done' h)
      (λ x there. inl there)
insert_rows-ComesFrom (e ∷ es) assets done done' h =
    elim (Option-cases (insert_row e assets done)) [
      | inl refused ↦ cc (rw (refused, insert_rows) at h)
      | inr (mid, first) ↦ λ x there.
          elim (insert_rows-ComesFrom es assets mid done' (rw (first, insert_rows) at h) x there) [
            | inr later ↦ inr (inr later)
            | inl earlier ↦ elim (insert_row-ComesFrom e assets done mid first x earlier) [
              | inl old ↦ inl old
              | inr (inl same) ↦ inr (inl same)
              | inr (inr none_left) ↦ absurd none_left
            ]
          ]
    ]

-- An insertion adds nothing but rows of its own.
pub insert_values-ComesFrom :
    (rows : List PltEvent) (db db' : Db) (n : ℕ)
    → insert_values rows db ≡ some (n, db')
    → ComesFrom db.events rows db'.events
unfolding insert_values
insert_values-ComesFrom rows db db' n h =
    elim (Option-cases (insert_rows rows db.assets (record { inserted = 0; events = db.events }))) [
      | inl refused ↦ cc (rw (refused, insert_values) at h)
      | inr (done, written) ↦
          subst (λ (y : Db). ComesFrom db.events rows y.events)
            (ap (λ x. x.1) (some-injective _ (n, db') (rw (written, insert_values) at h)))
            (insert_rows-ComesFrom rows db.assets _ done written)
    ]
