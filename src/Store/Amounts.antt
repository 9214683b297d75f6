-- ===== src/Store/Amounts.antt =====
-- The amounts of the rows that an insertion reads.
use mathlib.Core.Path.{subst}
use mathlib.Core.Option.{some-injective}
use xcf_concordium_facilitat.Base.{
  ℕ, ◌≡◌, ◌⊎◌, refl, sym, Option, some, List, [], ◌∷◌, inl, inr, Option-cases, In, Within, Text,
  true,
}
use xcf_concordium_facilitat.Store.{PltEvent, Db}
use xcf_concordium_facilitat.Store.Events.{
  is_registered, read_amounts, insert_values, insert_plt_transfers,
}
use xcf_concordium_facilitat.Store.Insertions.{
  IsPlaced, insert_values-IsPlaced, insert_values-registered,
}
use xcf_concordium_facilitat.Store.Origins.{insert_values-ComesFrom}

-- A row as the table has it: its amount is what Postgres reads of the given one.
pub record IsRead (numeric : Text → Option Text) (given read : PltEvent) : Type 0 where
  pub amount : Text
  pub is_amount : numeric given.amount_raw ≡ some amount
  pub is_read : read ≡ record given { amount_raw = amount }

module _ (numeric : Text → Option Text) where
  -- Each row is read, and nothing else is.
  pub record AreRead (given read : List PltEvent) : Type 0 where
    pub all : (e : PltEvent) → In e given → (d : PltEvent) × In d read × IsRead numeric e d
    pub only : (d : PltEvent) → In d read → (e : PltEvent) × In e given × IsRead numeric e d

  one_more_read :
      (e d : PltEvent) (es ds : List PltEvent)
      → IsRead numeric e d
      → AreRead es ds
      → AreRead (e ∷ es) (d ∷ ds)
  one_more_read e d es ds r rs = record {
    all = λ x there. elim there [
      | inl same ↦ (d, inl refl, subst (λ y. IsRead numeric y d) (sym same) r)
      | inr later ↦ let (y, listed, is) = rs.all x later in (y, inr listed, is)
    ];
    only = λ x there. elim there [
      | inl same ↦ (e, inl refl, subst (λ y. IsRead numeric e y) (sym same) r)
      | inr later ↦ let (y, listed, is) = rs.only x later in (y, inr listed, is)
    ];
  }

  read_amounts-AreRead :
      (rows read : List PltEvent) → read_amounts numeric rows ≡ some read → AreRead rows read
  unfolding read_amounts
  read_amounts-AreRead [] read h =
      subst (AreRead []) (some-injective [] read h)
        (record { all = λ e there. absurd there; only = λ e there. absurd there })
  read_amounts-AreRead (e ∷ es) read h = elim (Option-cases (numeric e.amount_raw)) [
    | inl refused ↦ cc (rw (refused, read_amounts) at h)
    | inr (amount, is_amount) ↦ elim (Option-cases (read_amounts numeric es)) [
      | inl refused ↦ cc (rw (is_amount, refused, read_amounts) at h)
      | inr (ds, rest) ↦
          subst (AreRead (e ∷ es)) (some-injective _ read (rw (is_amount, rest, read_amounts) at h))
            (one_more_read e _ es ds
              (record { amount = amount; is_amount = is_amount; is_read = refl })
              (read_amounts-AreRead es ds rest))
    ]
  ]

  -- An insertion that does not fail has read its rows, and inserted what it read.
  pub insert_plt_transfers-AreRead :
      (rows : List PltEvent) (db db' : Db) (n : ℕ)
      → insert_plt_transfers numeric rows db ≡ some (n, db')
      → (read : List PltEvent) × AreRead rows read × (insert_values read db ≡ some (n, db'))
  unfolding insert_plt_transfers
  insert_plt_transfers-AreRead rows db db' n h = elim (Option-cases (read_amounts numeric rows)) [
    | inl refused ↦ cc (rw (refused, insert_plt_transfers) at h)
    | inr (read, is_read) ↦
        (read, read_amounts-AreRead rows read is_read, rw (is_read, insert_plt_transfers) at h)
  ]

  -- After an insertion, every event of before is still in the table, and every row has an event at
  -- its place.
  pub insert_plt_transfers-IsPlaced :
      (rows : List PltEvent) (db db' : Db) (n : ℕ)
      → insert_plt_transfers numeric rows db ≡ some (n, db')
      → Within db.events db'.events × ((e : PltEvent) → In e rows → IsPlaced e db'.events)
  insert_plt_transfers-IsPlaced rows db db' n h =
      let (read, are, written) = insert_plt_transfers-AreRead rows db db' n h in
      let (kept, placed) = insert_values-IsPlaced read db db' n written in
      (
        kept,
        λ e there.
            let (d, listed, is) = are.all e there in
            let p : IsPlaced (record e { amount_raw = is.amount }) db'.events =
              subst (λ x. IsPlaced x db'.events) is.is_read (placed d listed) in
            record {
              event = p.event;
              stored = p.stored;
              transaction_hash = p.transaction_hash;
              event_index = p.event_index;
            },
      )

  -- An insertion adds nothing but rows of its own, as they are read.
  pub insert_plt_transfers-origin :
      (rows : List PltEvent) (db db' : Db) (n : ℕ)
      → insert_plt_transfers numeric rows db ≡ some (n, db')
      → (d : PltEvent) → In d db'.events
      → In d db.events ⊎ ((e : PltEvent) × In e rows × IsRead numeric e d)
  insert_plt_transfers-origin rows db db' n h d there =
      let (read, are, written) = insert_plt_transfers-AreRead rows db db' n h in
      elim (insert_values-ComesFrom read db db' n written d there) [
        | inl old ↦ inl old
        | inr new ↦ inr (are.only d new)
      ]

  read_amounts-numeric :
      (rows : List PltEvent)
      → ((e : PltEvent) → In e rows → (v : Text) × (numeric e.amount_raw ≡ some v))
      → (read : List PltEvent) × (read_amounts numeric rows ≡ some read)
  unfolding read_amounts
  read_amounts-numeric [] all = ([], refl)
  read_amounts-numeric (e ∷ es) all =
      let (v, is_v) = all e (inl refl) in
      let (ds, rest) = read_amounts-numeric es (λ x there. all x (inr there)) in
      (record e { amount_raw = v } ∷ ds, rw (is_v, rest, read_amounts) refl)

  -- An insertion of rows of registered tokens and with numbers as amounts does not fail, and changes
  -- only the table of events.
  pub insert_plt_transfers-registered :
      (rows : List PltEvent) (db : Db)
      → ((e : PltEvent) → In e rows → is_registered e db.assets ≡ true)
      → ((e : PltEvent) → In e rows → (v : Text) × (numeric e.amount_raw ≡ some v))
      → (n : ℕ) × (events : List PltEvent) × (insert_plt_transfers numeric rows db
          ≡ some (n, record db { events = events }))
  unfolding insert_plt_transfers is_registered
  insert_plt_transfers-registered rows db known numbers =
      let (read, is_read) = read_amounts-numeric rows numbers in
      let are = read_amounts-AreRead rows read is_read in
      let (n, events, written) = insert_values-registered read db (λ d there.
        let (e, listed, is) = are.only d there in
        subst (λ x. is_registered x db.assets ≡ true) (sym is.is_read) (known e listed)) in
      (n, events, rw (insert_plt_transfers, is_read) written)
