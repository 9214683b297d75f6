-- ===== src/Worker/Cursors.antt =====
-- The table of cursors, and the start of the worker.
use xcf_concordium_facilitat.Base.{
  ℕ, ◌+◌, ◌-◌, ◌≤◌, ◌<◌, ◌≡◌, sym, ap, ◌∙◌, true, false, not, ◌&&◌, ◌==◌, Option, none, some, List,
  [], ◌∷◌, arith, inl, inr, Bool-cases, ltb, Text, text_eq, text_eq_iff, text_eq_self,
}
use xcf_concordium_facilitat.Worker.{
  WorkerConfig, Cursor, read_cursor, configured_start, greatest, upsert_cursor, clamp_start,
  start_from_now, resolve_start_cursor,
}

-- The height that an upsert leaves over an old one
abbrev pub raised : ℕ → Option ℕ → ℕ
raised height none = height
raised height (some old) = greatest old height

read_cursor-upsert_same :
    (key : Text) (height : ℕ) (cs : List Cursor)
    → read_cursor key (upsert_cursor key height cs) ≡ some (raised height (read_cursor key cs))
unfolding read_cursor upsert_cursor
read_cursor-upsert_same key height [] = rw (text_eq_self key)
read_cursor-upsert_same key height (c ∷ cs) = elim (Bool-cases (text_eq c.cursor_key key)) [
  | inl same ↦ rw (same, same, read_cursor)
  | inr other ↦ rw (other, other, read_cursor) (read_cursor-upsert_same key height cs)
]

read_cursor-upsert_other :
    (key k : Text) (height : ℕ) (cs : List Cursor)
    → text_eq key k ≡ false
    → read_cursor k (upsert_cursor key height cs) ≡ read_cursor k cs
unfolding read_cursor upsert_cursor
read_cursor-upsert_other key k height [] h = rw h
read_cursor-upsert_other key k height (c ∷ cs) h = elim (Bool-cases (text_eq c.cursor_key key)) [
  | inl same ↦
      let away : text_eq c.cursor_key k ≡ false = rw ((text_eq_iff c.cursor_key key).0 same) h in
      rw (same, away, read_cursor)
  | inr other ↦ rw (other, read_cursor-upsert_other key k height cs h, read_cursor)
]

-- No stored height is lost or lowered.
abbrev pub Forward : List Cursor → List Cursor → Type 0
Forward before after =
    (k : Text) (old : ℕ)
    → read_cursor k before ≡ some old
    → (new : ℕ) × (read_cursor k after ≡ some new) × (old ≤ new)

pub Forward-refl : (cs : List Cursor) → Forward cs cs
Forward-refl cs k old h = (old, h, omega arith)

pub Forward-trans : (a b c : List Cursor) → Forward a b → Forward b c → Forward a c
Forward-trans a b c f g k old h =
    let (mid, at_mid, low) = f k old h in
    let (new, at_new, high) = g k mid at_mid in (new, at_new, omega arith)

greatest_left : (a b : ℕ) → a ≤ greatest a b
greatest_left a b = ground arith

pub upsert_cursor-Forward :
    (key : Text) (height : ℕ) (cs : List Cursor) → Forward cs (upsert_cursor key height cs)
upsert_cursor-Forward key height cs k old h = elim (Bool-cases (text_eq key k)) [
  | inr other ↦ (old, read_cursor-upsert_other key k height cs other ∙ h, omega arith)
  | inl same ↦
      let e : key ≡ k = (text_eq_iff key k).0 same in
      let h' : read_cursor key cs ≡ some old = ap (λ x. read_cursor x cs) e ∙ h in
      (
        greatest old height,
        ap (λ x. read_cursor x (upsert_cursor key height cs)) (sym e)
            ∙ read_cursor-upsert_same key height cs
            ∙ ap (λ x. some (raised height x)) h',
        greatest_left old height,
      )
]

-- After an upsert the key holds the greater of its old height and the new one, and every other key
-- holds what it held.
pub read_cursor-upsert_cursor :
    (key : Text) (height : ℕ) (cs : List Cursor)
    → (read_cursor key (upsert_cursor key height cs) ≡ some (raised height (read_cursor key cs)))
      × ((k : Text)
          → text_eq key k ≡ false
          → read_cursor k (upsert_cursor key height cs) ≡ read_cursor k cs)
read_cursor-upsert_cursor key height cs =
    (read_cursor-upsert_same key height cs, λ k h. read_cursor-upsert_other key k height cs h)

configured_start-stored :
    (cfg : WorkerConfig) (key : Text) (stored : ℕ) (cs : List Cursor)
    → cfg.start_height_override ≡ none
    → read_cursor key cs ≡ some stored
    → configured_start cfg key cs ≡ stored
unfolding configured_start
configured_start-stored cfg key stored cs free held = rw (free, held, configured_start)

-- A clamped start is forgotten: if the stored height is more than the guard ahead of the account's
-- latest transaction, and no override is set, the worker starts at or before that transaction, but
-- the stored height stays the same, ahead of it.
pub resolve_start_cursor-clamp_forgotten :
    (cfg : WorkerConfig) (key : Text) (latest stored : ℕ) (cs : List Cursor)
    → cfg.start_height_override ≡ none
    → read_cursor key cs ≡ some stored
    → 0 < latest
    → latest + cfg.max_ahead_guard < stored
    → ((resolve_start_cursor cfg key (some latest) cs).0 ≤ latest)
      × (read_cursor key (resolve_start_cursor cfg key (some latest) cs).1 ≡ some stored)
unfolding resolve_start_cursor clamp_start start_from_now
resolve_start_cursor-clamp_forgotten cfg key latest stored cs free held some_tx ahead =
    let start = configured_start-stored cfg key stored cs free held in
    let positive : ltb 0 latest ≡ true = ground arith in
    let beyond : ltb (latest + cfg.max_ahead_guard) stored ≡ true = ground arith in
    let clamped = latest - cfg.rewind_on_clamp in
    let kept : (h : ℕ) → h ≤ latest → greatest stored h ≡ stored = λ h small. ground arith in
    let first : read_cursor key (upsert_cursor key clamped cs) ≡ some stored =
      read_cursor-upsert_same key clamped cs
      ∙ ap (λ x. some (raised clamped x)) held
      ∙ ap some (kept clamped (omega arith)) in
    elim (Bool-cases (clamped == 0 && not cfg.zero_is_genesis)) [
      | inr away ↦ rw (start, positive, beyond, away) (omega arith, first)
      | inl now ↦
          rw (start, positive, beyond, now)
            (
              omega arith,
              read_cursor-upsert_same key latest (upsert_cursor key clamped cs)
                  ∙ ap (λ x. some (raised latest x)) first
                  ∙ ap some (kept latest (omega arith)),
            )
    ]
