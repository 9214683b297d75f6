-- ===== src/Store/Results.antt =====
-- Which rows `searchPayments` returns.
use xcf_concordium_facilitat.Base.{
  ℕ, suc, ◌≤◌, ◌≡◌, ◌⊎◌, refl, ap, true, Option, none, some, List, [], ◌∷◌, arith, inl, inr,
  Bool-cases, leb, length, keep, In, In-keep, In-keep', In-take, In-take', length-take, Num,
}
use xcf_concordium_facilitat.Base.Js.{whole, fraction, pos, negsuc, nan, infinite}
use xcf_concordium_facilitat.Store.{Challenge}
use xcf_concordium_facilitat.Store.Search.{
  PaymentSearchFilters, selects, effective_limit, insert_newest, newest_first, search_payments,
  clamp_limit,
}

In-insert_newest :
    (c x : Challenge) (ds : List Challenge) → In x (insert_newest c ds) → (x ≡ c) ⊎ In x ds
unfolding insert_newest
In-insert_newest c x [] (inl e) = inl e
In-insert_newest c x [] (inr h) = absurd h
In-insert_newest c x (d ∷ ds) h = elim (Bool-cases (leb d.created_at c.created_at)) [
  | inl before ↦ let k : (x ≡ c) ⊎ In x (d ∷ ds) = rw (before, insert_newest) at h in k
  | inr after ↦
      elim (let k : (x ≡ d) ⊎ In x (insert_newest c ds) = rw (after, insert_newest) at h in k) [
        | inl e ↦ inr (inl e)
        | inr later ↦ elim (In-insert_newest c x ds later) [
          | inl e ↦ inl e
          | inr old ↦ inr (inr old)
        ]
      ]
]

In-insert_newest' :
    (c x : Challenge) (ds : List Challenge) → (x ≡ c) ⊎ In x ds → In x (insert_newest c ds)
unfolding insert_newest
In-insert_newest' c x [] (inl e) = inl e
In-insert_newest' c x [] (inr h) = absurd h
In-insert_newest' c x (d ∷ ds) h = elim (Bool-cases (leb d.created_at c.created_at)) [
  | inl before ↦ rw (before, insert_newest) h
  | inr after ↦
      rw (after, insert_newest)
        (elim h [
          | inl e ↦ inr (In-insert_newest' c x ds (inl e))
          | inr (inl e) ↦ inl e
          | inr (inr old) ↦ inr (In-insert_newest' c x ds (inr old))
        ])
]

In-newest_first : (x : Challenge) (cs : List Challenge) → In x (newest_first cs) → In x cs
unfolding newest_first
In-newest_first x [] h = h
In-newest_first x (c ∷ cs) h = elim (In-insert_newest c x (newest_first cs) h) [
  | inl e ↦ inl e
  | inr old ↦ inr (In-newest_first x cs old)
]

In-newest_first' : (x : Challenge) (cs : List Challenge) → In x cs → In x (newest_first cs)
unfolding newest_first
In-newest_first' x [] h = h
In-newest_first' x (c ∷ cs) (inl e) = In-insert_newest' c x (newest_first cs) (inl e)
In-newest_first' x (c ∷ cs) (inr old) =
    In-insert_newest' c x (newest_first cs) (inr (In-newest_first' x cs old))

length-insert_newest :
    (c : Challenge) (ds : List Challenge) → length (insert_newest c ds) ≡ suc (length ds)
unfolding insert_newest
length-insert_newest c [] = refl
length-insert_newest c (d ∷ ds) = elim (Bool-cases (leb d.created_at c.created_at)) [
  | inl before ↦ rw (before, insert_newest) refl
  | inr after ↦ rw (after, insert_newest) (ap suc (length-insert_newest c ds))
]

length-newest_first : (cs : List Challenge) → length (newest_first cs) ≡ length cs
unfolding newest_first
length-newest_first [] = refl
length-newest_first (c ∷ cs) =
    let k = length-newest_first cs in
    let j = length-insert_newest c (newest_first cs) in ground arith

clamp_bound : (n : ℕ) → clamp_limit n ≤ 100
clamp_bound n = ground arith

effective_limit_bound : (l : Option Num) → effective_limit l ≤ 100
unfolding effective_limit
effective_limit_bound none = omega arith
effective_limit_bound (some nan) = omega arith
effective_limit_bound (some (infinite s)) = omega arith
effective_limit_bound (some (whole (pos n))) = clamp_bound n
effective_limit_bound (some (whole (negsuc n))) = omega arith
effective_limit_bound (some (fraction (pos n) k)) = clamp_bound n
effective_limit_bound (some (fraction (negsuc n) k)) = omega arith

-- A search returns at most 100 rows, whatever limit it is asked for, and each of them is a row of
-- the table that the filters select.
pub search_payments_sound :
    (f : PaymentSearchFilters) (rows : List Challenge)
    → (length (search_payments f rows) ≤ 100)
      × ((x : Challenge) → In x (search_payments f rows) → (selects f x ≡ true) × In x rows)
unfolding search_payments
search_payments_sound f rows = (
  let j = effective_limit_bound f.limit in
      let k = length-take (effective_limit f.limit) (newest_first (keep (selects f) rows)) in
      omega arith,
  λ x h. In-keep (selects f) rows x (In-newest_first x _ (In-take (effective_limit f.limit) _ x h)),
)

-- A search whose limit is not below the number of selected rows returns all of them.
pub search_payments_complete :
    (f : PaymentSearchFilters) (rows : List Challenge) (x : Challenge)
    → length (keep (selects f) rows) ≤ effective_limit f.limit
    → In x rows
    → selects f x ≡ true
    → In x (search_payments f rows)
unfolding search_payments
search_payments_complete f rows x room there chosen =
    In-take' (effective_limit f.limit) _ x
      (let k = length-newest_first (keep (selects f) rows) in omega arith)
      (In-newest_first' x _ (In-keep' (selects f) rows x chosen there))
