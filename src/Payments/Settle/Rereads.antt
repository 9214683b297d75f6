-- ===== src/Payments/Settle/Rereads.antt =====
-- The search for a challenge after the `UPDATE` of a fulfillment.
use mathlib.Core.Option.{some-injective}
use xcf_concordium_facilitat.Base.{
  ℕ, ◌≡◌, refl, ap, ap₂, ◌∙◌, if◌then◌else◌, Bool, some, List, [], ◌∷◌, map, inl, inr, Bool-cases,
  find, keep, take, zero, suc, leb, Text,
}
use xcf_concordium_facilitat.Store.{Receipt, Challenge, has_key}
use xcf_concordium_facilitat.Store.Search.{
  selects, insert_newest, newest_first, search_payments, effective_limit,
}
use xcf_concordium_facilitat.Payments.{
  PaymentTuple, exact_match_filters, is_exact_match, find_exact_match,
}
use xcf_concordium_facilitat.Payments.Settle.{set_fulfilled, with_receipt}

module _ (g : Challenge → Challenge) where
  keep-map :
      (p : Challenge → Bool)
      → ((c : Challenge) → p (g c) ≡ p c)
      → (cs : List Challenge) → keep p (map g cs) ≡ map g (keep p cs)
  keep-map p same [] = refl
  keep-map p same (c ∷ cs) = elim (Bool-cases (p c)) [
    | inl holds ↦ rw (same c, holds) (ap (λ xs. g c ∷ xs) (keep-map p same cs))
    | inr fails ↦ rw (same c, fails) (keep-map p same cs)
  ]

  insert_newest-map :
      ((c : Challenge) → (g c).created_at ≡ c.created_at)
      → (c : Challenge) (ds : List Challenge)
      → insert_newest (g c) (map g ds) ≡ map g (insert_newest c ds)
  unfolding insert_newest
  insert_newest-map same c [] = refl
  insert_newest-map same c (d ∷ ds) =
      let test : leb (g d).created_at (g c).created_at ≡ leb d.created_at c.created_at =
        ap₂ leb (same d) (same c) in
      elim (Bool-cases (leb d.created_at c.created_at)) [
        | inl first ↦ let moved = test ∙ first in rw (moved, first, insert_newest) refl
        | inr later ↦
            let moved = test ∙ later in
            rw (moved, later, insert_newest) (ap (λ xs. g d ∷ xs) (insert_newest-map same c ds))
      ]

  newest_first-map :
      ((c : Challenge) → (g c).created_at ≡ c.created_at)
      → (cs : List Challenge) → newest_first (map g cs) ≡ map g (newest_first cs)
  unfolding newest_first
  newest_first-map same [] = refl
  newest_first-map same (c ∷ cs) =
      ap (insert_newest (g c)) (newest_first-map same cs)
      ∙ insert_newest-map same c (newest_first cs)

  take-map : (n : ℕ) (cs : List Challenge) → take n (map g cs) ≡ map g (take n cs)
  take-map zero cs = refl
  take-map (suc n) [] = refl
  take-map (suc n) (c ∷ cs) = ap (λ xs. g c ∷ xs) (take-map n cs)

  find-map :
      (p : Challenge → Bool)
      → ((c : Challenge) → p (g c) ≡ p c)
      → (cs : List Challenge) (row : Challenge) → find p cs ≡ some row
      → find p (map g cs) ≡ some (g row)
  find-map p same [] row h = cc
  find-map p same (c ∷ cs) row h = elim (Bool-cases (p c)) [
    | inl holds ↦ rw (same c, holds) (ap (λ x. some (g x)) (some-injective c row (rw holds at h)))
    | inr fails ↦ rw (same c, fails) (find-map p same cs row (rw fails at h))
  ]

-- What the `UPDATE` does to one row
abbrev pub marked : Text → Text → Receipt → ℕ → Challenge → Challenge
marked m n r now c = if has_key m n c then with_receipt r now c else c

set_fulfilled-map :
    (m n : Text) (r : Receipt) (now : ℕ) (cs : List Challenge)
    → set_fulfilled m n r now cs ≡ map (marked m n r now) cs
unfolding set_fulfilled
set_fulfilled-map m n r now [] = refl
set_fulfilled-map m n r now (c ∷ cs) =
    ap (λ xs. marked m n r now c ∷ xs) (set_fulfilled-map m n r now cs)

marked-keeps :
    {A : Type 0} (f : Challenge → A) (m n : Text) (r : Receipt) (now : ℕ)
    → ((c : Challenge) → f (with_receipt r now c) ≡ f c)
    → (c : Challenge) → f (marked m n r now c) ≡ f c
marked-keeps f m n r now same c = elim (Bool-cases (has_key m n c)) [
  | inl key ↦ rw key (same c)
  | inr other ↦ rw other refl
]

-- The `UPDATE` does not change what `findExactMatch` finds, but for the receipt.
pub find_exact_match-set_fulfilled :
    (t : PaymentTuple) (m n : Text) (r : Receipt) (now : ℕ) (cs : List Challenge) (row : Challenge)
    → find_exact_match t cs ≡ some row
    → find_exact_match t (set_fulfilled m n r now cs) ≡ some (marked m n r now row)
unfolding find_exact_match search_payments selects is_exact_match exact_match_filters
find_exact_match-set_fulfilled t m n r now cs row h =
    let g = marked m n r now in
    let f = exact_match_filters t in
    let page : search_payments f (set_fulfilled m n r now cs) ≡ map g (search_payments f cs) =
      ap (search_payments f) (set_fulfilled-map m n r now cs)
      ∙ ap (λ xs. take (effective_limit f.limit) (newest_first xs))
          (keep-map g (selects f) (marked-keeps (selects f) m n r now (λ c. refl)) cs)
      ∙ ap (take (effective_limit f.limit)) (
          newest_first-map g (marked-keeps (λ c. c.created_at) m n r now (λ c. refl))
            (keep (selects f) cs))
      ∙ take-map g (effective_limit f.limit) (newest_first (keep (selects f) cs)) in
    ap (find (is_exact_match t)) page
    ∙ find-map g (is_exact_match t) (marked-keeps (is_exact_match t) m n r now (λ c. refl))
        (search_payments f cs) row h
