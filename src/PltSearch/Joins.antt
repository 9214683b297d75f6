-- ===== src/PltSearch/Joins.antt =====
-- Which transfers GET /v1/crp/plt/search returns.
use mathlib.Core.Path.{subst}
use xcf_concordium_facilitat.Base.{
  ◌≤◌, ◌≡◌, ◌⊎◌, sym, ap, Bool, true, false, ◌&&◌, ◌||◌, ◌++◌, Option, none, some, List, [], ◌∷◌,
  arith, inl, inr, Bool-cases, keep, length, In, In-keep, In-take, length-take, codes, ℤ, Value,
  Runtime, get,
}
use xcf_concordium_facilitat.Base.Js.{pos, negsuc}
use xcf_concordium_facilitat.Base.Sorting.{
  sort_by, In-sort_by, IsSorted, IsOrder, sort_by-IsSorted, take-IsSorted,
}
use xcf_concordium_facilitat.Store.{PltEvent, PltAsset}
use xcf_concordium_facilitat.PltSearch.Transfers.{
  TransferFilter, read_transfer_filter, transfer_limit, floor_given, Joined, is_asset_of,
  joined_with, join_assets, passes_filters, selects_transfer, occurred_later, search_transfers,
}

In-append : {A : Type 0} (x : A) (xs ys : List A) → In x (xs ++ ys) → In x xs ⊎ In x ys
In-append x [] ys h = inr h
In-append x (y ∷ xs) ys (inl e) = inl (inl e)
In-append x (y ∷ xs) ys (inr later) = elim (In-append x xs ys later) [
  | inl left ↦ inl (inr left)
  | inr right ↦ inr right
]

-- A row of the join: an event of its table with a registered asset
pub record IsJoined (events : List PltEvent) (assets : List PltAsset) (j : Joined) : Type 0 where
  pub event : In j.event events
  pub asset : In j.asset assets
  pub of_asset : is_asset_of j.event j.asset ≡ true

joined_with-IsJoined :
    (e : PltEvent) (assets : List PltAsset) (j : Joined)
    → In j (joined_with e assets)
    → (j.event ≡ e) × In j.asset assets × (is_asset_of j.event j.asset ≡ true)
unfolding joined_with
joined_with-IsJoined e [] j h = absurd h
joined_with-IsJoined e (a ∷ rest) j h = elim (Bool-cases (is_asset_of e a)) [
  | inr no_a ↦
      let (same, there, test) = joined_with-IsJoined e rest j (rw (no_a, joined_with) at h) in
      (same, inr there, test)
  | inl yes_a ↦ first yes_a (joined_with-IsJoined e rest j) (rw (yes_a, joined_with) at h)
]
  where
    Found : List PltAsset → Type 0
    Found as' = (j.event ≡ e) × In j.asset as' × (is_asset_of j.event j.asset ≡ true)

    first :
        is_asset_of e a ≡ true
        → (In j (joined_with e rest) → Found rest)
        → (j ≡ record { event = e; asset = a }) ⊎ In j (joined_with e rest)
        → Found (a ∷ rest)
    first yes_a more (inl same) = (
      ap (λ x. x.event) same,
      inl (ap (λ x. x.asset) same),
      subst (λ (x : Joined). is_asset_of x.event x.asset ≡ true) (sym same) yes_a,
    )
    first yes_a more (inr later) = let (same, there, test) = more later in (same, inr there, test)

join_assets-IsJoined :
    (events : List PltEvent) (assets : List PltAsset) (j : Joined)
    → In j (join_assets events assets)
    → IsJoined events assets j
unfolding join_assets
join_assets-IsJoined [] assets j h = absurd h
join_assets-IsJoined (e ∷ es) assets j h =
    elim (In-append j (joined_with e assets) (join_assets es assets) h) [
      | inl now ↦
          let (same, there, test) = joined_with-IsJoined e assets j now in
          record { event = inl same; asset = there; of_asset = test }
      | inr later ↦
          let k = join_assets-IsJoined es assets j later in
          record { event = inr k.event; asset = k.asset; of_asset = k.of_asset }
    ]

transfer_limit_bound : (z : Option ℤ) → transfer_limit z ≤ 100
transfer_limit_bound none = omega arith
transfer_limit_bound (some (negsuc n)) = omega arith
transfer_limit_bound (some (pos n)) = ground arith

occurred_later-IsOrder : IsOrder occurred_later
unfolding occurred_later
occurred_later-IsOrder = record { total = λ a b h. ground arith; trans = λ a b c h k. ground arith }

limit_bound : (rt : Runtime) (q : Value) → (read_transfer_filter rt q).limit ≤ 100
unfolding read_transfer_filter
limit_bound rt q = transfer_limit_bound (floor_given (get q (codes "limit")))

-- A transfer that the route may show
pub record IsShown (f : TransferFilter) (events : List PltEvent) (assets : List PltAsset)
    (j : Joined) : Type 0 where
  pub joined : IsJoined events assets j
  pub selected : selects_transfer f j ≡ true
  pub enabled : f.include_disabled ≡ false → j.asset.enabled ≡ true

last_conjunct : (a f g : Bool) → (a && (f || g)) ≡ true → f ≡ false → g ≡ true
last_conjunct a f g h k = ground arith

selects_transfer-enabled :
    (f : TransferFilter) (j : Joined)
    → selects_transfer f j ≡ true
    → f.include_disabled ≡ false
    → j.asset.enabled ≡ true
unfolding selects_transfer
selects_transfer-enabled f j h k =
    last_conjunct (passes_filters f j) f.include_disabled j.asset.enabled h k

-- The search for transfers shows at most 100 rows, the latest first; each is an event of the table
-- with the registered asset of its token, network and genesis index, passes the filters of the query,
-- and is of an enabled asset unless the query asks for the disabled ones too.
pub search_transfers-IsShown :
    (rt : Runtime) (q : Value) (events : List PltEvent) (assets : List PltAsset)
    → (length (search_transfers rt q events assets) ≤ 100)
      × IsSorted occurred_later (search_transfers rt q events assets)
      × ((j : Joined)
          → In j (search_transfers rt q events assets)
          → IsShown (read_transfer_filter rt q) events assets j)
unfolding search_transfers
search_transfers-IsShown rt q events assets =
    let f = read_transfer_filter rt q in
    let chosen = keep (selects_transfer f) (join_assets events assets) in
    (
      (let j = limit_bound rt q in
          let k = length-take f.limit (sort_by occurred_later chosen) in omega arith),
      take-IsSorted occurred_later f.limit (sort_by occurred_later chosen)
          (sort_by-IsSorted occurred_later occurred_later-IsOrder chosen),
      λ j there.
          let (test, row) = In-keep (selects_transfer f) (join_assets events assets) j (
            In-sort_by occurred_later j chosen
              (In-take f.limit (sort_by occurred_later chosen) j there)) in
          record {
            joined = join_assets-IsJoined events assets j row;
            selected = test;
            enabled = selects_transfer-enabled f j test;
          },
    )
