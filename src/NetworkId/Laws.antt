-- ===== src/NetworkId/Laws.antt =====
-- `normalizeNetworkId` is idempotent.
use xcf_concordium_facilitat.Base.{
  ℕ, ◌≡◌, ◌≢◌, refl, ◌∙◌, inl, inr, some, List, [], ◌∷◌, ◌++◌, arith, if◌then◌else◌, is_empty,
  get_elem?, All, Bool-cases, Option-cases, Text, text_eq, trim, is_space, trim_start, trim_end,
  lower, starts_with, split,
}
use mathlib.Core.Option.{some-injective}
use xcf_concordium_facilitat.Base.Trim.{
  Avoids, trim_idempotent, trim-append, trim-Avoids, split-Avoids, split_of_Avoids,
}
use xcf_concordium_facilitat.NetworkId.{
  testnet, mainnet, ccd_prefix, hash_part, normalize_trimmed, normalize_network_id,
}

second-Avoids :
    (sep : ℕ) (parts : List Text) (p : Text)
    → All (Avoids sep) parts
    → get_elem? parts 1 ≡ some p
    → Avoids sep p
second-Avoids sep [] p h e = absurd (ground arith)
second-Avoids sep (q ∷ []) p h e = absurd (ground arith)
second-Avoids sep (q ∷ r ∷ parts) p (_, (h, _)) e = rw (some-injective r p e) at h

-- The hash is trimmed and holds no colon.
hash_part_facts : (s : Text) → (trim (hash_part s) ≡ hash_part s) × Avoids b':' (hash_part s)
unfolding hash_part
hash_part_facts s = elim (Option-cases (get_elem? (split b':' s) 1)) [
  | inl missing ↦ rw (missing, hash_part) (unfold trim trim_start trim_end in refl, tt)
  | inr (p, found) ↦
      rw (found, hash_part)
        (
          trim_idempotent p,
          trim-Avoids b':' p (second-Avoids b':' (split b':' s) p (split-Avoids b':' s) found),
        )
]

hash_part-ccd : (h : Text) → trim h ≡ h → Avoids b':' h → hash_part (ccd_prefix ++ h) ≡ h
unfolding hash_part ccd_prefix split
hash_part-ccd h trimmed avoids = rw (split_of_Avoids b':' h avoids) trimmed

-- A canonical "ccd:" name is its own normal form.
pub normalize_trimmed-ccd :
    (h : Text) → trim h ≡ h → Avoids b':' h → normalize_trimmed (ccd_prefix ++ h) ≡ ccd_prefix ++ h
normalize_trimmed-ccd h trimmed avoids = go h (hash_part-ccd h trimmed avoids)
  where
    go :
        (h : Text)
        → hash_part (ccd_prefix ++ h) ≡ h
        → normalize_trimmed (ccd_prefix ++ h) ≡ ccd_prefix ++ h
    go [] e = unfold normalize_trimmed ccd_prefix testnet mainnet text_eq lower starts_with in rw e
    go (c ∷ h) e =
        unfold normalize_trimmed ccd_prefix testnet mainnet text_eq lower starts_with in rw e

normalize_of_trimmed :
    (s : Text) → trim s ≡ s → s ≢ [] → normalize_network_id s ≡ normalize_trimmed s
unfolding normalize_network_id
normalize_of_trimmed s trimmed solid = rw trimmed (go s solid)
  where
    go : (s : Text) → s ≢ [] → (if is_empty s then s else normalize_trimmed s) ≡ normalize_trimmed s
    go [] solid = absurd (solid refl)
    go (c ∷ s) solid = refl

normalize_network_id-ccd :
    (h : Text)
    → trim h ≡ h
    → Avoids b':' h
    → normalize_network_id (ccd_prefix ++ h) ≡ ccd_prefix ++ h
normalize_network_id-ccd h trimmed avoids =
    normalize_of_trimmed (ccd_prefix ++ h) (go h trimmed) (unfold ccd_prefix in λ e. cc)
    ∙ normalize_trimmed-ccd h trimmed avoids
  where
    go : (h : Text) → trim h ≡ h → trim (ccd_prefix ++ h) ≡ ccd_prefix ++ h
    go [] e = unfold ccd_prefix trim in refl
    go (c ∷ h) e =
        unfold ccd_prefix in
        trim-append b'c' (b'c' ∷ b'd' ∷ b':' ∷ []) (c ∷ h) (unfold is_space in refl) (λ p. cc) e

pub normalize-testnet : normalize_network_id testnet ≡ testnet
unfolding normalize_network_id normalize_trimmed testnet trim lower text_eq
normalize-testnet = refl

pub normalize-mainnet : normalize_network_id mainnet ≡ mainnet
unfolding normalize_network_id normalize_trimmed testnet mainnet trim lower text_eq
normalize-mainnet = refl

ccd_branch :
    (h : Text)
    → trim h ≡ h
    → Avoids b':' h
    → normalize_network_id (if is_empty h then ccd_prefix else ccd_prefix ++ h)
      ≡ (if is_empty h then ccd_prefix else ccd_prefix ++ h)
unfolding ccd_prefix
ccd_branch [] trimmed avoids = normalize_network_id-ccd [] trimmed avoids
ccd_branch (c ∷ h) trimmed avoids = normalize_network_id-ccd (c ∷ h) trimmed avoids

-- The result for a trimmed name normalizes to itself.
normalize_trimmed-normal :
    (s : Text)
    → trim s ≡ s
    → s ≢ []
    → normalize_network_id (normalize_trimmed s) ≡ normalize_trimmed s
unfolding normalize_trimmed
normalize_trimmed-normal s trimmed solid = elim (Bool-cases (text_eq (lower s) testnet)) [
  | inl t ↦ rw t normalize-testnet
  | inr t' ↦ elim (Bool-cases (text_eq (lower s) mainnet)) [
    | inl m ↦ rw (t', m) normalize-mainnet
    | inr m' ↦ elim (Bool-cases (starts_with ccd_prefix (lower s))) [
      | inl c ↦
          let (trimmed', avoids) = hash_part_facts s in
          rw (t', m', c) (ccd_branch (hash_part s) trimmed' avoids)
      | inr c' ↦ rw (t', m', c') (normalize_of_trimmed s trimmed solid ∙ rw (t', m', c'))
    ]
  ]
]

-- Normalizing a network name a second time changes nothing.
pub normalize_network_id_idempotent :
    (raw : Text) → normalize_network_id (normalize_network_id raw) ≡ normalize_network_id raw
unfolding normalize_network_id
normalize_network_id_idempotent raw = go (trim raw) (trim_idempotent raw)
  where
    go :
        (s : Text)
        → trim s ≡ s
        → normalize_network_id (if is_empty s then s else normalize_trimmed s)
          ≡ (if is_empty s then s else normalize_trimmed s)
    go [] e = rw e
    go (c ∷ s) e = normalize_trimmed-normal (c ∷ s) e (λ p. cc)
