-- ===== src/Webhook/Keys.antt =====
-- Which merchants share a webhook variable.
use xcf_concordium_facilitat.Base.{
  ℕ, ◌<◌, ◌≡◌, refl, sym, ap, ◌∙◌, Bool, true, false, ◌∷◌, [], ◌++◌, arith, leb, Text, append_assoc,
  Runtime,
}
use xcf_concordium_facilitat.Webhook.{
  Environment, is_key_unit, upper_unit, upper, collapse, merchant_id_to_env_key,
  get_webhook_url_for_merchant,
}

-- An ASCII code unit that is no letter and no digit.
pub record IsSeparator (c : ℕ) : Type 0 where
  pub ascii : c < 128
  pub no_key_unit : is_key_unit c ≡ false
  pub no_small_letter : (leb b'a' c ≡ true) → (leb c b'z' ≡ true) → ⊥

upper-append : (rt : Runtime) (s t : Text) → upper rt (s ++ t) ≡ upper rt s ++ upper rt t
unfolding upper
upper-append rt [] t = refl
upper-append rt (c ∷ s) t =
    ap (λ u. upper_unit rt c ++ u) (upper-append rt s t)
    ∙ sym (append_assoc (upper_unit rt c) (upper rt s) (upper rt t))

upper_unit-separator : (rt : Runtime) (c : ℕ) → IsSeparator c → upper_unit rt c ≡ c ∷ []
unfolding upper_unit
upper_unit-separator rt c h = ground (arith, h.no_small_letter)

-- One separator is as good as another.
collapse-separators :
    (in_run : Bool) (s t : Text) (c d : ℕ)
    → is_key_unit c ≡ false
    → is_key_unit d ≡ false
    → collapse in_run (s ++ c ∷ t) ≡ collapse in_run (s ++ d ∷ t)
unfolding collapse
collapse-separators in_run [] t c d h k = rw (h, k)
collapse-separators in_run (x ∷ s) t c d h k =
    rw (collapse-separators true s t c d h k, collapse-separators false s t c d h k)

upper-separator :
    (rt : Runtime) (s t : Text) (c : ℕ)
    → IsSeparator c
    → upper rt (s ++ c ∷ t) ≡ upper rt s ++ c ∷ upper rt t
upper-separator rt s t c h =
    upper-append rt s (c ∷ t)
    ∙ ap (λ u. upper rt s ++ u) (unfold upper in rw (upper_unit-separator rt c h))

-- Two merchants whose ids differ only in one ASCII code unit, which is neither a letter nor a digit in
-- either, share one environment variable, so a payment of either is posted to the same URL.
pub webhook_url_shared :
    (rt : Runtime) (env : Environment) (s t : Text) (c d : ℕ)
    → IsSeparator c
    → IsSeparator d
    → get_webhook_url_for_merchant rt env (s ++ c ∷ t)
      ≡ get_webhook_url_for_merchant rt env (s ++ d ∷ t)
unfolding get_webhook_url_for_merchant merchant_id_to_env_key
webhook_url_shared rt env s t c d h k = rw (
  upper-separator rt s t c h,
  upper-separator rt s t d k,
  collapse-separators false (upper rt s) (upper rt t) c d h.no_key_unit k.no_key_unit,
)
