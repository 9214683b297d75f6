-- ===== src/Webhook/Delivery.antt =====
-- When a webhook counts as delivered.
use mathlib.Core.Option.{some-injective}
use mathlib.Core.Path.{subst}
use xcf_concordium_facilitat.Base.{
  ℕ, ◌≤◌, ◌<◌, ◌≡◌, ◌↔◌, refl, sym, ◌∙◌, true, none, some, arith, Text, Option-cases, inl, inr,
  Runtime,
}
use xcf_concordium_facilitat.Store.{Challenge}
use xcf_concordium_facilitat.Webhook.{
  Environment, Exchange, response, failed, timed_out, result_of, get_webhook_url_for_merchant,
  post_payment_webhook,
}

-- The exchange ended in a response with a 2xx status.
pub record IsAccepted (e : Exchange) : Type 0 where
  pub code : ℕ
  pub answered : e ≡ response (some code)
  pub success : (200 ≤ code) × (code < 300)

result_of-ok_sound : (e : Exchange) → (result_of e).ok ≡ true → IsAccepted e
unfolding result_of
result_of-ok_sound (response none) h = cc
result_of-ok_sound (response (some n)) h = record {
  code = n;
  answered = refl;
  success = ground arith;
}
result_of-ok_sound (failed m) h = cc
result_of-ok_sound timed_out h = cc

result_of-ok_complete : (e : Exchange) → IsAccepted e → (result_of e).ok ≡ true
unfolding result_of
result_of-ok_complete e a = rw a.answered (let (lo, hi) = a.success in ground arith)

-- The result is `ok` exactly when the merchant has a URL and the exchange with it ended in a
-- response with a 2xx status.
pub post_payment_webhook-ok_iff :
    (rt : Runtime) (env : Environment) (send : Text → Challenge → Exchange) (merchant_id : Text)
    (payment : Challenge)
    → ((post_payment_webhook rt env send merchant_id payment).ok ≡ true) ↔ (
        (url : Text) × (get_webhook_url_for_merchant rt env merchant_id ≡ some url)
        × IsAccepted (send url payment))
unfolding post_payment_webhook
post_payment_webhook-ok_iff rt env send merchant_id payment =
    elim (Option-cases (get_webhook_url_for_merchant rt env merchant_id)) [
      | inl missing ↦ (
        λ h. cc (rw (missing, post_payment_webhook) at h),
        λ (url, found, accepted). cc (sym missing ∙ found),
      )
      | inr (url, found) ↦ (
        λ h. (
          url,
          found,
          result_of-ok_sound (send url payment) (rw (found, post_payment_webhook) at h),
        ),
        λ (u, same, accepted).
            rw (found, post_payment_webhook)
              (result_of-ok_complete (send url payment) (
                subst (λ x. IsAccepted (send x payment)) (some-injective u url (sym same ∙ found))
                  accepted)),
      )
    ]
