-- ===== src/Service/Standalone/Succeeded.antt =====
-- What a response with the status 200 of a handler of service/standalone_apis.go says of its steps.
use rond.Prelude.{
  ℕ, String, none, Result, ok, err, panic, GoError, ◌≡◌, ◌≢◌, inl, inr, refl, sym, ap, ◌∙◌,
  Result-cases, arith, some-injective,
}
use rond.Prelude.Json.{Json}
use rond.Http.Writer.{Writer, write, or_status}
use rond.Utils.{fail_response_with_code, generic_business_error_message}
use rond.Utils.Failed.{Succeeds, not_failure, status-fail_response_with_code}
use rond.Service.Standalone.Requests.{Services, StandaloneRequest, Served, attempt}
use rond.Service.Standalone.{failed, respond}

writer_or : {W : Type 0} → Writer → Result Writer × W → Writer
writer_or w (ok w₁, world) = w₁
writer_or w (err e, world) = w
writer_or w (panic, world) = w

module _ {W : Type 0} (d : Services W) (r : StandaloneRequest) (w : Writer)
    (untouched : w.status ≡ none) where
  pub failed-Succeeds :
      (code : ℕ) (technical : String) (world after : W) (w₁ : Writer)
      → code ≢ 200
      → failed d r w code technical world ≡ (ok w₁, after)
      → Succeeds w₁
      → ⊥
  unfolding failed writer_or
  failed-Succeeds code technical world after w₁ n h s =
      not_failure d.marshal w w₁ code technical generic_business_error_message untouched n
        (ap (writer_or w) h) s

  -- A step behind which the answer is 200 has succeeded.
  pub attempt-Succeeds :
      {A : Type 0} (m : Result A × W) (technical : GoError → String) (next : A → Served W)
      (after : W) (w₁ : Writer)
      → attempt m (λ e. failed d r w 500 (technical e)) next ≡ (ok w₁, after)
      → Succeeds w₁
      → (a : A) × (world : W) × (m ≡ (ok a, world)) × (next a world ≡ (ok w₁, after))
  attempt-Succeeds (ok a, world) technical next after w₁ h s = (a, world, refl, h)
  attempt-Succeeds (err e, world) technical next after w₁ h s =
      absurd (failed-Succeeds 500 (technical e) world after w₁ (λ x. omega (arith, x)) h s)
  attempt-Succeeds (panic, world) technical next after w₁ h s = cc

  -- The same for a step that leaves the world alone.
  pub attempt-encoded :
      {A : Type 0} (m : Result A) (world : W) (technical : GoError → String) (next : A → Served W)
      (after : W) (w₁ : Writer)
      → attempt (m, world) (λ e. failed d r w 500 (technical e)) next ≡ (ok w₁, after)
      → Succeeds w₁
      → (a : A) × (m ≡ ok a) × (next a world ≡ (ok w₁, after))
  attempt-encoded (ok a) world technical next after w₁ h s = (a, refl, h)
  attempt-encoded (err e) world technical next after w₁ h s =
      absurd (failed-Succeeds 500 (technical e) world after w₁ (λ x. omega (arith, x)) h s)
  attempt-encoded panic world technical next after w₁ h s = cc

  module _ (w₁ : Writer) (succeeds : Succeeds w₁) where
    -- A body that cannot be encoded is answered 500, though something is written behind it.
    pub respond-Succeeds :
        (failure : String) (body : Json) (world after : W)
        → respond d r w failure body world ≡ (ok w₁, after)
        → (text : String) × (d.marshal body ≡ ok text) × (w₁ ≡ write w text) × (after ≡ world)
    unfolding respond writer_or write
    respond-Succeeds failure body world after h = elim (Result-cases (d.marshal body)) [
      | inl (text, e) ↦
          let k = rw (e, respond) at h in (text, e, sym (ap (writer_or w) k), sym (ap (λ p. p.1) k))
      | inr (inl (x, e)) ↦ absurd (failed_then_written (ap (writer_or w) (rw (e, respond) at h)))
      | inr (inr e) ↦ let k = rw (e, respond) at h in cc
    ]
      where
        failed_then_written :
            write
                (fail_response_with_code d.marshal w 500 failure generic_business_error_message)
                ""
              ≡ w₁
            → ⊥
        failed_then_written q =
            let k =
              sym (
                ap (λ o. or_status o 200)
                  (status-fail_response_with_code d.marshal w 500 failure
                    generic_business_error_message untouched))
              ∙ ap (λ x. x.status) q
              ∙ succeeds in
            omega (arith, some-injective k)
