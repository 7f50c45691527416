-- ===== src/Utils/Failed.antt =====
-- The status of a failure's response.
use rond.Prelude.{
  ℕ, String, ◌≡◌, ◌≢◌, ◌∙◌, none, some, Result, ok, err, panic, refl, sym, ap, some-injective,
}
use rond.Prelude.Json.{Marshal}
use rond.Http.Header.{set}
use rond.Http.Writer.{Writer, write_header, write}
use rond.Utils.{
  fail_response_with_code, write_encoded, request_error_json, content_type_header_key,
  json_content_type_header,
}

-- A failure is answered with its code.
pub status-fail_response_with_code :
    (marshal : Marshal) (w : Writer) (code : ℕ) (technical business : String)
    → w.status ≡ none
    → (fail_response_with_code marshal w code technical business).status ≡ some code
unfolding fail_response_with_code write_header write
status-fail_response_with_code marshal w code technical business n =
    by_encoded (marshal (request_error_json technical business code))
  where
    headed : Writer
    headed =
        write_header
          (record w { header = set w.header content_type_header_key json_content_type_header }) code

    by_encoded : (m : Result String) → (write_encoded headed m).status ≡ some code
    by_encoded (ok content) = rw n refl
    by_encoded (err e) = rw n refl
    by_encoded panic = rw n refl

abbrev pub Succeeds : Writer → Type 0
Succeeds w = w.status ≡ some 200

pub not_failure :
    (marshal : Marshal) (w w₁ : Writer) (code : ℕ) (technical business : String)
    → w.status ≡ none
    → code ≢ 200
    → fail_response_with_code marshal w code technical business ≡ w₁
    → Succeeds w₁
    → ⊥
not_failure marshal w w₁ code technical business n differs same s = differs (
    some-injective (
      sym (status-fail_response_with_code marshal w code technical business n)
      ∙ ap (λ x. x.status) same
      ∙ s))
