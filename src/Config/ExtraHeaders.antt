-- ===== src/Config/ExtraHeaders.antt =====
-- `GetAdditionalHeadersToProxy` of internal/config/env.go.
use rond.Prelude.{
  String, ◌||◌, List, [], ◌∷◌, ◌++◌, ◌≡◌, ◌≢◌, refl, arith, elem, ◌==◌, elem-nil, elem-cons,
  elem-append, IsDistinct, IsDistinct-concat, Bool-cases, inl, inr, eq_iff,
}
use rond.Prelude.Text.{split}
use rond.Config.{
  EnvironmentVariables, is_duplicate, append_extra, extra_headers_keys,
  get_additional_headers_to_proxy,
}

elem-append_extra :
    (x : String) (custom extra : List String)
    → elem x (append_extra custom extra) ≡ (elem x custom || elem x extra)
unfolding append_extra is_duplicate
elem-append_extra x custom [] = unfold elem in ground arith
elem-append_extra x custom (e ∷ extra) = elim (Bool-cases (elem e custom)) [
  | inl h ↦ rw h (rw (elem-append_extra x custom extra, elem-cons) (ground (arith, eq_iff e x)))
  | inr h ↦ rw h (
      rw (elem-append_extra x (custom ++ e ∷ []) extra, elem-append, elem-cons, elem-cons, elem-nil)
        (ground arith))
]

append_extra-IsDistinct :
    (custom extra : List String) → IsDistinct custom → IsDistinct (append_extra custom extra)
unfolding append_extra is_duplicate
append_extra-IsDistinct custom [] d = d
append_extra-IsDistinct custom (e ∷ extra) d = elim (Bool-cases (elem e custom)) [
  | inl h ↦ rw h (append_extra-IsDistinct custom extra d)
  | inr h ↦ rw h (append_extra-IsDistinct (custom ++ e ∷ []) extra (IsDistinct-concat custom e d h))
]

-- With a variable that is set, the headers to proxy are exactly those it names and the four of the
-- program.
pub get_additional_headers_to_proxy_lem :
    (env : EnvironmentVariables) (x : String)
    → env.additional_headers_to_proxy ≢ ""
    → elem x (get_additional_headers_to_proxy env)
      ≡ (elem x (split b',' env.additional_headers_to_proxy) || elem x extra_headers_keys)
unfolding get_additional_headers_to_proxy
get_additional_headers_to_proxy_lem env x h =
    elim (Bool-cases (env.additional_headers_to_proxy == "")) [
      | inl e ↦ absurd (h ((eq_iff _ _).0 e))
      | inr e ↦ rw e (elem-append_extra x _ extra_headers_keys)
    ]

-- If the variable names no header twice, no header is proxied twice.
pub get_additional_headers_to_proxy-IsDistinct :
    (env : EnvironmentVariables)
    → IsDistinct (split b',' env.additional_headers_to_proxy)
    → IsDistinct (get_additional_headers_to_proxy env)
unfolding get_additional_headers_to_proxy elem
get_additional_headers_to_proxy-IsDistinct env d =
    elim (Bool-cases (env.additional_headers_to_proxy == "")) [
      | inl e ↦ rw e (refl, (refl, (refl, (refl, tt))))
      | inr e ↦ rw e (append_extra-IsDistinct _ extra_headers_keys d)
    ]
