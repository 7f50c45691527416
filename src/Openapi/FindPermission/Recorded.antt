-- ===== src/Openapi/FindPermission/Recorded.antt =====
-- What `FindPermission` of openapi/openapi_utils.go finds.
use rond.Prelude.Map.{lookup}
use rond.Prelude.{
  ◌⊎◌, ◌↔◌, inl, inr, Bool-cases, Option-cases, String, Bool, true, false, List, none, some, Result,
  ok, panic, ◌≡◌, ◌≢◌, refl, sym, ap, ◌∙◌, eqb, [], elem,
}
use rond.Prelude.Text.{format_bool, upper_char, lower_char}
use rond.Http.Header.{canonical, canonical_from, canonical_char, all_tokens, get, get-set}
use rond.Openapi.{RondConfig, OpenApiSpec}
use rond.Openapi.Routes.{Registration, prepare_oas_router}
use rond.Openapi.Routing.{Origin, prepare_oas_router_iff}
use rond.Openapi.FindPermission.{
  Bunrouter, Answer, handled, answered, permission_header, oas_handler, parse_bool, read_permission,
  find_permission, answer_permission, Found,
}

parse_bool-format_bool : (b : Bool) → parse_bool (format_bool b) ≡ some b
unfolding parse_bool elem
parse_bool-format_bool true = refl
parse_bool-format_bool false = refl

ruleset reads = (get-set, parse_bool-format_bool)

-- What is written is what is read.
read_permission_lem : (p : RondConfig) → read_permission (permission_header p []) ≡ (p, none)
unfolding read_permission permission_header canonical canonical_from canonical_char all_tokens
    upper_char lower_char
read_permission_lem p = simp reads

empty_not_a_bool : (p : RondConfig) → read_permission [] ≢ (p, none)
unfolding read_permission get lookup parse_bool elem
empty_not_a_bool p e = cc (ap (λ (f : Found). f.1) e)

abbrev value_or : Found → Result Found → Found
value_or d (ok x) = x
value_or d (Result.err e) = d
value_or d panic = d

module _ (method path : String) where
  handled-eq-ok :
      (r : Registration) (p : RondConfig)
      → answer_permission (handled r) method path ≡ ok (p, none)
      → r.config.permission_v2 ≡ some p
  unfolding oas_handler
  handled-eq-ok r p h = elim (Option-cases r.config.permission_v2) [
    | inl e ↦ cc (rw (e, oas_handler) at h)
    | inr (q, e) ↦
        let same : ok (read_permission (permission_header q [])) ≡ ok (p, none) =
          rw (e, oas_handler) at h in
        e
        ∙ ap (λ (x : Result Found). some (value_or (q, none) x).0)
            (ap ok (sym (read_permission_lem q)) ∙ same)
  ]

  answer-eq-ok :
      (a : Answer) (p : RondConfig)
      → answer_permission a method path ≡ ok (p, none)
      → (r : Registration) × (a ≡ handled r) × (r.config.permission_v2 ≡ some p)
  answer-eq-ok (handled r) p h = (r, refl, handled-eq-ok r p h)
  answer-eq-ok (answered code) p h = elim (Bool-cases (eqb code 200)) [
    | inl e ↦ absurd (empty_not_a_bool p (ap (value_or (p, none)) (rw e at h)))
    | inr e ↦ cc (ap (λ x. (value_or (p, none) x).1) (rw e at h))
  ]

  answer-eq-panic :
      (a : Answer)
      → answer_permission a method path ≡ panic
      → (r : Registration) × (a ≡ handled r) × (r.config.permission_v2 ≡ none)
  unfolding oas_handler
  answer-eq-panic (handled r) h = elim (Option-cases r.config.permission_v2) [
    | inl e ↦ (r, refl, e)
    | inr (q, e) ↦ cc (rw (e, oas_handler) at h)
  ]
  answer-eq-panic (answered code) h = elim (Bool-cases (eqb code 200)) [
    | inl e ↦ cc (rw e at h)
    | inr e ↦ cc (rw e at h)
  ]

module _ (router : Bunrouter) (registrations : List Registration) (path method : String) where
  -- Where the router calls the handler of a configuration, `FindPermission` gives back this
  -- configuration, with each of its fields, and no error.
  pub find_permission-handled :
      (r : Registration) (p : RondConfig)
      → router.parses method path ≡ true
      → router.serve registrations method path ≡ handled r
      → r.config.permission_v2 ≡ some p
      → find_permission router registrations path method ≡ ok (p, none)
  unfolding find_permission oas_handler
  find_permission-handled r p parsed served e = rw (parsed, served, e, read_permission_lem p)

  -- It panics exactly if the request does not parse, or if the configuration that answers it has
  -- no x-rond.
  pub find_permission-panic_iff : (find_permission router registrations path method ≡ panic) ↔ (
      (router.parses method path ≡ false)
      ⊎ ((r : Registration) × (router.parses method path ≡ true)
          × (router.serve registrations method path ≡ handled r)
          × (r.config.permission_v2 ≡ none)))
  unfolding find_permission oas_handler
  find_permission-panic_iff = (
    λ h. elim (Bool-cases (router.parses method path)) [
      | inl e ↦
          let (r, served, none_there) =
            answer-eq-panic method path (router.serve registrations method path) (rw e at h) in
          inr (r, e, served, none_there)
      | inr e ↦ inl e
    ],
    λ h. elim h [ inl e ↦ rw e | inr x ↦ rw (x.1, x.2, x.3) ],
  )

-- A permission that `FindPermission` gives without an error is one of the specification: it is the
-- x-rond of a verb that accounts for the method on the route that the router has picked.
pub find_permission_sound :
    (router : Bunrouter) (oas : OpenApiSpec) (path method : String) (p : RondConfig)
    → find_permission router (prepare_oas_router oas) path method ≡ ok (p, none)
    → (r : Registration) × (router.serve (prepare_oas_router oas) method path ≡ handled r)
      × (r.method ≡ method)
      × (r.config.permission_v2 ≡ some p)
      × Origin oas r
unfolding find_permission
find_permission_sound router oas path method p h = elim (Bool-cases (router.parses method path)) [
  | inl e ↦
      let (r, served, there) =
        answer-eq-ok method path (router.serve (prepare_oas_router oas) method path) p
          (rw e at h) in
      let (registered, same) =
        router.serve-registered (prepare_oas_router oas) method path r served in
      (r, served, same, there, (prepare_oas_router_iff oas r).0 registered)
  | inr e ↦ cc (rw e at h)
]
