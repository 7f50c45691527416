-- ===== src/Openapi/Routing.antt =====
-- Which handlers `PrepareOASRouter` registers, stated over the specification.
use rond.Prelude.{
  String, Bool, true, false, List, [], ◌∷◌, ◌==◌, ◌≡◌, refl, ap, sym, ◌∙◌, ◌⊎◌, ◌↔◌, inl, inr,
  arith, eq_iff, Memᴰ, Memᴰ-append, Memᴰ-append_left, Memᴰ-append_right, eq_refl, Bool-cases, elem,
  elem-cons, elem-nil,
}
use mathlib.Core.Path.{subst}
use rond.Prelude.Text.{to_upper}
use rond.Openapi.{
  VerbConfig, PathVerbs, OpenApiPaths, OpenApiSpec, all_http_method, oas_supported_http_methods,
}
use rond.Openapi.PathVariables.{clean_wildcard, convert_path_variables_to_colons}
use rond.Openapi.Routes.Listed.{Configures, contains-Configures_iff}
use rond.Openapi.Routes.{
  RoutesMap, Registration, contains, create_routes_map, register_all, register_verb, register_verbs,
  register_paths, prepare_oas_router,
}

abbrev pub route_of : String → String
route_of path = convert_path_variables_to_colons (clean_wildcard path)

abbrev pub registration : String → String → VerbConfig → Registration
registration method path config = record { method = method; path = route_of path; config = config }

module _ (m : RoutesMap) (path : String) where
  -- A supported method that the routes do not list for the path, on the path, for the verb.
  abbrev pub IsFree : List String → VerbConfig → Registration → Type 0
  IsFree methods config r =
      (elem r.method methods ≡ true)
      × (contains m path r.method ≡ false)
      × (r ≡ registration r.method path config)

  register_all_sound :
      (config : VerbConfig) (methods : List String) {r : Registration}
      → Memᴰ r (register_all m path config methods)
      → IsFree methods config r
  unfolding register_all
  register_all_sound config [] n = elim n [ ]
  register_all_sound config (method ∷ methods) {r} n = elim (Bool-cases (contains m path method)) [
    | inl e ↦ later (register_all_sound config methods (rw e at n))
    | inr e ↦ here e (λ k. register_all_sound config methods k) (rw e at n)
  ]
    where
      later : IsFree methods config r → IsFree (method ∷ methods) config r
      later (a, b, c) = (rw (elem-cons, a) (ground arith), b, c)

      here :
          contains m path method ≡ false
          → (Memᴰ r (register_all m path config methods) → IsFree methods config r)
          → Memᴰ r (registration method path config ∷ register_all m path config methods)
          → IsFree (method ∷ methods) config r
      here e ih (Memᴰ.head q) =
          let same : r.method ≡ method = ap (λ r. r.method) q in
          (
            rw (elem-cons, same, eq_refl method) refl,
            rw same e,
            q ∙ ap (λ t. registration t path config) (sym same),
          )
      here e ih (Memᴰ.tail k) = later (ih k)

  register_all-complete :
      (config : VerbConfig) (methods : List String) (method : String)
      → elem method methods ≡ true
      → contains m path method ≡ false
      → Memᴰ (registration method path config) (register_all m path config methods)
  unfolding register_all
  register_all-complete config [] method at_method free = cc (elem-nil method)
  register_all-complete config (n ∷ methods) method at_method free =
      elim (Bool-cases (n == method)) [
        | inl e ↦ let same : n ≡ method = (eq_iff n method).0 e in rw (same, free) (Memᴰ.head refl)
        | inr e ↦
            let rest : elem method methods ≡ true = rw (elem-cons, e) at at_method in
            let found = register_all-complete config methods method rest free in
            elim (Bool-cases (contains m path n)) [
              | inl c ↦ rw c found
              | inr c ↦ rw c (Memᴰ.tail found)
            ]
      ]

  -- What one verb registers.
  abbrev pub Serves : String → VerbConfig → Registration → Type 0
  Serves verb config r =
      ((r ≡ registration (to_upper verb) path config)
        × ((to_upper verb == to_upper all_http_method) ≡ false))
      ⊎ (((to_upper verb == to_upper all_http_method) ≡ true)
          × IsFree oas_supported_http_methods config r)

  register_verb_sound :
      (verb : String) (config : VerbConfig) {r : Registration}
      → Memᴰ r (register_verb m path verb config)
      → Serves verb config r
  unfolding register_verb
  register_verb_sound verb config {r} n =
      elim (Bool-cases (to_upper verb == to_upper all_http_method)) [
        | inl e ↦ inr (e, register_all_sound config oas_supported_http_methods (rw e at n))
        | inr e ↦ inl (single (rw e at n), e)
      ]
    where
      single :
          Memᴰ r (registration (to_upper verb) path config ∷ [])
          → r ≡ registration (to_upper verb) path config
      single (Memᴰ.head q) = q
      single (Memᴰ.tail k) = elim k [ ]

  register_verb-complete :
      (verb : String) (config : VerbConfig) (r : Registration)
      → Serves verb config r
      → Memᴰ r (register_verb m path verb config)
  unfolding register_verb
  register_verb-complete verb config r (inl (q, e)) = rw e (Memᴰ.head q)
  register_verb-complete verb config r (inr (e, (a, b, q))) = rw e (
      subst (λ t. Memᴰ t (register_all m path config oas_supported_http_methods)) (sym q)
        (register_all-complete config oas_supported_http_methods r.method a b))

  register_verbs_sound :
      (verbs : PathVerbs) {r : Registration}
      → Memᴰ r (register_verbs m path verbs)
      → (verb : String) × (config : VerbConfig) × Memᴰ (verb, config) verbs × Serves verb config r
  unfolding register_verbs
  register_verbs_sound [] n = elim n [ ]
  register_verbs_sound ((verb, config) ∷ verbs) n =
      elim (Memᴰ-append (register_verb m path verb config) n) [
        | inl here ↦ (verb, config, Memᴰ.head refl, register_verb_sound verb config here)
        | inr later ↦
            let (v, c, listed, s) = register_verbs_sound verbs later in (v, c, Memᴰ.tail listed, s)
      ]

  register_verbs-complete :
      (verbs : PathVerbs) (verb : String) (config : VerbConfig) (r : Registration)
      → Memᴰ (verb, config) verbs
      → Serves verb config r
      → Memᴰ r (register_verbs m path verbs)
  unfolding register_verbs
  register_verbs-complete [] verb config r n s = elim n [ ]
  register_verbs-complete ((v, c) ∷ verbs) verb config r (Memᴰ.head q) s =
      Memᴰ-append_left {xs = register_verb m path v c} _
        (rw (← ap (λ p. p.0) q, ← ap (λ p. p.1) q) (register_verb-complete verb config r s))
  register_verbs-complete ((v, c) ∷ verbs) verb config r (Memᴰ.tail n) s =
      Memᴰ-append_right (register_verb m path v c) (register_verbs-complete verbs verb config r n s)

-- A handler for the verb of a path: of the verb's own method, in capitals, or, for the verb `all`,
-- of a supported method that the specification does not configure for the path.
abbrev pub Accounts : OpenApiSpec → String → String → VerbConfig → Registration → Type 0
Accounts oas path verb config r =
    ((r ≡ registration (to_upper verb) path config)
      × ((to_upper verb == to_upper all_http_method) ≡ false))
    ⊎ (((to_upper verb == to_upper all_http_method) ≡ true)
        × (elem r.method oas_supported_http_methods ≡ true)
        × (Configures oas path r.method → ⊥)
        × (r ≡ registration r.method path config))

Serves-Accounts_iff :
    (oas : OpenApiSpec) (path verb : String) (config : VerbConfig) (r : Registration)
    → Serves (create_routes_map oas) path verb config r ↔ Accounts oas path verb config r
Serves-Accounts_iff oas path verb config r =
    let (sound, complete) = contains-Configures_iff oas path r.method in
    (
      λ h. elim h [
        | inl k ↦ inl k
        | inr (e, (a, b, q)) ↦ inr (e, a, (λ c. let k = sym b ∙ complete c in cc), q)
      ],
      λ h. elim h [
        | inl k ↦ inl k
        | inr (e, a, b, q) ↦ inr (e, (a, not_true (λ c. b (sound c)), q))
      ],
    )
  where
    not_true : {t : Bool} → (t ≡ true → ⊥) → t ≡ false
    not_true {t = true} n = absurd (n refl)
    not_true {t = false} n = refl

-- Where a handler comes from: a verb of a path of the specification. It answers the verb's own
-- method, in capitals, or, for the verb `all`, a supported method that no verb of the specification
-- configures for the path; its route is the path with named wildcards and colons before the
-- variables.
pub record Origin (oas : OpenApiSpec) (r : Registration) : Type 0 where
  pub path : String
  pub verbs : PathVerbs
  pub verb : String
  pub config : VerbConfig
  pub listed : Memᴰ (path, verbs) oas.paths
  pub verb_listed : Memᴰ (verb, config) verbs
  pub serves : Accounts oas path verb config r

module _ (m : RoutesMap) (r : Registration) where
  register_paths-sound :
      (paths : OpenApiPaths)
      → Memᴰ r (register_paths m paths)
      → (path : String) × (verbs : PathVerbs) × Memᴰ (path, verbs) paths
        × Memᴰ r (register_verbs m path verbs)
  unfolding register_paths
  register_paths-sound [] n = elim n [ ]
  register_paths-sound ((path, verbs) ∷ paths) n =
      elim (Memᴰ-append (register_verbs m path verbs) n) [
        | inl here ↦ (path, verbs, Memᴰ.head refl, here)
        | inr later ↦
            let (p, v, listed, found) = register_paths-sound paths later in
            (p, v, Memᴰ.tail listed, found)
      ]

  register_paths-complete :
      (paths : OpenApiPaths) (path : String) (verbs : PathVerbs)
      → Memᴰ (path, verbs) paths
      → Memᴰ r (register_verbs m path verbs)
      → Memᴰ r (register_paths m paths)
  unfolding register_paths
  register_paths-complete [] path verbs n f = elim n [ ]
  register_paths-complete ((p, v) ∷ paths) path verbs (Memᴰ.head q) f =
      Memᴰ-append_left {xs = register_verbs m p v} _ (rw (← ap (λ e. e.0) q, ← ap (λ e. e.1) q) f)
  register_paths-complete ((p, v) ∷ paths) path verbs (Memᴰ.tail n) f =
      Memᴰ-append_right (register_verbs m p v) (register_paths-complete paths path verbs n f)

-- The router has exactly the handlers that a verb of the specification accounts for: a verb's own
-- method, in capitals, on its path, and for `all` the supported methods that no verb of the
-- specification configures for the path: none reads, in capitals and behind its own path and a
-- slash, like the method behind this one.
pub prepare_oas_router_iff :
    (oas : OpenApiSpec) (r : Registration) → Memᴰ r (prepare_oas_router oas) ↔ Origin oas r
unfolding prepare_oas_router
prepare_oas_router_iff oas r =
    let m = create_routes_map oas in
    (
      λ n.
          let (path, verbs, listed, found) = register_paths-sound m r oas.paths n in
          let (verb, config, verb_listed, serves) = register_verbs_sound m path verbs found in
          record {
            path = path;
            verbs = verbs;
            verb = verb;
            config = config;
            listed = listed;
            verb_listed = verb_listed;
            serves = (Serves-Accounts_iff oas path verb config r).0 serves;
          },
      λ o. register_paths-complete m r oas.paths o.path o.verbs o.listed (
          register_verbs-complete m o.path o.verbs o.verb o.config r o.verb_listed
            ((Serves-Accounts_iff oas o.path o.verb o.config r).1 o.serves)),
    )
