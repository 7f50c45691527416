-- ===== src/Service/Router/Methods.antt =====
-- The methods that `setupRoutes` collects for a path.
use rond.Prelude.{String, false, List, [], ◌∷◌, ◌++◌, ◌≡◌, refl, sym, ap, ◌∙◌, ◌==◌, All}
use mathlib.Core.List.{append-nil, append_assoc}
use rond.Prelude.Text.{to_upper}
use rond.Openapi.{VerbConfig, PathVerbs, all_http_method, oas_supported_http_methods}
use rond.Service.Router.{collect_methods}

abbrev pub IsNotAll : String × VerbConfig → Type 0
IsNotAll (method, _) = (method == all_http_method) ≡ false

abbrev pub upper_methods : PathVerbs → List String
upper_methods [] = []
upper_methods ((method, _) ∷ verbs) = to_upper method ∷ upper_methods verbs

collect_methods-verbs :
    (verbs rest : PathVerbs) (methods : List String)
    → All IsNotAll verbs
    → collect_methods (verbs ++ rest) methods
      ≡ collect_methods rest (methods ++ upper_methods verbs)
unfolding collect_methods
collect_methods-verbs [] rest methods n = rw (append-nil methods) refl
collect_methods-verbs ((method, _) ∷ verbs) rest methods (n, ns) =
    rw (n, collect_methods)
      (collect_methods-verbs verbs rest (methods ++ to_upper method ∷ []) ns
        ∙ rw (append_assoc methods (to_upper method ∷ []) (upper_methods verbs)) refl)

-- Where a path has no verb `all`, its methods are those of its verbs, in capitals. With one, they
-- are the supported methods and those of the verbs that come behind it, whatever comes before it:
-- a verb that is not supported is served or not by the order in which the verbs are visited.
pub collect_methods_lem :
    (before after : PathVerbs) (config : VerbConfig)
    → All IsNotAll before
    → All IsNotAll after
    → (collect_methods before [] ≡ upper_methods before)
      × (collect_methods (before ++ ("all", config) ∷ after) []
          ≡ oas_supported_http_methods ++ upper_methods after)
unfolding collect_methods
collect_methods_lem before after config b a = (
  collect [] before b,
  collect_methods-verbs before (("all", config) ∷ after) [] b
      ∙ collect oas_supported_http_methods after a,
)
  where
    collect :
        (methods : List String) (verbs : PathVerbs)
        → All IsNotAll verbs
        → collect_methods verbs methods ≡ methods ++ upper_methods verbs
    collect methods verbs n =
        sym (ap (λ v. collect_methods v methods) (append-nil verbs))
        ∙ collect_methods-verbs verbs [] methods n
