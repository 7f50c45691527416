-- ===== src/Service/Handler/Directed.antt =====
-- Where the director of the reverse proxy of service/handler.go sends a request.
use rond.Prelude.{
  String, none, some, ◌≡◌, ◌==◌, refl, sym, ◌∙◌, inl, inr, List, ◌⊎◌, Bool-cases, Option-cases,
  eq_iff,
}
use rond.Prelude.Map.{lookup}
use rond.Prelude.Text.{upper_char, lower_char}
use rond.Http.Header.{
  Header, get, set, get-set, canonical, canonical_from, canonical_char, all_tokens,
}
use rond.Http.Request.{Request}
use rond.Config.{EnvironmentVariables}
use rond.Service.Handler.{Outgoing, direct}

-- The request goes to the host of the environment, by http, and has the same value under every name
-- of a header; all else of it is kept.
abbrev pub IsSentTo : EnvironmentVariables → Request → Outgoing → Type 0
IsSentTo env req out =
    (out.host ≡ env.target_service_host)
    × (out.scheme ≡ "http")
    × (out.request ≡ record req { header = out.request.header })
    × ((name : String) → get out.request.header name ≡ get req.header name)

user_agent : canonical "User-Agent" ≡ "User-Agent"
unfolding canonical canonical_from canonical_char all_tokens upper_char lower_char
user_agent = refl

-- An empty value under a name that is not there is as none.
get-blank :
    (h : Header) (name : String)
    → lookup "User-Agent" h ≡ none
    → get (set h "User-Agent" "") name ≡ get h name
get-blank h name absent =
    get-set h "User-Agent" name "" ∙ elim (Bool-cases (canonical "User-Agent" == canonical name)) [
      | inl e ↦ rw e (sym (blank (sym user_agent ∙ (eq_iff _ _).0 e)))
      | inr e ↦ rw e refl
    ]
  where
    blank : "User-Agent" ≡ canonical name → get h name ≡ ""
    blank q = unfold get in rw (← q, absent) refl

pub direct-IsSentTo :
    (env : EnvironmentVariables) (req : Request) → IsSentTo env req (direct env req)
unfolding direct
direct-IsSentTo env req =
    (refl, refl, refl, λ name. same name (Option-cases (lookup "User-Agent" req.header)))
  where
    same :
        (name : String)
        → (lookup "User-Agent" req.header ≡ none)
          ⊎ ((v : List String) × (lookup "User-Agent" req.header ≡ some v))
        → get
            (elim (lookup "User-Agent" req.header) as (λ x. Header) [
              | none ↦ set req.header "User-Agent" ""
              | some _ ↦ req.header
            ])
            name
          ≡ get req.header name
    same name (inl e) = rw e (get-blank req.header name e)
    same name (inr (v, e)) = rw e refl
