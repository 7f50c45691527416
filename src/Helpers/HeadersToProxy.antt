-- ===== src/Helpers/HeadersToProxy.antt =====
-- From the request's headers to those of the calls that the service makes: the middleware and
-- `SetHeadersToProxy` of helpers/headers_to_proxy.go together.
use rond.Prelude.{
  String, not, ◌&&◌, List, [], ◌∷◌, Option, none, some, ◌≡◌, refl, ap, ◌∙◌, arith, if◌then◌else◌,
  ◌==◌, eq_iff, elem, elem-nil, elem-cons, map, Bool-cases, inl, inr,
}
use rond.Prelude.Map.{lookup, insert, lookup-insert, lookup-nil}
use rond.Http.Header.{Header, canonical, canonical_idem, first, get, set, get-set}
use rond.Helpers.{collect_headers, add_headers_to_proxy, set_each, set_headers_to_proxy}

-- Every key is its own canonical form, as in a header that `Set` has built.
abbrev HasCanonicalKeys : Header → Type 0
HasCanonicalKeys [] = Unit
HasCanonicalKeys ((k, _) ∷ h) = (canonical k ≡ k) × HasCanonicalKeys h

insert-HasCanonicalKeys :
    (k : String) (v : List String) (h : Header)
    → canonical k ≡ k
    → HasCanonicalKeys h
    → HasCanonicalKeys (insert k v h)
unfolding insert
insert-HasCanonicalKeys k v [] e c = (e, tt)
insert-HasCanonicalKeys k v ((j, w) ∷ h) e (d, c) = elim (Bool-cases (j == k)) [
  | inl p ↦ rw p (e, c)
  | inr p ↦ rw p (d, insert-HasCanonicalKeys k v h e c)
]

collect_headers-HasCanonicalKeys :
    (names : List String) (req acc : Header)
    → HasCanonicalKeys acc
    → HasCanonicalKeys (collect_headers names req acc)
unfolding collect_headers set
collect_headers-HasCanonicalKeys [] req acc c = c
collect_headers-HasCanonicalKeys (name ∷ names) req acc c = elim (Bool-cases (get req name == "")) [
  | inl e ↦ rw e (collect_headers-HasCanonicalKeys names req acc c)
  | inr e ↦ rw e (
      collect_headers-HasCanonicalKeys names req (insert (canonical name) (get req name ∷ []) acc)
        (insert-HasCanonicalKeys _ _ acc (canonical_idem name) c))
]

get_congr : (h : Header) (a b : String) → canonical a ≡ canonical b → get h a ≡ get h b
unfolding get
get_congr h a b e = ap (λ k. first (lookup k h)) e

-- What the middleware has put under a name.
lookup-collect_headers :
    (names : List String) (req acc : Header) (j : String)
    → lookup (canonical j) (collect_headers names req acc) ≡ (
        if elem (canonical j) (map canonical names) && not (get req j == "")
        then some (get req j ∷ [])
        else lookup (canonical j) acc)
unfolding collect_headers set
lookup-collect_headers [] req acc j = rw elem-nil
lookup-collect_headers (name ∷ names) req acc j = elim (Bool-cases (get req name == "")) [
  | inl e ↦ rw e (
      lookup-collect_headers names req acc j
      ∙ rw elem-cons
          (ground (arith, eq_iff (canonical name) (canonical j), get_congr req name j, e)))
  | inr e ↦ rw e (
      lookup-collect_headers names req (insert (canonical name) (get req name ∷ []) acc) j
      ∙ rw (lookup-insert, elem-cons)
          (ground (arith, eq_iff (canonical name) (canonical j), get_congr req name j, e)))
]

abbrev picked : Option (List String) → String → String → String
picked none own given = own
picked (some _) own given = given

get-set_each :
    (rest proxy headers : Header) (j : String)
    → HasCanonicalKeys rest
    → get (set_each rest proxy headers) j
      ≡ picked (lookup (canonical j) rest) (get headers j) (get proxy j)
unfolding set_each lookup
get-set_each [] proxy headers j c = refl
get-set_each ((name, v) ∷ rest) proxy headers j (e, c) =
    get-set_each rest proxy (set headers name (get proxy name)) j c
    ∙ ground (
      arith,
      get-set headers name j (get proxy name),
      eq_iff name (canonical j),
      eq_iff (canonical name) (canonical j),
      get_congr proxy name j,
      e,
    )

get_of_lookup :
    (h : Header) (j value : String) → lookup (canonical j) h ≡ some (value ∷ []) → get h j ≡ value
unfolding get
get_of_lookup h j value e = rw e

-- A call of the service gets, under each name that is to be proxied, the value that the request
-- has there, unless that is empty; under every other name it keeps its own.
pub set_headers_to_proxy_lem :
    (names : List String) (req headers : Header) (j : String)
    → get (set_headers_to_proxy (add_headers_to_proxy names req) headers) j ≡ (
        if elem (canonical j) (map canonical names) && not (get req j == "")
        then get req j
        else get headers j)
unfolding set_headers_to_proxy add_headers_to_proxy
set_headers_to_proxy_lem names req headers j =
    let proxy = collect_headers names req [] in
    get-set_each proxy proxy headers j (collect_headers-HasCanonicalKeys names req [] tt)
    ∙ ground (
      arith,
      lookup-collect_headers names req [] j,
      lookup-nil {V = List String} (canonical j),
      get_of_lookup proxy j (get req j),
    )
