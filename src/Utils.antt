-- ===== src/Utils.antt =====
-- internal/utils/general.go and internal/utils/http.go. The functions of github.com/samber/lo that
-- they pass on are a parameter.
pub mod Sanitize
pub mod Failed
use rond.Prelude.{
  ℕ, String, Bool, not, ◌&&◌, ◌||◌, List, [], ◌∷◌, ◌≡◌, map, Result, ok, err, panic, some, elem,
  GoError, Sentinel,
}
use rond.Prelude.Text.{◌⧺◌, replace_all, has_prefix}
use rond.Prelude.Json.{Json, int, str, object, Marshal}
use rond.Http.Header.{Header, get, set}
use rond.Http.Writer.{Writer, write_header, write}

-- What the documentation of lo says of the functions used: `Contains` tells whether an element is
-- there, `Difference` first gives what its second list lacks, `Union` gives all distinct elements,
-- `Map` transforms each element.
pub record Lo : Type 0 where
  pub contains : List String → String → Bool
  pub difference : List String → List String → List String × List String
  pub union : List String → List String → List String
  pub map_text : (String → String) → List String → List String
  pub contains_lem : (xs : List String) (x : String) → contains xs x ≡ elem x xs
  pub difference_lem :
      (xs ys : List String) (x : String)
      → elem x (difference xs ys).0 ≡ (elem x xs && not (elem x ys))
  pub map_text_lem : (f : String → String) (xs : List String) → map_text f xs ≡ map f xs
  pub union_lem :
      (xs ys : List String) (x : String) → elem x (union xs ys) ≡ (elem x xs || elem x ys)

abbrev pub generic_business_error_message : String
generic_business_error_message = "Internal server error, please try again later"

abbrev pub no_permissions_error_message : String
no_permissions_error_message =
    "You do not have permissions to access this feature, contact the administrator for more information."

-- The first list without the elements of the second.
unfoldable pub filter_list : Lo → List String → List String → List String
filter_list lo list values_to_filter = (lo.difference list values_to_filter).0

-- Line ends are taken out of a text before it is logged.
unfoldable pub sanitize_string : String → String
sanitize_string input = replace_all b'\r' "" (replace_all b'\n' "" input)

-- `os.ReadFile`, a parameter, with its error wrapped.
unfoldable pub read_file : (String → Result String) → String → Result String
read_file os_read_file path = elim (os_read_file path) [
  | ok content ↦ ok content
  | err e ↦ err (record {
    wraps = some Sentinel.file_load_failed;
    message = "file loading failed: " ⧺ e.message;
  })
  | panic ↦ panic
]

abbrev pub content_type_header_key : String
content_type_header_key = "content-type"

abbrev pub json_content_type_header : String
json_content_type_header = "application/json"

unfoldable pub has_application_json_content_type : Header → Bool
has_application_json_content_type headers =
    has_prefix (get headers content_type_header_key) json_content_type_header

abbrev pub request_error_json : String → String → ℕ → Json
request_error_json error message status_code =
    object (("error", str error) ∷ ("message", str message) ∷ ("statusCode", int status_code) ∷ [])

abbrev pub write_encoded : Writer → Result String → Writer
write_encoded w (ok content) = write w content
write_encoded w (err e) = w
write_encoded w panic = w

-- `FailResponseWithCode`: the status is sent before the body is encoded.
unfoldable pub fail_response_with_code : Marshal → Writer → ℕ → String → String → Writer
fail_response_with_code marshal w status_code technical_error business_error =
    write_encoded
      (write_header
        (record w { header = set w.header content_type_header_key json_content_type_header })
        status_code)
      (marshal (request_error_json technical_error business_error status_code))

unfoldable pub fail_response : Marshal → Writer → String → String → Writer
unfolding fail_response_with_code
fail_response marshal w technical_error business_error =
    fail_response_with_code marshal w 500 technical_error business_error
