-- ===== src/Http/Request.antt =====
-- http.Request: what the program reads of it.
use rond.Prelude.{ℕ, String, Result, List}
use rond.Prelude.Map.{Map}
use rond.Http.Header.{Header}

-- A length that is not known is 0 here (it is -1 in Go): the code asks only whether it is positive.
-- The body is what reading to its end gives.
pub record Request : Type 0 where
  pub method : String
  pub url_path : String
  pub escaped_path : String
  pub request_uri : String
  pub header : Header
  pub query : Map (List String)
  pub path_params : Map String
  pub content_length : ℕ
  pub body : Result String
