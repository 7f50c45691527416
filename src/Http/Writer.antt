-- ===== src/Http/Writer.antt =====
-- http.ResponseWriter: the first status written is the one sent, and a body sends 200 before it.
use rond.Prelude.{ℕ, String, Option, none, some, []}
use rond.Prelude.Text.{◌⧺◌}
use rond.Http.Header.{Header}

pub record Writer : Type 0 where
  pub header : Header
  pub status : Option ℕ
  pub body : String

abbrev pub fresh : Writer
fresh = record { header = []; status = none; body = "" }

abbrev pub or_status : Option ℕ → ℕ → Option ℕ
or_status none code = some code
or_status (some sent) code = some sent

unfoldable pub write_header : Writer → ℕ → Writer
write_header w code = record w { status = or_status w.status code }

unfoldable pub write : Writer → String → Writer
write w content = record w { status = or_status w.status 200; body = w.body ⧺ content }
