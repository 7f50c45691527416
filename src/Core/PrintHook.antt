-- ===== src/Core/PrintHook.antt =====
-- The print hook of core/opaevaluator.go: what a policy prints is a line of JSON. The clock is an
-- argument, in milliseconds.
use rond.Prelude.{ℕ, String, Result, ok, [], ◌∷◌, ◌>>=◌}
use rond.Prelude.Text.{◌⧺◌}
use rond.Prelude.Json.{Json, Marshal, int, str, object}

pub record LogPrinter : Type 0 where
  pub level : ℕ
  pub message : String
  pub time : ℕ
  pub policy_name : String

unfoldable pub log_printer_json : LogPrinter → Json
log_printer_json p = object (
    ("level", int p.level)
    ∷ ("msg", str p.message)
    ∷ ("time", int p.time)
    ∷ ("policyName", str p.policy_name)
    ∷ [])

-- `NewPrintHook`; what the hook has written so far is its state.
pub record PrintHook : Type 0 where
  pub written : String
  pub policy_name : String

unfoldable pub new_print_hook : String → String → PrintHook
new_print_hook written policy = record { written = written; policy_name = policy }

-- `Print`, on a stream that takes every line.
unfoldable pub print : Marshal → ℕ → PrintHook → String → Result PrintHook
print marshal now hook message =
    marshal (
      log_printer_json
        (record { level = 10; message = message; time = now; policy_name = hook.policy_name }))
    >>= λ line. ok (record hook { written = hook.written ⧺ line ⧺ "\n" })
