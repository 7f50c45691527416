-- ===== src/Helpers/GracefulShutdown.antt =====
-- `GracefulShutdown` of helpers/gracefulshutdown.go: the effects in their order. It runs when the
-- signal is received; the results of `srv.Shutdown` and `srv.Close` are the caller's to choose.
use rond.Prelude.{ℕ, String, List, [], ◌∷◌, Option, none, some, GoError, ◌≡◌, ◌↔◌, refl, Memᴰ}

pub data Effect : Type 0 where
  sleep_seconds : ℕ → Effect
  shutdown : Effect
  close : Effect
  log_error : String → Effect

unfoldable pub close_forced : Option GoError → List Effect
close_forced none = close ∷ []
close_forced (some e) = close ∷ log_error "Error during server close." ∷ []

-- With the errors that `Shutdown` and `Close` return, if any.
unfoldable pub graceful_shutdown : ℕ → Option GoError → Option GoError → List Effect
graceful_shutdown delay none close_error = sleep_seconds delay ∷ shutdown ∷ []
graceful_shutdown delay (some e) close_error =
    sleep_seconds delay
    ∷ shutdown
    ∷ log_error "Error during shutdown, forcing close."
    ∷ close_forced close_error

-- The sleep and the attempt to shut down come first, in this order, whatever fails; the server is
-- closed by force exactly if the attempt failed.
pub graceful_shutdown_closes_iff :
    (delay : ℕ) (shutdown_error close_error : Option GoError)
    → ((rest : List Effect) × (graceful_shutdown delay shutdown_error close_error
          ≡ sleep_seconds delay ∷ shutdown ∷ rest))
      × (Memᴰ close (graceful_shutdown delay shutdown_error close_error)
          ↔ ((e : GoError) × (shutdown_error ≡ some e)))
unfolding graceful_shutdown
graceful_shutdown_closes_iff delay none close_error =
    (([], refl), (λ m. absurd (not_there m), λ h. cc h.1))
  where
    not_there : Memᴰ close (sleep_seconds delay ∷ shutdown ∷ []) → ⊥
    not_there (Memᴰ.head e) = cc
    not_there (Memᴰ.tail (Memᴰ.head e)) = cc
    not_there (Memᴰ.tail (Memᴰ.tail m)) = elim m [ ]
graceful_shutdown_closes_iff delay (some e) none =
    unfold close_forced in
    ((_, refl), (λ m. (e, refl), λ h. Memᴰ.tail (Memᴰ.tail (Memᴰ.tail (Memᴰ.head refl)))))
graceful_shutdown_closes_iff delay (some e) (some c) =
    unfold close_forced in
    ((_, refl), (λ m. (e, refl), λ h. Memᴰ.tail (Memᴰ.tail (Memᴰ.tail (Memᴰ.head refl)))))
