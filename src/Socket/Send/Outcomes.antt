-- ===== src/Socket/Send/Outcomes.antt =====
-- What a script learns from `js_sock_send` of src/js_socket.cpp.
use sysjs.Host.{Engine, Ensures, JsVal, bool, resume_request, suspend_request, written}
use sysjs.Prelude.{[], arith, length, refl, some, true, ℕ, ◌==◌, ◌↔◌, ◌∷◌, ◌≡◌}
use sysjs.Socket.{Ctx, Written, write_failed, wrote}
use sysjs.Socket.Send.{send}

whole : (n k : ℕ) → bool (n == k) ≡ bool true → wrote n ≡ wrote k
whole n k e = ground (arith, e)

wrote_lem : (n k : ℕ) → wrote n ≡ wrote k → (n == k) ≡ true
wrote_lem n k e = ground (arith, e)

-- `send` with one argument hands the whole text to the descriptor in one call, with the request
-- suspended around it and resumed on every branch, errors included; it returns true exactly where the
-- system takes all bytes, and throws exactly where the call fails.
pub send_lem :
    (engine : Engine) (depth : ℕ) (answer : Written) (v : JsVal) (c : Ctx)
    → Ensures
        (λ r c'.
          (c'.calls
            ≡ resume_request depth ∷ written c.sock (engine.to_bytes v) ∷ suspend_request ∷ c.calls)
          × ((r ≡ bool true) ↔ (answer ≡ wrote (length (engine.to_bytes v)))))
        (λ e c'.
          (c'.calls
            ≡ resume_request depth ∷ written c.sock (engine.to_bytes v) ∷ suspend_request ∷ c.calls)
          × ((errno : ℕ) × (answer ≡ write_failed errno)))
        (send engine depth answer (v ∷ []) (some c))
unfolding send
send_lem engine depth (write_failed errno) v c = (refl, (errno, refl))
send_lem engine depth (wrote n) v c = (
  refl,
  (whole n (length (engine.to_bytes v)), λ e. rw (wrote_lem n (length (engine.to_bytes v)) e) refl),
)
