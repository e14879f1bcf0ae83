-- ===== src/Socket/Lifecycle/Props.antt =====
-- A socket object of src/js_socket.cpp from its construction to its end.
use sysjs.Host.{JsVal, Returns, closes, int, returned, suspended, void}
use sysjs.Prelude.{List, Memory, [], arith, negsuc, refl, some, ℕ, ◌+◌, ◌∷◌, ◌≡◌, ◌⊎◌}
use sysjs.Socket.{Ctx, IsSized, Leaks, Sock, connected, disconnected, held}
use sysjs.Socket.Lifecycle.{atoi_from, close, construct, destroy, fd_tiny_id, get_property}

-- A new object is in bounds, holds the descriptor that it was given, if any, and the finalizer
-- closes exactly that one.
pub construct_lem :
    (garbage : Memory) (args : List JsVal)
    → let s = construct garbage args in
      IsSized (record { socket = s; calls = [] })
      × (closes (destroy (some s)) ≡ held s.sock)
      × (((s.state ≡ disconnected) × (s.sock ≡ negsuc 0))
          ⊎ ((s.state ≡ connected) × (args ≡ int s.sock ∷ [])))
unfolding construct destroy
construct_lem garbage [] = ground arith
construct_lem garbage (int fd ∷ []) = ground arith
construct_lem garbage (v ∷ w ∷ rest) = ground arith
construct_lem garbage (v ∷ []) = ground arith

-- `close` gives the object's descriptor back, losing none, with every request resumed; the
-- finalizer then closes nothing, so no descriptor is closed twice.
pub close-Leaks :
    (lost depth : ℕ) (c : Ctx)
    → Leaks lost c
    → Returns void
        (λ c'.
          Leaks lost c'
          × (c'.state ≡ disconnected)
          × (held c'.sock ≡ 0)
          × (destroy (some c'.socket) ≡ [])
          × (suspended c'.calls ≡ suspended c.calls))
        (close depth (some c))
unfolding close destroy
close-Leaks lost depth c h = ground arith

-- The text of the id under which the engine asks for `fd`.
abbrev fd_id : List ℕ
fd_id = (b'0' + fd_tiny_id) ∷ []

-- The property `fd` never shows the descriptor: asked for it by its tiny id, the getter leaves the
-- value as it was, for every socket. Only the id 1, which no property has, would show it.
get_property-fd :
    (s : Sock) (vp : JsVal)
    → (get_property fd_id (some s) vp ≡ returned void vp)
      × (get_property (b'1' ∷ []) (some s) vp ≡ returned void (int s.sock))
unfolding get_property atoi_from
get_property-fd s vp = (refl, refl)
