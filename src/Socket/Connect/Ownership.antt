-- ===== src/Socket/Connect/Ownership.antt =====
-- The descriptors that `js_sock_connect` and `js_sock_bind` of src/js_socket.cpp open and close.
use sysjs.Host.{
  Call, Engine, Ensures, JsVal, bool, closed, closes, int, no_address, opened, opens, reuse_address,
  suspended,
}
use sysjs.Prelude.{
  List, Option, [], arith, false, inr, none, pos, refl, some, true, ℕ, ℤ, ◌+◌, ◌∷◌, ◌≡◌, ◌≢◌, ◌⊎◌,
}
use sysjs.Socket.{Ctx, Leaks, connected, held, listening, suspend}
use sysjs.Socket.Connect.{
  Attempt, accepted, bind, bind_to, connect, connect_to, drop_old, finish_bind, finish_connect,
  no_socket, port_fits, rejected, try_bind, try_connect,
}

-- What a walk through the addresses opens and does not close: what it returns.
abbrev kept : Option ℕ → ℕ
kept none = 0
kept (some fd) = 1

try_connect-kept :
    (attempts : List Attempt) (calls : List Call)
    → let (fd, calls') = try_connect attempts calls in
      opens calls' + closes calls ≡ closes calls' + opens calls + kept fd
unfolding try_connect
try_connect-kept [] calls = omega arith
try_connect-kept (no_socket ∷ rest) calls = try_connect-kept rest calls
try_connect-kept (rejected fd ∷ rest) calls =
    omega (arith, try_connect-kept rest (closed (pos fd) ∷ opened (pos fd) ∷ calls))
try_connect-kept (accepted fd ∷ rest) calls = omega arith

try_bind-kept :
    (attempts : List Attempt) (calls : List Call)
    → let (fd, calls') = try_bind attempts calls in
      opens calls' + closes calls ≡ closes calls' + opens calls + kept fd
unfolding try_bind
try_bind-kept [] calls = omega arith
try_bind-kept (no_socket ∷ rest) calls = try_bind-kept rest calls
try_bind-kept (rejected fd ∷ rest) calls =
    omega (
      arith,
      try_bind-kept rest (closed (pos fd) ∷ reuse_address (pos fd) ∷ opened (pos fd) ∷ calls),
    )
try_bind-kept (accepted fd ∷ rest) calls = omega arith

drop_old-Leaks :
    (lost : ℕ) (c : Ctx) → Leaks lost c → Leaks lost (drop_old c) × (held (drop_old c).sock ≡ 0)
unfolding drop_old
drop_old-Leaks lost c h = ground arith

connect_to-Leaks :
    (lost depth : ℕ) (resolved : Option (List Attempt)) (c : Ctx)
    → Leaks lost c
    → held c.sock ≡ 0
    → Ensures
        (λ v c'.
          Leaks lost c'
          × (((v ≡ bool false) × (held c'.sock ≡ 0))
              ⊎ ((v ≡ bool true) × (c'.state ≡ connected) × (held c'.sock ≡ 1))))
        (λ e c'. Leaks lost c' × (held c'.sock ≡ 0))
        (connect_to depth resolved c)
unfolding connect_to finish_connect
connect_to-Leaks lost depth none c h z = ground arith
connect_to-Leaks lost depth (some attempts) c h z =
    ground (arith, try_connect-kept attempts (suspend depth c).calls)

-- Whatever the system answers, `connect` with a port that fits keeps the account of the object's
-- descriptors: it loses none, where it returns and where it fails. Where it returns true, the
-- socket is connected and holds a descriptor; where it returns false or fails, the socket holds none,
-- the one from before included.
pub connect-Leaks :
    (lost depth : ℕ) (engine : Engine) (resolved : Option (List Attempt)) (host port : JsVal)
    (c : Ctx)
    → Leaks lost c
    → port_fits (engine.to_int32 port) ≡ true
    → Ensures
        (λ v c'.
          Leaks lost c'
          × (((v ≡ bool false) × (held c'.sock ≡ 0))
              ⊎ ((v ≡ bool true) × (c'.state ≡ connected) × (held c'.sock ≡ 1))))
        (λ e c'. Leaks lost c' × (held c'.sock ≡ 0))
        (connect engine depth resolved (host ∷ port ∷ []) (some c))
unfolding connect
connect-Leaks lost depth engine resolved host port c h p =
    let old = drop_old-Leaks lost c h in
    rw p (connect_to-Leaks lost depth resolved (drop_old c) old.0 old.1)

suspended-try_connect :
    (attempts : List Attempt) (calls : List Call)
    → suspended (try_connect attempts calls).1 ≡ suspended calls
unfolding try_connect
suspended-try_connect [] calls = refl
suspended-try_connect (no_socket ∷ rest) calls = suspended-try_connect rest calls
suspended-try_connect (rejected fd ∷ rest) calls =
    suspended-try_connect rest (closed (pos fd) ∷ opened (pos fd) ∷ calls)
suspended-try_connect (accepted fd ∷ rest) calls = refl

suspended-connect_to :
    (depth : ℕ) (resolved : Option (List Attempt)) (c : Ctx)
    → Ensures
        (λ v c'. suspended c'.calls ≡ suspended c.calls)
        (λ e c'. suspended c'.calls ≡ suspended c.calls + 1)
        (connect_to depth resolved c)
unfolding connect_to finish_connect
suspended-connect_to depth none c = refl
suspended-connect_to depth (some attempts) c =
    ground (arith, suspended-try_connect attempts (suspend depth c).calls)

suspended-drop_old : (c : Ctx) → suspended (drop_old c).calls ≡ suspended c.calls
unfolding drop_old
suspended-drop_old c = ground arith

-- Where `connect` with a port that fits returns, it has resumed every request that it suspended;
-- where it fails, it leaves one more request suspended.
pub suspended-connect :
    (depth : ℕ) (engine : Engine) (resolved : Option (List Attempt)) (host port : JsVal) (c : Ctx)
    → port_fits (engine.to_int32 port) ≡ true
    → Ensures
        (λ v c'. suspended c'.calls ≡ suspended c.calls)
        (λ e c'. suspended c'.calls ≡ suspended c.calls + 1)
        (connect engine depth resolved (host ∷ port ∷ []) (some c))
unfolding connect
suspended-connect depth engine resolved host port c p =
    rw (p, ← suspended-drop_old c) (suspended-connect_to depth resolved (drop_old c))

-- Whatever the system answers, `bind` to a port that fits and resolves loses the descriptor that
-- the socket had, where it returns, and the socket listens; it loses the new descriptor where
-- listen(2) fails, and none where no address accepts, and there the socket keeps what it had.
pub bind-Leaks :
    (lost : ℕ) (listens : Option ℕ) (attempts : List Attempt) (port : ℤ) (c : Ctx)
    → Leaks lost c
    → port_fits port ≡ true
    → Ensures
        (λ v c'. Leaks (lost + held c.sock) c' × (c'.state ≡ listening) × (held c'.sock ≡ 1))
        (λ e c'.
          (c'.socket ≡ c.socket)
          × (((e ≡ no_address) × Leaks lost c') ⊎ ((e ≢ no_address) × Leaks (lost + 1) c')))
        (bind listens (inr attempts) (int port ∷ []) (some c))
unfolding bind bind_to finish_bind
bind-Leaks lost listens attempts port c h p = ground (arith, try_bind-kept attempts c.calls)
