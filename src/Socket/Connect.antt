-- ===== src/Socket/Connect.antt =====
-- How a socket of src/js_socket.cpp gets its descriptor: `js_sock_connect`, `js_sock_bind` and
-- `js_sock_accept`.
pub mod Ownership
pub mod Ports
use sysjs.Host.{
  Call, Engine, Error, JsVal, Outcome, addresses_freed, bool, closed, fault, int, listening_on,
  no_address, object, opened, refused, returned, reuse_address, system_error, thrown, usage, void,
}
use sysjs.Prelude.{
  Bool, List, Memory, Option, [], false, if◌then◌else◌, inl, inr, ltb, negsuc, none, pos, some, suc,
  true, zero, ℕ, ℤ, ◌+◌, ◌∷◌, ◌⊎◌,
}
use sysjs.Socket.{Ctx, Sock, connected, listening, resume, suspend, with_socket}
use sysjs.Socket.Lifecycle.{construct}

-- What the system answers at one address of a list from getaddrinfo(3): no descriptor from
-- socket(2), a descriptor that connect(2) or bind(2) refuses, or one that it accepts.
pub data Attempt : Type 0 where
  no_socket : Attempt
  rejected : ℕ → Attempt
  accepted : ℕ → Attempt

-- The loop of `js_sock_connect` over the addresses, with the calls that it makes.
pub try_connect : List Attempt → List Call → Option ℕ × List Call
try_connect [] calls = (none, calls)
try_connect (no_socket ∷ rest) calls = try_connect rest calls
try_connect (rejected fd ∷ rest) calls =
    try_connect rest (closed (pos fd) ∷ opened (pos fd) ∷ calls)
try_connect (accepted fd ∷ rest) calls = (some fd, opened (pos fd) ∷ calls)

-- The loop of `js_sock_bind`, which sets SO_REUSEADDR before it binds.
pub try_bind : List Attempt → List Call → Option ℕ × List Call
try_bind [] calls = (none, calls)
try_bind (no_socket ∷ rest) calls = try_bind rest calls
try_bind (rejected fd ∷ rest) calls =
    try_bind rest (closed (pos fd) ∷ reuse_address (pos fd) ∷ opened (pos fd) ∷ calls)
try_bind (accepted fd ∷ rest) calls = (some fd, reuse_address (pos fd) ∷ opened (pos fd) ∷ calls)

-- The characters that `sprintf("%d")` writes for a number below 10^10.
pub digits10 : ℕ → ℕ
digits10 n =
    1
    + from_on 10
    + from_on 100
    + from_on 1000
    + from_on 10000
    + from_on 100000
    + from_on 1000000
    + from_on 10000000
    + from_on 100000000
    + from_on 1000000000
  where
    from_on : ℕ → ℕ
    from_on k = if ltb n k then 0 else 1

pub decimal_width : ℤ → ℕ
unfolding digits10
decimal_width (pos n) = digits10 n
decimal_width (negsuc n) = digits10 (suc n) + 1

-- Whether the digits and the terminator fit the `char[8]` that `sprintf` writes them to.
pub port_fits : ℤ → Bool
unfolding decimal_width
port_fits port = ltb (decimal_width port) 8

-- `if (js_sock->sock != -1) { close(js_sock->sock); js_sock->sock = -1; }`
pub drop_old : Ctx → Ctx
drop_old c = elim c.sock [
  | negsuc zero ↦ c
  | fd ↦ record { socket = record c.socket { sock = negsuc 0 }; calls = closed fd ∷ c.calls }
]

-- After the loop: the descriptor is kept, or the error is reported, with the request suspended and
-- the list of addresses not freed.
pub finish_connect : Ctx → Option ℕ × List Call → Outcome Ctx
finish_connect c (none, calls) = thrown no_address (record c { calls = calls })
finish_connect c (some fd, calls) = returned (bool true) (
    resume (record c {
      socket = record c.socket { sock = pos fd; state = connected };
      calls = addresses_freed ∷ calls;
    }))

-- `resolved` is the answer of getaddrinfo(3), and of the system at each address.
pub connect_to : ℕ → Option (List Attempt) → Ctx → Outcome Ctx
unfolding finish_connect try_connect
connect_to depth none c = returned (bool false) c
connect_to depth (some attempts) c =
    let c' = suspend depth c in finish_connect c' (try_connect attempts c'.calls)

pub connect : Engine → ℕ → Option (List Attempt) → List JsVal → Option Ctx → Outcome Ctx
unfolding port_fits drop_old connect_to
connect engine depth resolved args private = with_socket none private λ c. elim args [
  | host ∷ port ∷ [] ↦
      if port_fits (engine.to_int32 port) then connect_to depth resolved (drop_old c) else fault
  | _ ↦ returned (bool false) c
]

abbrev listen_backlog : ℕ
listen_backlog = 10

-- After the loop of `js_sock_bind`; `listens` is what listen(2) answers. Only here is the object's
-- data used, and it is not checked.
pub finish_bind : Option ℕ → Option Ctx → Option ℕ × List Call → Outcome Ctx
finish_bind listens none r = fault
finish_bind listens (some c) (none, calls) =
    thrown no_address (record c { calls = addresses_freed ∷ calls })
finish_bind (some errno) (some c) (some fd, calls) =
    thrown (system_error errno) (record c { calls = addresses_freed ∷ calls })
finish_bind none (some c) (some fd, calls) = returned void (record c {
  socket = record c.socket { sock = pos fd; state = listening };
  calls = listening_on (pos fd) listen_backlog ∷ addresses_freed ∷ calls;
})

-- The calls made before a method is entered.
abbrev calls_before : Option Ctx → List Call
calls_before none = []
calls_before (some c) = c.calls

abbrev failed_early : Error → Option Ctx → Outcome Ctx
failed_early e none = refused (some e)
failed_early e (some c) = thrown e c

-- `resolved` is the error of getaddrinfo(3), or the system's answers at each address.
pub bind_to : Option ℕ → ℕ ⊎ List Attempt → Option Ctx → Outcome Ctx
unfolding finish_bind try_bind
bind_to listens (inl code) private = failed_early (system_error code) private
bind_to listens (inr attempts) private =
    finish_bind listens private (try_bind attempts (calls_before private))

pub bind : Option ℕ → ℕ ⊎ List Attempt → List JsVal → Option Ctx → Outcome Ctx
unfolding port_fits bind_to
bind listens resolved args private = elim args [
  | int port ∷ [] ↦ if port_fits port then bind_to listens resolved private else fault
  | _ ↦ failed_early usage private
]

-- `js_sock_accept`: what accept(2) answers, and the new object's block. The object's data is not
-- checked. A new object is constructed with no argument, and then given the descriptor.
abbrev pub accept : Memory → (ℕ ⊎ ℕ) → Option Ctx → Outcome (Ctx × Option Sock)
unfolding construct
accept garbage answer none = fault
accept garbage (inl errno) (some c) = thrown (system_error errno) (c, none)
accept garbage (inr fd) (some c) = returned (object fd) (
  record c { calls = opened (pos fd) ∷ c.calls },
  some (record (construct garbage []) { sock = pos fd; state = connected }),
)
