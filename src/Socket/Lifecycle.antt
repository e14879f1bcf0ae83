-- ===== src/Socket/Lifecycle.antt =====
-- How a socket object of src/js_socket.cpp begins and ends, and what its property `fd` shows:
-- `js_sock_construct`, `js_sock_destroy`, `js_sock_close` and `js_sock_getProperty`.
pub mod Props
use sysjs.Host.{Call, JsVal, Outcome, closed, fault, int, returned, void}
use sysjs.Prelude.{
  Bool, List, Memory, Option, [], false, if◌then◌else◌, leb, negsuc, none, pos, some, true, ℕ, ℤ,
  ◌&&◌, ◌*◌, ◌+◌, ◌-◌, ◌==◌, ◌∷◌,
}
use sysjs.Socket.{Ctx, Sock, connected, disconnected, resume, suspend, with_socket}

-- The block that a new object gets.
abbrev initial_size : ℕ
initial_size = 32 * 1024

-- `js_sock_construct`; `garbage` is what the new block happens to hold. An integer argument is a
-- descriptor that is open already.
unfoldable pub construct : Memory → List JsVal → Sock
construct garbage args = elim args [
  | int fd ∷ [] ↦ record fresh { sock = fd; state = connected }
  | _ ↦ fresh
]
  where
    fresh : Sock
    fresh = record {
      sock = negsuc 0;
      read_buffer = garbage;
      allocated = initial_size;
      buffer_size = initial_size;
      buffer_pos = 0;
      state = disconnected;
      save_depth = 0;
    }

-- `fd >= 0`
abbrev pub is_open : ℤ → Bool
is_open (pos n) = true
is_open (negsuc n) = false

-- `js_sock_destroy`: the calls that the finalizer makes.
pub destroy : Option Sock → List Call
destroy none = []
destroy (some s) = if is_open s.sock then closed s.sock ∷ [] else []

-- `js_sock_close`, which does not look whether the socket is open.
pub close : ℕ → Option Ctx → Outcome Ctx
close depth private = with_socket none private λ c.
    let c' = suspend depth c in
    returned void (
      resume (record c' {
        socket = record c'.socket { sock = negsuc 0; state = disconnected };
        calls = closed c.sock ∷ c'.calls;
      }))

-- The tiny id that `js_sock_props` gives the property `fd`, `js_sock_PORT`.
abbrev pub fd_tiny_id : ℕ
fd_tiny_id = 2

-- `js_sock_FD`, which `js_sock_getProperty` looks for.
abbrev js_sock_fd : ℕ
js_sock_fd = 1

abbrev is_digit : ℕ → Bool
is_digit c = leb b'0' c && leb c b'9'

-- atoi(3) on a text that starts with a digit.
pub atoi_from : ℕ → List ℕ → ℕ
atoi_from n [] = n
atoi_from n (c ∷ cs) =
    let rest = atoi_from (n * 10 + (c - b'0')) cs in if is_digit c then rest else n

-- `js_sock_getProperty`: `*vp` after the call, for the id as text and the object's data.
pub get_property : List ℕ → Option Sock → JsVal → Outcome JsVal
unfolding atoi_from
get_property [] private vp = returned void vp
get_property (c ∷ name) private vp =
    if is_digit c && atoi_from 0 (c ∷ name) == js_sock_fd
    then elim private [ none ↦ fault | some s ↦ returned void (int s.sock) ]
    else returned void vp
