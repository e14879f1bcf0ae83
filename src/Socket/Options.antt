-- ===== src/Socket/Options.antt =====
-- Settings of an open descriptor, and waiting for it, in src/js_socket.cpp: `js_sock_set_timeout`,
-- `js_sock_setbaud` and `js_sock_wait_for_input`.
pub mod Times
use sysjs.Host.{
  Engine, JsVal, Outcome, bool, fault, int, jsval_to_int, no_private, returned, socket_closed,
  system_error, thrown, timeouts, tty_configured, usage, void,
}
use sysjs.Prelude.{
  Bool, List, Option, [], bit_or, false, if◌then◌else◌, ltb, negsuc, none, pos, quotient, scale,
  some, suc, true, ℕ, ℤ, ◌-ℤ◌, ◌-◌, ◌^◌, ◌∷◌,
}
use sysjs.Socket.{Ctx, SockState, disconnected, with_socket}

-- `struct timeval`
pub record Timeval : Type 0 where
  pub tv_sec : ℤ
  pub tv_usec : ℤ

-- Milliseconds, split as the code does: `t / 1000`, and what is left times 1000.
pub timeval : ℤ → Timeval
timeval ms = record { tv_sec = sec; tv_usec = scale (ms -ℤ scale sec 1000) 1000 }
  where
    sec : ℤ
    sec = quotient ms 1000

-- `!js_sock->state == connected`, which compares the negation with `connected`: it holds of
-- `disconnected` alone.
seems_closed : SockState → Bool
seems_closed disconnected = true
seems_closed s = false

-- The two answers of setsockopt(2), an error number where it fails; `errno` is that of the last
-- call.
abbrev both_set : Option ℕ → Option ℕ → Option ℕ
both_set none none = none
both_set (some e) none = some e
both_set r (some e) = some e

abbrev pub set_timeout : Engine → Option ℕ → Option ℕ → List JsVal → Option Ctx → Outcome Ctx
unfolding timeval seems_closed
set_timeout engine snd rcv args private = with_socket none private λ c.
    if seems_closed c.state then thrown socket_closed c else elim args [
      | s ∷ r ∷ [] ↦
          let sto = timeval (jsval_to_int engine s) in
          let rto = timeval (jsval_to_int engine r) in
          let c' = record c {
            calls = timeouts sto.tv_sec sto.tv_usec rto.tv_sec rto.tv_usec ∷ c.calls;
          } in
          elim (both_set snd rcv) [ none ↦ returned void c' | some e ↦ thrown (system_error e) c' ]
      | _ ↦ thrown usage c
    ]

-- The flags CS8, CLOCAL and CREAD of <termios.h>.
pub record Termios : Type 0 where
  pub cs8 : ℕ
  pub clocal : ℕ
  pub cread : ℕ

-- A 32-bit `int` as the `unsigned` that the flags are.
abbrev to_unsigned : ℤ → ℕ
to_unsigned (pos n) = n
to_unsigned (negsuc n) = 2 ^ 32 - suc n

-- The speed goes into the control flags as it is; the answers of the tty's calls are not looked at.
-- A negative number is its two's complement.
abbrev pub set_baud : Termios → List JsVal → Option Ctx → Outcome Ctx
unfolding seems_closed
set_baud flags args private = with_socket none private λ c.
    if seems_closed c.state then thrown socket_closed c else elim args [
      | int baud ∷ [] ↦ returned void (record c {
        calls =
            tty_configured c.sock
              (bit_or (bit_or (bit_or (to_unsigned baud) flags.cs8) flags.clocal) flags.cread)
            ∷ c.calls;
      })
      | _ ↦ thrown usage c
    ]

-- Descriptors from FD_SETSIZE on are outside an `fd_set`.
abbrev fd_setsize : ℕ
fd_setsize = 1024

-- What select(2) answers: an error number, or whether the descriptor is ready in time.
pub data Selected : Type 0 where
  select_failed : ℕ → Selected
  ready : Bool → Selected

-- `timeout > 0`
abbrev is_positive : ℤ → Bool
is_positive (pos n) = ltb 0 n
is_positive (negsuc n) = false

abbrev timeout_of : JsVal → ℤ
timeout_of (int n) = n
timeout_of v = negsuc 0

wait_on : Selected → Ctx → ℤ → ℕ → Outcome Ctx
wait_on answer c timeout fd =
    if is_positive timeout
    then (if ltb fd fd_setsize
        then elim answer [
          | select_failed errno ↦ thrown (system_error errno) c
          | ready b ↦ returned (bool b) c
        ]
        else fault)
    else returned void c

abbrev pub wait_for_input : Selected → List JsVal → Option Ctx → Outcome Ctx
unfolding wait_on
wait_for_input answer args private = with_socket (some no_private) private λ c. elim c.sock [
  | negsuc n ↦ thrown socket_closed c
  | pos fd ↦ elim args [ v ∷ [] ↦ wait_on answer c (timeout_of v) fd | _ ↦ thrown usage c ]
]
