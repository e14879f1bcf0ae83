-- ===== src/Tests/Sockets.antt =====
-- Runs of the life of a socket object, of its options, and of poll.
use sysjs.Host.{Ensures, bool, int, no_address, returned, string, suspended, void}
use sysjs.Prelude.{
  List, [], arith, bit_and, false, inr, none, not, pos, refl, some, true, ℕ, ◌==◌, ◌∷◌, ◌≡◌, ◌≢◌,
  ◌⊎◌,
}
use sysjs.Socket.{Leaks, connected, held, listening}
use sysjs.Socket.Connect.{Attempt, accepted, bind, connect, no_socket, port_fits, rejected}
use sysjs.Socket.Connect.Ownership.{bind-Leaks, connect-Leaks, suspended-connect}
use sysjs.Socket.Connect.Ports.{port_fits_iff}
use sysjs.Socket.Poll.{Callback, World, data_ready, poll_elements}
use sysjs.Socket.Poll.Callbacks.{called, opens_of, poll_elements-open, revents_at}
use sysjs.Tests.Samples.{engine, online}

online-Leaks : Leaks 0 online
online-Leaks = refl

-- A world in which every socket is readable.
abbrev readable : World
readable = record { script = λ k. true; revents = λ fds. 1 ∷ 1 ∷ [] }

poll_elements-open_example :
    (calls : List Callback) × (poll_elements readable online (opens_of (4 ∷ 5 ∷ []))
      ≡ returned void (online, calls))
    × ((j : ℕ) → called (data_ready j) calls ≡ not (bit_and (revents_at (1 ∷ 1 ∷ []) j) 0x1 == 0))
poll_elements-open_example = poll_elements-open readable online (4 ∷ 5 ∷ []) (λ k. refl)

port_80 : port_fits (pos 80) ≡ true
port_80 = (port_fits_iff (pos 80)).1 (omega arith, omega arith)

-- The first address refuses, the second accepts.
abbrev attempts : List Attempt
attempts = rejected 8 ∷ accepted 9 ∷ []

connect-Leaks_example :
    Ensures
      (λ v c'.
        Leaks 0 c'
        × (((v ≡ bool false) × (held c'.sock ≡ 0))
            ⊎ ((v ≡ bool true) × (c'.state ≡ connected) × (held c'.sock ≡ 1))))
      (λ e c'. Leaks 0 c' × (held c'.sock ≡ 0))
      (connect engine 1 (some attempts) (string [] ∷ int (pos 80) ∷ []) (some online))
connect-Leaks_example =
    connect-Leaks 0 1 engine (some attempts) (string []) (int (pos 80)) online online-Leaks port_80

suspended-connect_example :
    Ensures
      (λ v c'. suspended c'.calls ≡ 0)
      (λ e c'. suspended c'.calls ≡ 1)
      (connect engine 1 (some (no_socket ∷ [])) (string [] ∷ int (pos 80) ∷ []) (some online))
suspended-connect_example =
    suspended-connect 1 engine (some (no_socket ∷ [])) (string []) (int (pos 80)) online port_80

bind-Leaks_example :
    Ensures
      (λ v c'. Leaks 1 c' × (c'.state ≡ listening) × (held c'.sock ≡ 1))
      (λ e c'.
        (c'.socket ≡ online.socket)
        × (((e ≡ no_address) × Leaks 0 c') ⊎ ((e ≢ no_address) × Leaks 1 c')))
      (bind none (inr attempts) (int (pos 80) ∷ []) (some online))
bind-Leaks_example = bind-Leaks 0 none attempts (pos 80) online online-Leaks port_80
