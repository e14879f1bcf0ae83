-- ===== src/Socket/WebSocket/Safety.antt =====
-- `js_sock_read_ws_packet` of src/js_socket.cpp stays in its buffer, whatever the peer sends.
use sysjs.Host.{Ensures, Outcome, suspended}
use sysjs.Prelude.{
  Bool, List, [], arith, c_string-total, length, some, store, true, ℕ, ◌+◌, ◌<◌, ◌^◌, ◌∷◌, ◌≡◌, ◌≤◌,
}
use sysjs.Socket.{Answer, Ctx, IsSized, failed, got}
use sysjs.Socket.WebSocket.{
  Frame, Round, after_round, done, finish, grow, more, overrun, read_loop, read_ws_packet, receive,
}

-- What the loop keeps: the length read leaves room for a terminator.
abbrev pub InBounds : Frame → Type 0
InBounds f = (f.total_length < f.ctx.buffer_size) × (f.ctx.buffer_size ≤ f.ctx.allocated)

-- How far the buffer may grow: its size stays an `int`.
abbrev pub MayGrow : Frame → ℕ → Type 0
MayGrow f n = f.total_length + n + 1024 < 2 ^ 31

abbrev RoundKeeps : Frame → Round → Type 0
RoundKeeps f (more f') =
    InBounds f'
    × (f'.total_length ≤ f.total_length + 1)
    × (f'.ctx.buffer_pos ≡ f.ctx.buffer_pos)
    × (f.ctx.buffer_size ≤ f'.ctx.buffer_size)
    × (f'.ctx.calls ≡ f.ctx.calls)
    × (f'.ctx.save_depth ≡ f.ctx.save_depth)
RoundKeeps f (done f') =
    InBounds f'
    × (f'.total_length ≤ f.total_length + 1)
    × (f'.ctx.buffer_pos ≡ f.ctx.buffer_pos)
    × (f.ctx.buffer_size ≤ f'.ctx.buffer_size)
    × (f'.ctx.calls ≡ f.ctx.calls)
    × (f'.ctx.save_depth ≡ f.ctx.save_depth)
RoundKeeps f overrun = ⊥

receive-RoundKeeps :
    (reallocs : ℕ → Bool) (f : Frame) (b : ℕ)
    → ((n : ℕ) → reallocs n ≡ true)
    → MayGrow f 1
    → InBounds f
    → RoundKeeps f (receive reallocs f b)
unfolding receive grow
receive-RoundKeeps reallocs f b given may h = ground (arith, given (f.ctx.buffer_size + 1024))

-- Where a call returns, the buffer is in bounds and every request suspended is resumed; an error
-- leaves one request suspended.
abbrev pub Settles : Ctx → Outcome Ctx → Type 0
Settles c =
    Ensures (λ v c'. IsSized c' × (suspended c'.calls ≡ suspended c.calls))
      (λ e c'. IsSized c' × (suspended c'.calls ≡ suspended c.calls + 1))

record Runs (c : Ctx) (f : Frame) : Type 0 where
  in_bounds : InBounds f
  pending : f.ctx.buffer_pos < f.ctx.buffer_size
  one_suspended : suspended f.ctx.calls ≡ suspended c.calls + 1

finish-Settles : (c : Ctx) (f : Frame) → Runs c f → Settles c (finish f)
unfolding finish
finish-Settles c f r = ground (
  arith,
  c_string-total (store f.ctx.read_buffer f.total_length 0) 0 f.total_length f.ctx.allocated,
)

after_round-Settles :
    (c : Ctx) (f : Frame) (round : Round) (loop : Frame → Outcome Ctx)
    → Runs c f
    → RoundKeeps f round
    → ((f' : Frame) → Runs c f' → f'.total_length ≤ f.total_length + 1 → Settles c (loop f'))
    → Settles c (after_round round loop)
after_round-Settles c f (more f') loop r k ih = ih f' (ground arith) (ground arith)
after_round-Settles c f (done f') loop r k ih = finish-Settles c f' (ground arith)
after_round-Settles c f overrun loop r k ih = absurd k

read_loop-Settles :
    (reallocs : ℕ → Bool) (c : Ctx) (answers : List Answer) (f : Frame)
    → ((n : ℕ) → reallocs n ≡ true)
    → MayGrow f (length answers)
    → Runs c f
    → Settles c (read_loop reallocs f answers)
unfolding read_loop
read_loop-Settles reallocs c [] f given may r = tt
read_loop-Settles reallocs c (failed errno ∷ answers) f given may r = ground arith
read_loop-Settles reallocs c (got [] ∷ answers) f given may r = finish-Settles c f r
read_loop-Settles reallocs c (got (b ∷ bs) ∷ answers) f given may r =
    after_round-Settles c f (receive reallocs f b) _ r
      (receive-RoundKeeps reallocs f b given (omega arith) r.in_bounds)
      (λ f' r' le. read_loop-Settles reallocs c answers f' given (omega arith) r')

-- Where memory is found for the buffer, and the peer sends fewer bytes than 2^31 - 1024, whatever they
-- are, reading a frame with an object whose buffer is in bounds never touches memory outside the
-- buffer: where it returns or fails with an error, the buffer is in bounds, with room; a return has
-- resumed every request that it suspended, and an error has left one more request suspended.
pub read_ws_packet-Settles :
    (reallocs : ℕ → Bool) (depth : ℕ) (answers : List Answer) (c : Ctx)
    → ((n : ℕ) → reallocs n ≡ true)
    → length answers + 1024 < 2 ^ 31
    → IsSized c
    → Settles c (read_ws_packet reallocs depth answers (some c))
unfolding read_ws_packet
read_ws_packet-Settles reallocs depth answers c given few v =
    read_loop-Settles reallocs c answers _ given (omega arith)
      (record { in_bounds = (omega arith, v.fits); pending = v.room; one_suspended = omega arith })
