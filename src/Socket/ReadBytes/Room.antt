-- ===== src/Socket/ReadBytes/Room.antt =====
-- The room that `js_sock_read_bytes` of src/js_socket.cpp makes for the bytes asked for.
use sysjs.Host.{Engine, JsVal}
use sysjs.Prelude.{
  Bool-cases, List, [], arith, if◌then◌else◌, inl, inr, length, ltb, pos, refl, some, ℕ, ◌+◌, ◌-◌,
  ◌<◌, ◌∷◌, ◌≡◌, ◌≢◌, ◌≤◌,
}
use sysjs.Socket.{Answer, Ctx, IsSized}
use sysjs.Socket.ReadBytes.{bytes_wanted, fetch, int_limit, make_room, read_bytes, read_count}
use sysjs.SysUtil.{answer}

-- A count for which no sum leaves the range of an `int`.
abbrev pub Fits : Ctx → ℕ → Type 0
Fits c n = c.buffer_size + n + 1024 < int_limit

-- The object with room for a count.
pub roomy : Ctx → ℕ → Ctx
roomy c n =
    if ltb c.buffer_size n
    then record c {
      socket = record c.socket {
        buffer_size = c.buffer_size + n + 1;
        allocated = c.buffer_size + n + 1024;
      };
    }
    else c

make_room-roomy : (c : Ctx) (n : ℕ) → Fits c n → make_room c n ≡ some (roomy c n)
unfolding make_room roomy
make_room-roomy c n f = ground arith

pub record Roomy (c : Ctx) (n : ℕ) (c' : Ctx) : Type 0 where
  pub sized : IsSized c'
  pub large : n ≤ c'.buffer_size
  pub buffer : c'.read_buffer ≡ c.read_buffer
  pub position : c'.buffer_pos ≡ c.buffer_pos
  pub calls : c'.calls ≡ c.calls

-- Making room keeps what is in the block, and leaves the block large enough.
pub roomy-Roomy : (c : Ctx) (n : ℕ) → IsSized c → Roomy c n (roomy c n)
unfolding roomy
roomy-Roomy c n z = elim (Bool-cases (ltb c.buffer_size n)) [
  | inl short ↦
      rw (short, roomy)
        (record {
          sized = record { fits = omega arith; room = omega arith };
          large = omega arith;
          buffer = refl;
          position = refl;
          calls = refl;
        })
  | inr enough ↦
      rw (enough, roomy)
        (record { sized = z; large = ground arith; buffer = refl; position = refl; calls = refl })
]

pub roomy-above :
    (c : Ctx) (bytes : List ℕ)
    → IsSized c
    → length bytes ≢ c.buffer_size
    → length bytes < (roomy c (length bytes)).allocated
unfolding roomy
roomy-above c bytes z ne = ground arith

-- A call with one argument is a fetch, once there is room.
pub read_bytes-fetch :
    (engine : Engine) (depth n : ℕ) (answer : Answer) (v : JsVal) (c : Ctx)
    → engine.to_int32 v ≡ pos n
    → Fits c n
    → read_bytes engine depth answer (v ∷ []) (some c) ≡ fetch depth answer (roomy c n) n
unfolding read_bytes read_count
read_bytes-fetch engine depth n answer v c e f = rw (e, read_count, make_room-roomy c n f) refl

pub bytes_wanted_lem :
    (c : Ctx) (n : ℕ) → c.buffer_pos ≤ n → n < int_limit → bytes_wanted c n ≡ n - c.buffer_pos
unfolding bytes_wanted
bytes_wanted_lem c n le lt = omega arith
