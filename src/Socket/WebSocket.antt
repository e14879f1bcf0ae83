-- ===== src/Socket/WebSocket.antt =====
-- The WebSocket frames of src/js_socket.cpp: `js_sock_read_ws_packet` and
-- `js_sock_write_ws_packet`. A frame is 0x00, the text in UTF-8, and 0xff.
pub mod Safety
pub mod Framing
use sysjs.Host.{
  Engine, JsVal, Outcome, blocked, fault, returned, short_write, system_error, thrown, void,
}
use sysjs.Prelude.{
  Bool, List, Option, [], c_string, false, if◌then◌else◌, length, ltb, none, some, store, ℕ, ◌&&◌,
  ◌+◌, ◌==◌, ◌^◌, ◌∷◌,
}
use sysjs.Socket.{
  Answer, Ctx, Written, failed, got, reply_text, resume, suspend, with_socket, write_failed,
  write_to, wrote,
}

-- The locals of the loop: whether the 0x00 has been seen, and `total_length`.
pub record Frame : Type 0 where
  pub synced : Bool
  pub total_length : ℕ
  pub ctx : Ctx

-- Room for one more byte and a terminator, 1024 bytes at a time. `reallocs` is for which sizes JS_realloc
-- finds memory: its answer is not looked at, so that NULL is used as the block, and the size is an
-- `int`. `none` is either of the two.
pub grow : (ℕ → Bool) → Ctx → ℕ → Option Ctx
grow reallocs c total =
    if total + 1 == c.buffer_size
    then if ltb (c.buffer_size + 1024) (2 ^ 31) && reallocs (c.buffer_size + 1024)
      then some (record c {
        socket = record c.socket {
          buffer_size = c.buffer_size + 1024;
          allocated = c.buffer_size + 1024;
        };
      })
      else none
    else some c

pub data Round : Type 0 where
  more done : Frame → Round
  overrun : Round

-- `read_buffer[i] = b`, outside the block where `i` is.
abbrev pub put_byte : Ctx → ℕ → ℕ → Ctx
put_byte c i b = record c { socket = record c.socket { read_buffer = store c.read_buffer i b } }

-- The byte goes into the buffer, and 0xff ends the frame.
abbrev pub place_byte : Frame → ℕ → Option Ctx → Round
place_byte f b none = overrun
place_byte f b (some c) =
    let c' = put_byte c f.total_length b in
    if ltb f.total_length c.allocated
    then (if b == 0xff
        then done (record f { ctx = c' })
        else more (record f { total_length = f.total_length + 1; ctx = c' }))
    else overrun

-- One round of the loop, with the byte that it has read.
pub receive : (ℕ → Bool) → Frame → ℕ → Round
unfolding grow
receive reallocs f b =
    if f.synced
    then place_byte f b (grow reallocs f.ctx f.total_length)
    else more (record f { synced = b == 0x00 })

-- After the loop: the string that the buffer holds up to its first NUL.
pub finish : Frame → Outcome Ctx
finish f =
    if ltb f.total_length c.allocated
    then reply_text c (c_string c.read_buffer 0 c.allocated)
    else fault
  where
    c : Ctx
    c = put_byte (resume f.ctx) f.total_length 0

-- Go on with the loop, leave it, or have used what is no memory of the block.
abbrev pub after_round : Round → (Frame → Outcome Ctx) → Outcome Ctx
after_round (more f) loop = loop f
after_round (done f) loop = finish f
after_round overrun loop = fault

-- The loop, over the answers of read(2) to its calls for one byte.
pub read_loop : (ℕ → Bool) → Frame → List Answer → Outcome Ctx
read_loop reallocs f [] = blocked
read_loop reallocs f (failed errno ∷ answers) = thrown (system_error errno) f.ctx
read_loop reallocs f (got [] ∷ answers) = finish f
read_loop reallocs f (got (b ∷ _) ∷ answers) =
    after_round (receive reallocs f b) (λ f'. read_loop reallocs f' answers)

pub read_ws_packet : (ℕ → Bool) → ℕ → List Answer → Option Ctx → Outcome Ctx
unfolding read_loop
read_ws_packet reallocs depth answers private = with_socket none private λ c.
    read_loop reallocs (record { synced = false; total_length = 0; ctx = suspend depth c }) answers

-- Only the answer to the second write, of the text, is looked at.
pub write_ws_packet : Engine → ℕ → Written → List JsVal → Option Ctx → Outcome Ctx
write_ws_packet engine depth answer args private = with_socket none private λ c. elim args [
  | v ∷ [] ↦
      let buffer = engine.to_bytes v in
      let fd = c.sock in
      let c' = resume (
        write_to fd (0xff ∷ []) (write_to fd buffer (write_to fd (0x00 ∷ []) (suspend depth c)))) in
      elim answer [
        | wrote n ↦ if n == length buffer then returned void c' else thrown (short_write n) c'
        | write_failed errno ↦ thrown (system_error errno) c'
      ]
  | _ ↦ returned void c
]
