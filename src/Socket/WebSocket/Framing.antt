-- ===== src/Socket/WebSocket/Framing.antt =====
-- What is read from the frames of `js_sock_write_ws_packet` of src/js_socket.cpp.
use sysjs.Host.{Call, Engine, JsVal, Outcome, string, value_of, written}
use sysjs.Prelude.{
  Bool, Holds, Holds-snoc, Holds-store, List, Without, Without-append, [], append-nil, append_assoc,
  arith, c_string-Holds, false, if◌then◌else◌, length, length-append, refl, some, store, true, ℕ,
  ◌++◌, ◌+◌, ◌<◌, ◌==◌, ◌∷◌, ◌≡◌, ◌≢◌, ◌≤◌,
}
use sysjs.Socket.{Answer, Ctx, IsSized, byte_answers, calls_of, suspend, wrote}
use sysjs.Socket.WebSocket.{
  Frame, after_round, finish, grow, more, put_byte, read_loop, read_ws_packet, receive,
  write_ws_packet,
}
use sysjs.Socket.WebSocket.Safety.{InBounds}

-- The bytes that a socket has been sent, in order.
abbrev pub wire : List Call → List ℕ
wire [] = []
wire (written fd bytes ∷ calls) = wire calls ++ bytes
wire (c ∷ calls) = wire calls

-- What one write(2) transfers at most.
abbrev pub write_most : ℕ
write_most = 0x7ffff000

module _ (reallocs : ℕ → Bool) (given : (n : ℕ) → reallocs n ≡ true) where
  -- Before a frame begins, every byte but 0x00 is skipped.
  read_loop-skip :
      (f : Frame) (junk bs : List ℕ) (rest : List Answer)
      → f.synced ≡ false
      → Without 0 junk
      → read_loop reallocs f (byte_answers (junk ++ 0 ∷ bs) ++ rest)
        ≡ read_loop reallocs (record f { synced = true }) (byte_answers bs ++ rest)
  unfolding read_loop receive
  read_loop-skip f [] bs rest e w = ground arith
  read_loop-skip f (b ∷ junk) bs rest e w = ground (arith, read_loop-skip f junk bs rest e w.1)

  -- The object's data with room for one more byte.
  with_room : Ctx → ℕ → Ctx
  with_room c total =
      if total + 1 == c.buffer_size
      then record c {
        socket = record c.socket {
          buffer_size = c.buffer_size + 1024;
          allocated = c.buffer_size + 1024;
        };
      }
      else c

  grow-with_room :
      (c : Ctx) (total : ℕ) → total ≤ write_most → grow reallocs c total ≡ some (with_room c total)
  unfolding grow with_room
  grow-with_room c total le = ground (arith, given (c.buffer_size + 1024))

  -- The loop's state after a byte of the text.
  taken : Frame → ℕ → Frame
  taken f b = record f {
    total_length = f.total_length + 1;
    ctx = put_byte (with_room f.ctx f.total_length) f.total_length b;
  }

  -- What holds while a text is read: the buffer holds `before`.
  record Reading (f : Frame) (before : List ℕ) : Type 0 where
    in_frame : f.synced ≡ true
    in_bounds : InBounds f
    count : f.total_length ≡ length before
    holds : Holds f.ctx.read_buffer 0 before
    no_nul : Without 0 before
    short : length before ≤ write_most

  receive-text :
      (f : Frame) (before : List ℕ) (b : ℕ)
      → Reading f before
      → b ≢ 0xff
      → receive reallocs f b ≡ more (taken f b)
  unfolding receive with_room taken
  receive-text f before b r ne =
      rw
        (receive, r.in_frame, grow-with_room f.ctx f.total_length (omega (arith, r.count, r.short)))
        (ground (arith, r.in_bounds))

  taken-Reading :
      (f : Frame) (before : List ℕ) (b : ℕ)
      → Reading f before
      → length before < write_most
      → b ≢ 0
      → Reading (taken f b) (before ++ b ∷ [])
  unfolding with_room taken
  taken-Reading f before b r lt ne = record {
    in_frame = r.in_frame;
    in_bounds = ground (arith, r.in_bounds);
    count = omega (arith, r.count, length-append before (b ∷ []));
    holds =
        ground (arith, Holds-snoc f.ctx.read_buffer 0 f.total_length b before, r.count, r.holds);
    no_nul = Without-append 0 before (b ∷ []) r.no_nul (ne, tt);
    short = omega (arith, lt, length-append before (b ∷ []));
  }

  finish-value :
      (f : Frame) (before : List ℕ)
      → f.total_length ≡ length before
      → f.total_length < f.ctx.allocated
      → Holds f.ctx.read_buffer 0 before
      → Without 0 before
      → value_of (finish f) ≡ some (string before)
  unfolding finish
  finish-value f before e lt h w = ground (
    arith,
    c_string-Holds (store f.ctx.read_buffer f.total_length 0) 0 f.ctx.allocated before
        (Holds-store f.ctx.read_buffer 0 f.total_length 0 before (omega arith) h) w (ground arith)
        (omega arith),
  )

  -- The 0xff ends the frame; it is overwritten by the terminator.
  receive-end :
      (f : Frame) (before : List ℕ) (loop : Frame → Outcome Ctx)
      → Reading f before
      → value_of (after_round (receive reallocs f 0xff) loop) ≡ some (string before)
  unfolding receive with_room
  receive-end f before loop r =
      rw
        (receive, r.in_frame, grow-with_room f.ctx f.total_length (omega (arith, r.count, r.short)))
        (ground (
          arith,
          r.in_bounds,
          finish-value
              (record f { ctx = put_byte (with_room f.ctx f.total_length) f.total_length 0xff })
              before r.count (ground (arith, r.in_bounds))
              (ground (
                arith,
                Holds-store f.ctx.read_buffer 0 f.total_length 0xff before,
                r.count,
                r.holds,
              ))
              r.no_nul,
        ))

  -- The text of a frame goes into the buffer behind what is there, up to its 0xff.
  read_loop-text :
      (s : List ℕ) (f : Frame) (before : List ℕ) (rest : List Answer)
      → Reading f before
      → length before + length s ≤ write_most
      → Without 0 s
      → Without 0xff s
      → value_of (read_loop reallocs f (byte_answers (s ++ 0xff ∷ []) ++ rest))
        ≡ some (string (before ++ s))
  unfolding read_loop
  read_loop-text [] f before rest r le w0 wf = rw append-nil (receive-end f before _ r)
  read_loop-text (b ∷ s) f before rest r le w0 wf =
      rw (receive-text f before b r wf.0, ← append_assoc before (b ∷ []) s)
        (read_loop-text s (taken f b) (before ++ b ∷ []) rest
          (taken-Reading f before b r (omega arith) w0.0)
          (omega (arith, length-append before (b ∷ []))) w0.1 wf.1)

-- What a write of a whole frame puts on the wire.
wire-write_ws_packet :
    (engine : Engine) (depth : ℕ) (v : JsVal) (c : Ctx)
    → wire (
        calls_of
          (write_ws_packet engine depth (wrote (length (engine.to_bytes v))) (v ∷ []) (some c)))
      ≡ wire c.calls ++ 0 ∷ engine.to_bytes v ++ 0xff ∷ []
unfolding write_ws_packet
wire-write_ws_packet engine depth v c =
    ground (arith, append_assoc (wire c.calls) (0 ∷ []) (engine.to_bytes v))

-- A text without 0x00 and 0xff that `write_ws_packet` sends whole on a fresh socket, and which thus is no
-- longer than write(2) transfers at once, is what `read_ws_packet` returns at the other end, where the
-- buffer is in bounds and memory is found to enlarge it, whatever bytes other than 0x00 came before, and
-- whatever comes after.
pub read_ws_packet-write_ws_packet :
    (reallocs : ℕ → Bool) (engine : Engine) (depth depth' : ℕ) (v : JsVal) (sender receiver : Ctx)
    (junk : List ℕ) (rest : List Answer)
    → ((n : ℕ) → reallocs n ≡ true)
    → length (engine.to_bytes v) ≤ write_most
    → IsSized receiver
    → sender.calls ≡ []
    → Without 0 junk
    → Without 0 (engine.to_bytes v)
    → Without 0xff (engine.to_bytes v)
    → let answer = wrote (length (engine.to_bytes v)) in
      let sent = wire (calls_of (write_ws_packet engine depth answer (v ∷ []) (some sender))) in
      value_of
        (read_ws_packet reallocs depth' (byte_answers (junk ++ sent) ++ rest) (some receiver))
      ≡ some (string (engine.to_bytes v))
unfolding read_ws_packet
read_ws_packet-write_ws_packet reallocs engine depth depth' v sender receiver junk rest given whole
      z e wj w0 wf =
    rw (wire-write_ws_packet engine depth v sender, e)
      (rw
        (read_loop-skip reallocs given
          (record { synced = false; total_length = 0; ctx = suspend depth' receiver }) junk
          (engine.to_bytes v ++ 0xff ∷ []) rest refl wj)
        (read_loop-text reallocs given (engine.to_bytes v) start [] rest reading (omega arith) w0
          wf))
  where
    start : Frame
    start = record { synced = true; total_length = 0; ctx = suspend depth' receiver }

    reading : Reading reallocs given start []
    reading = record {
      in_frame = refl;
      in_bounds = omega arith;
      count = refl;
      holds = tt;
      no_nul = tt;
      short = omega arith;
    }
