-- ===== src/Socket/ReadBytes/Counts.antt =====
-- What `js_sock_read_bytes` of src/js_socket.cpp returns for a count, and what it keeps.
use sysjs.Host.{Engine, JsVal, Returns, Returns-mono, array, bool, resume_request, suspended}
use sysjs.Prelude.{
  Holds, Holds-agree, Holds-append, Holds-store, List, Memory, [], ap, arith, false, leb, length,
  length-take, le→leb, le→not_ltb, ltb, move_down, pos, refl, slice, slice-Holds, some, store,
  store_all, store_all-Holds, subst, sym, take, take_all, true, ℕ, ◌++◌, ◌+◌, ◌-◌, ◌<◌, ◌∙◌, ◌∷◌,
  ◌≡◌, ◌≢◌, ◌≤◌,
}
use sysjs.Socket.{Answer, Ctx, IsSized, failed, got, resume, suspend}
use sysjs.Socket.ReadBytes.{
  after_read, bytes_wanted, deliver, fetch, int_limit, make_room, read_bytes, read_count,
}
use sysjs.Socket.ReadBytes.Room.{
  Fits, bytes_wanted_lem, read_bytes-fetch, roomy, roomy-Roomy, roomy-above,
}
use sysjs.SysUtil.{answer}

fetch-partial :
    (depth n : ℕ) (answer : Answer) (c : Ctx)
    → IsSized c
    → n ≤ c.buffer_size
    → n < int_limit
    → 0 < c.buffer_pos
    → c.buffer_pos < n
    → Returns
        (bool false)
        (λ c'. (c'.buffer_pos ≡ c.buffer_pos) × (suspended c'.calls ≡ suspended c.calls))
        (fetch depth answer c n)
unfolding fetch after_read
fetch-partial depth n (failed errno) c z le lim p lt = ground arith
fetch-partial depth n (got bytes) c z le lim p lt = ground (
  arith,
  bytes_wanted_lem (suspend depth c) n,
  length-take (bytes_wanted (suspend depth c) n) bytes,
)

-- If some bytes wait in a buffer in bounds but fewer than are asked for, and the larger block
-- stays below the bound of an `int`, the call returns false, whatever the socket brings, and
-- counts none of the bytes that it has read: no answer makes up the rest.
pub read_bytes-partial :
    (engine : Engine) (depth n : ℕ) (answer : Answer) (v : JsVal) (c : Ctx)
    → engine.to_int32 v ≡ pos n
    → Fits c n
    → IsSized c
    → 0 < c.buffer_pos
    → c.buffer_pos < n
    → Returns
        (bool false)
        (λ c'. (c'.buffer_pos ≡ c.buffer_pos) × (suspended c'.calls ≡ suspended c.calls))
        (read_bytes engine depth answer (v ∷ []) (some c))
read_bytes-partial engine depth n answer v c e f z p lt =
    let r = roomy-Roomy c n z in
    rw (read_bytes-fetch engine depth n answer v c e f) (
      Returns-mono (bool false) (fetch depth answer (roomy c n) n)
        (λ c' h. (h.0 ∙ r.position, h.1 ∙ ap suspended r.calls))
        (fetch-partial depth n answer (roomy c n) r.sized r.large (omega arith)
          (omega (arith, r.position)) (omega (arith, r.position))))

-- All the bytes asked for have come into an empty buffer.
deliver-whole :
    (bytes : List ℕ) (c : Ctx)
    → length bytes < c.allocated
    → c.buffer_pos ≡ 0
    → Holds c.read_buffer 0 bytes
    → Returns
        (array bytes)
        (λ c'. (c'.buffer_pos ≡ 0) × (c'.calls ≡ c.calls))
        (deliver c (length bytes))
unfolding deliver
deliver-whole bytes c lt e h = ground (
  arith,
  slice-Holds (store c.read_buffer (length bytes) 0) 0 (length bytes) bytes refl
      (Holds-store c.read_buffer 0 (length bytes) 0 bytes (omega arith) h),
)

after_read-whole :
    (bytes : List ℕ) (c : Ctx)
    → length bytes < c.allocated
    → length bytes < int_limit
    → c.buffer_pos ≡ 0
    → Returns
        (array bytes)
        (λ c'. (c'.buffer_pos ≡ 0) × (c'.calls ≡ resume_request c.save_depth ∷ c.calls))
        (after_read c (length bytes) (got bytes))
unfolding after_read
after_read-whole bytes c lt lim e =
    rw
      (
        all,
        le→leb (c.buffer_pos + length bytes) c.allocated (omega (arith, e)),
        le→not_ltb (length bytes) (length bytes) (omega arith),
      )
      (deliver-whole bytes filled lt e (
        subst (λ n. Holds (store_all c.read_buffer n bytes) 0 bytes) (sym e)
          (store_all-Holds c.read_buffer 0 bytes)))
  where
    all : take (bytes_wanted c (length bytes)) bytes ≡ bytes
    all = take_all _ bytes (omega (arith, bytes_wanted_lem c (length bytes) (omega arith) lim))

    filled : Ctx
    filled = resume (record c {
      socket = record c.socket { read_buffer = store_all c.read_buffer c.buffer_pos bytes };
    })

fetch-asks :
    (depth n : ℕ) (answer : Answer) (c : Ctx)
    → c.buffer_pos < n
    → fetch depth answer c n ≡ after_read (suspend depth c) n answer
unfolding fetch
fetch-asks depth n answer c lt = ground arith

fetch-whole :
    (depth : ℕ) (bytes : List ℕ) (c : Ctx)
    → length bytes < c.allocated
    → length bytes < int_limit
    → c.buffer_pos ≡ 0
    → 0 < length bytes
    → Returns
        (array bytes)
        (λ c'. (c'.buffer_pos ≡ 0) × (suspended c'.calls ≡ suspended c.calls))
        (fetch depth (got bytes) c (length bytes))
fetch-whole depth bytes c lt lim e p =
    rw (fetch-asks depth (length bytes) (got bytes) c (omega (arith, e))) (
      Returns-mono (array bytes) (after_read (suspend depth c) (length bytes) (got bytes))
        (λ c' h. (h.0, ground (arith, h.1))) (after_read-whole bytes (suspend depth c) lt lim e))

-- If nothing waits in a buffer in bounds, the larger block stays below the bound of an `int`, and
-- the socket brings as many bytes as are asked for, at least one, these are returned as an array,
-- and nothing waits after the call. The count must not be the size of the block: the terminator
-- would go behind it.
pub read_bytes-whole :
    (engine : Engine) (depth : ℕ) (bytes : List ℕ) (v : JsVal) (c : Ctx)
    → engine.to_int32 v ≡ pos (length bytes)
    → Fits c (length bytes)
    → IsSized c
    → c.buffer_pos ≡ 0
    → 0 < length bytes
    → length bytes ≢ c.buffer_size
    → Returns
        (array bytes)
        (λ c'. (c'.buffer_pos ≡ 0) × (suspended c'.calls ≡ suspended c.calls))
        (read_bytes engine depth (got bytes) (v ∷ []) (some c))
read_bytes-whole engine depth bytes v c e f z p q ne =
    let r = roomy-Roomy c (length bytes) z in
    rw (read_bytes-fetch engine depth (length bytes) (got bytes) v c e f) (
      Returns-mono (array bytes) (fetch depth (got bytes) (roomy c (length bytes)) (length bytes))
        (λ c' h. (h.0, h.1 ∙ ap suspended r.calls))
        (fetch-whole depth bytes (roomy c (length bytes)) (roomy-above c bytes z ne) (omega arith)
          (r.position ∙ p) q))

-- A count of bytes that wait in a buffer in bounds, with at least one more behind them, is
-- returned whatever the socket answers. The terminator written behind them is then moved down
-- with the rest: the first byte that still waits is 0, whatever it was.
pub read_bytes-waiting :
    (engine : Engine) (depth : ℕ) (answer : Answer) (v : JsVal) (c : Ctx) (xs ys : List ℕ) (y : ℕ)
    → engine.to_int32 v ≡ pos (length xs)
    → IsSized c
    → c.buffer_pos ≡ length xs + 1 + length ys
    → Holds c.read_buffer 0 (xs ++ y ∷ ys)
    → Returns
        (array xs)
        (λ c'.
          (c'.buffer_pos ≡ length ys + 1)
          × Holds c'.read_buffer 0 (0 ∷ ys)
          × (suspended c'.calls ≡ suspended c.calls))
        (read_bytes engine depth answer (v ∷ []) (some c))
unfolding read_bytes read_count make_room fetch deliver
read_bytes-waiting engine depth answer v c xs ys y i z e h =
    rw (i, read_count, no_room, here) (ground (arith, bytes_out, left, moved))
  where
    parts : Holds c.read_buffer 0 xs × Holds c.read_buffer (length xs) (y ∷ ys)
    parts = ground (arith, Holds-append c.read_buffer 0 xs (y ∷ ys) h)

    no_room : ltb c.buffer_size (length xs) ≡ false
    no_room = ground arith

    here : leb (length xs) c.buffer_pos ≡ true
    here = ground arith

    mem : Memory
    mem = store c.read_buffer (length xs) 0

    bytes_out : slice mem 0 (length xs) ≡ xs
    bytes_out =
        slice-Holds mem 0 (length xs) xs refl
          (Holds-store c.read_buffer 0 (length xs) 0 xs (omega arith) parts.0)

    left : c.buffer_pos - length xs ≡ length ys + 1
    left = omega arith

    moved : Holds (move_down mem (length xs) (c.buffer_pos - length xs)) 0 (0 ∷ ys)
    moved = (
      ground (arith, left),
      Holds-agree c.read_buffer (move_down mem (length xs) (c.buffer_pos - length xs))
          (length xs + 1) 1 ys (λ j lt. ground (arith, left)) parts.1.1,
    )
