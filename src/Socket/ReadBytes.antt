-- ===== src/Socket/ReadBytes.antt =====
-- A given number of bytes: `js_sock_read_bytes` of src/js_socket.cpp.
mod Room
pub mod Counts
use sysjs.Host.{Engine, JsVal, Outcome, array, bool, fault, returned, void}
use sysjs.Prelude.{
  List, Option, [], false, if◌then◌else◌, leb, length, ltb, move_down, negsuc, none, pos, slice,
  some, store, store_all, take, ℕ, ℤ, ◌%◌, ◌&&◌, ◌+◌, ◌-◌, ◌^◌, ◌∷◌,
}
use sysjs.Socket.{Answer, Ctx, failed, got, resume, suspend, with_socket}

-- The 32-bit `int` that a sum must fit; past it the sum is undefined.
abbrev pub int_limit : ℕ
int_limit = 2 ^ 31

-- `js_sock->buffer_size < bytes_to_read`: a block that is larger by 1024 bytes than the two
-- together, of which `buffer_size` counts all but 1023.
pub make_room : Ctx → ℕ → Option Ctx
make_room c n =
    if ltb c.buffer_size n
    then (if ltb (c.buffer_size + n + 1024) int_limit
        then some (record c {
          socket = record c.socket {
            buffer_size = c.buffer_size + n + 1;
            allocated = c.buffer_size + n + 1024;
          };
        })
        else none)
    else some c

-- The count that read(2) is asked for, a `size_t` : `len` less what waits in the buffer.
pub bytes_wanted : Ctx → ℕ → ℕ
bytes_wanted c n = (n + 2 ^ 64 - c.buffer_pos) % 2 ^ 64

-- All the bytes are there: they are returned, with a terminator written over the byte behind
-- them, and what waits behind them moves down. `buffer_pos - n` is negative where fewer than n
-- bytes wait, and memmove(3) then runs out of the block.
pub deliver : Ctx → ℕ → Outcome Ctx
unfolding slice
deliver c n =
    let mem = store c.read_buffer n 0 in
    let arr = array (slice mem 0 n) in
    if ltb n c.allocated
    then (if ltb 0 c.buffer_pos
        then (if leb n c.buffer_pos && leb c.buffer_pos c.allocated && leb c.buffer_pos c.allocated
            then returned arr (record c {
              socket = record c.socket {
                read_buffer = move_down mem n (c.buffer_pos - n);
                buffer_pos = c.buffer_pos - n;
              };
            })
            else fault)
        else returned arr (record c { socket = record c.socket { read_buffer = mem } }))
    else fault

-- What read(2) answers, with fewer bytes than were asked for told by `false`; the bytes read are in
-- the block, and nothing counts them.
pub after_read : Ctx → ℕ → Answer → Outcome Ctx
unfolding deliver store_all
after_read c n (failed errno) = returned (bool false) (resume c)
after_read c n (got bytes) =
    let bs = take (bytes_wanted c n) bytes in
    if leb (c.buffer_pos + length bs) c.allocated
    then (if ltb (length bs) n then returned (bool false) c' else deliver c' n)
    else fault
  where
    c' : Ctx
    c' = resume (record c {
      socket = record c.socket {
        read_buffer = store_all c.read_buffer c.buffer_pos (take (bytes_wanted c n) bytes);
      };
    })

-- With enough bytes in the buffer read(2) is not called.
pub fetch : ℕ → Answer → Ctx → ℕ → Outcome Ctx
unfolding deliver after_read
fetch depth answer c n =
    if leb n c.buffer_pos
    then deliver (resume (suspend depth c)) n
    else after_read (suspend depth c) n answer

-- A negative count is the length of an array on the stack, and the index of a write.
pub read_count : ℕ → Answer → Ctx → ℤ → Outcome Ctx
unfolding make_room fetch
read_count depth answer c (negsuc k) = fault
read_count depth answer c (pos n) = elim (make_room c n) [
  | none ↦ fault
  | some c' ↦ fetch depth answer c' n
]

pub read_bytes : Engine → ℕ → Answer → List JsVal → Option Ctx → Outcome Ctx
unfolding read_count
read_bytes engine depth answer args private =
    with_socket none private λ c. elim args [
      | v ∷ [] ↦ read_count depth answer c (engine.to_int32 v)
      | _ ↦ returned void c
    ]
