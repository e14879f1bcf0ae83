-- ===== src/Socket/ReadLine.antt =====
-- Lines: `js_sock_read` of src/js_socket.cpp, with the bytes that it keeps for the next call in
-- `read_buffer[0 .. buffer_pos)`.
pub mod Lines
pub mod Fresh
pub mod Pending
pub mod Losses
use sysjs.Host.{Outcome, blocked, bool, fault, returned, system_error, thrown}
use sysjs.Prelude.{
  Bool, List, Memory, Option, [], c_string, false, if◌then◌else◌, leb, length, ltb, move_down, none,
  some, store, store_all, suc, take, true, zero, ℕ, ◌&&◌, ◌+◌, ◌-◌, ◌==◌, ◌^◌, ◌∷◌,
}
use sysjs.Socket.{Answer, Ctx, failed, got, reply_text, resume, suspend, with_socket}

-- `while (*p != '\n' && rounds left) p++`, which reads `*p` before it counts. `none` where it reads
-- past the block.
pub scan : Memory → ℕ → ℕ → ℕ → Option ℕ
scan mem size p zero = if ltb p size then some p else none
scan mem size p (suc rounds) =
    let rest = scan mem size (p + 1) rounds in
    if ltb p size then (if mem p == b'\n' then some p else rest) else none

-- The NUL in place of the newline, and of a carriage return before it.
pub end_line : Memory → ℕ → Memory
end_line mem p =
    let mem' = store mem p 0 in
    if ltb 0 p && mem' (p - 1) == b'\r' then store mem' (p - 1) 0 else mem'

-- What stays in the buffer.
abbrev pub keep : Ctx → Memory → ℕ → Ctx
keep c mem n = record c { socket = record c.socket { read_buffer = mem; buffer_pos = n } }

-- A line that was waiting in the buffer, with its newline at `p`.
pub pending_line : Ctx → ℕ → Outcome Ctx
unfolding end_line
pending_line c p =
    let mem = end_line c.read_buffer p in
    let ret = c.buffer_pos - p in
    if leb (p + 1 + ret) c.allocated
    then reply_text (keep c (move_down mem (p + 1) ret) ret) (c_string mem 0 c.allocated)
    else fault

-- Behind the newline at `p` stand `r` more bytes of what was read; the kernel's count had one more.
pub new_line : Ctx → ℕ → ℕ → Outcome Ctx
unfolding end_line
new_line c p zero = fault
new_line c p (suc r) =
    let mem = end_line c.read_buffer p in
    if leb (p + 1 + r) c.allocated
    then reply_text (keep c (store (move_down mem (p + 1) r) r 0) r) (c_string mem 0 c.allocated)
    else fault

-- After the loop, with `read_buffer` at `p` and `ret` bytes from there on.
pub after_loop : Ctx → ℕ → ℕ → Outcome Ctx
unfolding new_line
after_loop c p ret =
    if ltb p c.allocated
    then (if c.read_buffer p == b'\n' then new_line c p ret else returned (bool false) c)
    else fault

-- The larger buffer, and where the next bytes go. `reallocs` is for which sizes JS_realloc finds memory:
-- its answer is not looked at, so that NULL is used as the block, and the size is an `int`. `none` is
-- either of the two.
pub enlarge : (ℕ → Bool) → Ctx → ℕ → Option Ctx
enlarge reallocs c read_size =
    if ltb (c.buffer_size + 1024) (2 ^ 31) && reallocs (c.buffer_size + 1024)
    then some (record c {
      socket = record c.socket {
        buffer_size = c.buffer_size + 1024;
        allocated = c.buffer_size + 1024;
        buffer_pos = read_size;
      };
    })
    else none

abbrev pub go_on : Option Ctx → (Ctx → Outcome Ctx) → Outcome Ctx
go_on none loop = fault
go_on (some c) loop = loop c

-- What a round does with the bytes read, and the scan's end among them.
abbrev pub next_round : (ℕ → Bool) → Ctx → ℕ → ℕ → Option ℕ → (Ctx → Outcome Ctx) → Outcome Ctx
next_round reallocs c n read_size none loop = fault
next_round reallocs c n read_size (some p) loop =
    let ret = c.buffer_pos + n - p in
    let larger = if leb ret 8 then enlarge reallocs c read_size else some c in
    elim (c.read_buffer p == b'\n') [
      | true ↦ after_loop (resume c) p ret
      | false ↦ go_on larger loop
    ]

-- One answer that brings bytes: they go behind what is there, and are searched for a newline.
pub take_in : (ℕ → Bool) → Ctx → List ℕ → (Ctx → Outcome Ctx) → Outcome Ctx
unfolding scan store_all enlarge
take_in reallocs c bytes loop =
    if length bytes == 0
    then after_loop (resume c) c.buffer_pos 0
    else (if leb (c.buffer_pos + length bytes) c.allocated
        then next_round reallocs c' (length bytes) (c.buffer_size - c.buffer_pos)
            (scan c'.read_buffer c.allocated c.buffer_pos (length bytes)) loop
        else fault)
  where
    c' : Ctx
    c' = keep c (store_all c.read_buffer c.buffer_pos bytes) c.buffer_pos

-- The loop over the answers of read(2), which asks for what the buffer has room for.
pub read_more : (ℕ → Bool) → Ctx → List Answer → Outcome Ctx
read_more reallocs c [] = blocked
read_more reallocs c (failed errno ∷ answers) = thrown (system_error errno) c
read_more reallocs c (got bytes ∷ answers) =
    let more =
      take_in reallocs c (take (c.buffer_size - c.buffer_pos) bytes)
        (λ c'. read_more reallocs c' answers) in
    if ltb c.buffer_size c.buffer_pos then fault else more

-- The search of the waiting bytes, which looks at two bytes behind them.
abbrev pub found_pending : Ctx → Option ℕ → Outcome Ctx → Outcome Ctx
found_pending c none otherwise = fault
found_pending c (some p) otherwise =
    if c.read_buffer p == b'\n' then pending_line c p else otherwise

pub read : (ℕ → Bool) → ℕ → List Answer → Option Ctx → Outcome Ctx
unfolding scan
read reallocs depth answers private = with_socket none private λ c.
    let more = read_more reallocs (suspend depth c) answers in
    if ltb 0 c.buffer_pos
    then found_pending c (scan c.read_buffer c.allocated 0 (c.buffer_pos + 1)) more
    else more
