-- ===== src/Prelude/Bytes.antt =====
-- Blocks of bytes: the content of a block at each offset, what is copied into it, and the text that
-- it holds. What a block holds past what was written is any number, so nothing is assumed of it.
use Prim.Native.Nat.{ℕ, zero, suc, ◌+◌}
use mathlib.Core.Path.{◌≡◌}
use mathlib.Core.Logic.{◌≢◌}
use mathlib.Core.Option
use mathlib.Core.Option.{Option, none, some}
use mathlib.Core.List.{List, [], ◌∷◌}
use sysjs.Prelude.Tests.{ltb, ◌==◌, if◌then◌else◌}

abbrev pub Memory : Type 0
Memory = ℕ → ℕ

-- `mem[i] = b`
abbrev pub store : Memory → ℕ → ℕ → Memory
store mem i b j = if j == i then b else mem j

-- `memcpy(mem + i, bytes, length bytes)`
unfoldable pub store_all : Memory → ℕ → List ℕ → Memory
store_all mem i [] = mem
store_all mem i (b ∷ bs) = store_all (store mem i b) (i + 1) bs

-- `memmove(mem, mem + from, n)`
abbrev pub move_down : Memory → ℕ → ℕ → Memory
move_down mem from n j = if ltb j n then mem (from + j) else mem j

-- The `n` bytes from offset `i` on.
unfoldable pub slice : Memory → ℕ → ℕ → List ℕ
slice mem i zero = []
slice mem i (suc n) = mem i ∷ slice mem (i + 1) n

-- The C string at offset `i` of a block that ends `n` bytes further on; `none` where no NUL stands
-- in the block, so that reading the string runs past its end.
unfoldable pub c_string : Memory → ℕ → ℕ → Option (List ℕ)
c_string mem i zero = none
c_string mem i (suc n) =
    let rest = c_string mem (i + 1) n in
    if mem i == 0 then some [] else Option.map (λ bs. mem i ∷ bs) rest

-- No byte of the list is `b`.
abbrev pub Without : ℕ → List ℕ → Type 0
Without b [] = Unit {0}
Without b (x ∷ xs) = (x ≢ b) × Without b xs

-- The block holds the bytes from offset `i` on.
abbrev pub Holds : Memory → ℕ → List ℕ → Type 0
Holds mem i [] = Unit {0}
Holds mem i (b ∷ bs) = (mem i ≡ b) × Holds mem (i + 1) bs
