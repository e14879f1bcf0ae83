-- ===== src/Prelude/Blocks.antt =====
-- What a block holds after a copy, and the text read back from it.
use Prim.Native.Nat.{ℕ, zero, suc, ◌+◌, ◌-◌, ◌≤◌, ◌<◌}
use mathlib.Core.Path.{◌≡◌, refl}
use mathlib.Core.Option.{some}
use mathlib.Core.List.{List, [], ◌∷◌, ◌++◌}
use native.Mathlib.Omega.{arith}
use mathlib.Core.Logic.{inl, inr}
use sysjs.Prelude.Tests.{Bool-cases, ◌==◌}
use sysjs.Prelude.Lists.{length}
use sysjs.Prelude.Bytes.{Memory, store, store_all, slice, c_string, Without, Holds}

pub store_all-below : (mem : Memory) (i j : ℕ) (bs : List ℕ) → j < i → store_all mem i bs j ≡ mem j
unfolding store_all
store_all-below mem i j [] h = refl
store_all-below mem i j (b ∷ bs) h = ground (arith, store_all-below (store mem i b) (i + 1) j bs)

store_all-above :
    (mem : Memory) (i j : ℕ) (bs : List ℕ) → i + length bs ≤ j → store_all mem i bs j ≡ mem j
unfolding store_all
store_all-above mem i j [] h = refl
store_all-above mem i j (b ∷ bs) h = ground (arith, store_all-above (store mem i b) (i + 1) j bs)

pub store_all-Holds : (mem : Memory) (i : ℕ) (bs : List ℕ) → Holds (store_all mem i bs) i bs
unfolding store_all
store_all-Holds mem i [] = tt
store_all-Holds mem i (b ∷ bs) = (
  ground (arith, store_all-below (store mem i b) (i + 1) i bs),
  store_all-Holds (store mem i b) (i + 1) bs,
)

-- Two blocks that agree on the range hold the same there.
pub Holds-agree :
    (mem mem' : Memory) (i k : ℕ) (bs : List ℕ)
    → ((j : ℕ) → j < length bs → mem' (k + j) ≡ mem (i + j))
    → Holds mem i bs
    → Holds mem' k bs
Holds-agree mem mem' i k [] e h = tt
Holds-agree mem mem' i k (b ∷ bs) e h = (
  ground (arith, e 0),
  Holds-agree mem mem' (i + 1) (k + 1) bs (λ j lt. ground (arith, e (j + 1))) h.1,
)

pub Holds-append :
    (mem : Memory) (i : ℕ) (xs ys : List ℕ)
    → Holds mem i (xs ++ ys)
    → Holds mem i xs × Holds mem (i + length xs) ys
Holds-append mem i [] ys h = (tt, ground arith)
Holds-append mem i (x ∷ xs) ys h =
    let rest = Holds-append mem (i + 1) xs ys h.1 in ((h.0, rest.0), ground (arith, rest))

-- A text without NUL, ended by one inside the block, is read back whole.
pub c_string-Holds :
    (mem : Memory) (i n : ℕ) (bs : List ℕ)
    → Holds mem i bs
    → Without 0 bs
    → mem (i + length bs) ≡ 0
    → length bs < n
    → c_string mem i n ≡ some bs
unfolding c_string
c_string-Holds mem i zero bs h w e lt = absurd (omega arith)
c_string-Holds mem i (suc n) [] h w e lt = ground arith
c_string-Holds mem i (suc n) (b ∷ bs) h w e lt =
    ground (arith, c_string-Holds mem (i + 1) n bs h.1 w.1)

-- A byte stored just past what a block holds.
pub Holds-snoc :
    (mem : Memory) (i k b : ℕ) (bs : List ℕ)
    → k ≡ i + length bs
    → Holds mem i bs
    → Holds (store mem k b) i (bs ++ b ∷ [])
Holds-snoc mem i k b [] e h = (ground arith, tt)
Holds-snoc mem i k b (x ∷ bs) e h = (ground arith, Holds-snoc mem (i + 1) k b bs (omega arith) h.1)

-- A byte stored outside what a block holds.
pub Holds-store :
    (mem : Memory) (i k b : ℕ) (bs : List ℕ)
    → i + length bs ≤ k
    → Holds mem i bs
    → Holds (store mem k b) i bs
Holds-store mem i k b [] e h = tt
Holds-store mem i k b (x ∷ bs) e h =
    (ground arith, Holds-store mem (i + 1) k b bs (omega arith) h.1)

pub Without-append : (b : ℕ) (xs ys : List ℕ) → Without b xs → Without b ys → Without b (xs ++ ys)
Without-append b [] ys hx hy = hy
Without-append b (x ∷ xs) ys hx hy = (hx.0, Without-append b xs ys hx.1 hy)

-- A text is read back wherever a NUL stands in the block.
pub c_string-total :
    (mem : Memory) (i k n : ℕ)
    → mem (i + k) ≡ 0
    → k < n
    → (s : List ℕ) × (c_string mem i n ≡ some s)
unfolding c_string
c_string-total mem i k zero e lt = absurd (omega arith)
c_string-total mem i k (suc n) e lt = elim (Bool-cases (mem i == 0)) [
  | inl here ↦ ([], rw here refl)
  | inr there ↦
      let rest = c_string-total mem (i + 1) (k - 1) n (ground arith) (ground arith) in
      (mem i ∷ rest.0, rw (there, rest.1) refl)
]

pub Holds-join :
    (mem : Memory) (i : ℕ) (xs ys : List ℕ)
    → Holds mem i xs
    → Holds mem (i + length xs) ys
    → Holds mem i (xs ++ ys)
Holds-join mem i [] ys hx hy = ground arith
Holds-join mem i (x ∷ xs) ys hx hy = (hx.0, Holds-join mem (i + 1) xs ys hx.1 (ground arith))

-- Bytes copied behind what a block holds.
pub Holds-store_all :
    (mem : Memory) (xs ys : List ℕ)
    → Holds mem 0 xs
    → Holds (store_all mem (length xs) ys) 0 (xs ++ ys)
Holds-store_all mem xs ys h =
    Holds-join _ 0 xs ys
      (Holds-agree mem (store_all mem (length xs) ys) 0 0 xs
        (λ j lt. ground (arith, store_all-below mem (length xs) j ys)) h)
      (ground (arith, store_all-Holds mem (length xs) ys))

pub Without-parts : (b : ℕ) (xs ys : List ℕ) → Without b (xs ++ ys) → Without b xs × Without b ys
Without-parts b [] ys w = (tt, w)
Without-parts b (x ∷ xs) ys w = let rest = Without-parts b xs ys w.1 in ((w.0, rest.0), rest.1)

pub slice-Holds :
    (mem : Memory) (i n : ℕ) (bs : List ℕ) → n ≡ length bs → Holds mem i bs → slice mem i n ≡ bs
unfolding slice
slice-Holds mem i zero [] e h = refl
slice-Holds mem i zero (b ∷ bs) e h = absurd (omega arith)
slice-Holds mem i (suc n) [] e h = absurd (omega arith)
slice-Holds mem i (suc n) (b ∷ bs) e h =
    ground (arith, slice-Holds mem (i + 1) n bs (omega arith) h.1)
