-- ===== src/Socket/ReadLine/Lines.antt =====
-- Which text `js_sock_read` of src/js_socket.cpp returns, and what it keeps.
use sysjs.Prelude.{
  Bool-cases, Holds, Holds-agree, Holds-append, Holds-store, List, Memory, Without, Without-parts,
  [], ap, arith, c_string, c_string-Holds, if◌then◌else◌, inl, inr, length, length-append,
  move_down, refl, some, store, suc, zero, ℕ, ◌++◌, ◌+◌, ◌<◌, ◌==◌, ◌∷◌, ◌≡◌, ◌≤◌, ◌⊎◌,
}
use sysjs.Socket.ReadLine.{end_line, scan}

-- A line without the carriage return at its end.
pub strip_cr : List ℕ → List ℕ
strip_cr [] = []
strip_cr (x ∷ []) = if x == b'\r' then [] else x ∷ []
strip_cr (x ∷ y ∷ xs) = x ∷ strip_cr (y ∷ xs)

-- The scan stops at the first newline of what the block holds.
pub scan-Holds :
    (mem : Memory) (size i rounds : ℕ) (line : List ℕ)
    → Holds mem i line
    → Without b'\n' line
    → mem (i + length line) ≡ b'\n'
    → i + length line < size
    → length line ≤ rounds
    → scan mem size i rounds ≡ some (i + length line)
unfolding scan
scan-Holds mem size i zero [] h w e lt le = ground arith
scan-Holds mem size i (suc rounds) [] h w e lt le = ground arith
scan-Holds mem size i zero (x ∷ line) h w e lt le = absurd (omega arith)
scan-Holds mem size i (suc rounds) (x ∷ line) h w e lt le =
    ground (arith, scan-Holds mem size (i + 1) rounds line h.1 w.1)

-- Bytes without a newline are passed over, if that is what the count allows.
pub scan_past :
    (mem : Memory) (size i : ℕ) (bytes : List ℕ)
    → Holds mem i bytes
    → Without b'\n' bytes
    → i + length bytes < size
    → scan mem size i (length bytes) ≡ some (i + length bytes)
unfolding scan
scan_past mem size i [] h w lt = ground arith
scan_past mem size i (x ∷ bytes) h w lt = ground (arith, scan_past mem size (i + 1) bytes h.1 w.1)

strip_cr-append :
    (l : List ℕ) (x : ℕ) → strip_cr (l ++ x ∷ []) ≡ (if x == b'\r' then l else l ++ x ∷ [])
unfolding strip_cr
strip_cr-append [] x = refl
strip_cr-append (y ∷ []) x = ground arith
strip_cr-append (y ∷ z ∷ l) x = ground (arith, strip_cr-append (z ∷ l) x)

last_split : (l : List ℕ) → (l ≡ []) ⊎ ((m : List ℕ) × (x : ℕ) × (l ≡ m ++ x ∷ []))
last_split [] = inl refl
last_split (y ∷ l) = elim (last_split l) [
  | inl e ↦ inr ([], y, ap (◌∷◌ y) e)
  | inr (m, x, e) ↦ inr (y ∷ m, x, ap (◌∷◌ y) e)
]

-- The byte before the end, and whether it is a carriage return.
end_line-last :
    (mem : Memory) (size : ℕ) (l : List ℕ) (x : ℕ)
    → Holds mem 0 (l ++ x ∷ [])
    → Without 0 (l ++ x ∷ [])
    → length l + 1 < size
    → c_string (end_line mem (length l + 1)) 0 size ≡ some (if x == b'\r' then l else l ++ x ∷ [])
unfolding end_line
end_line-last mem size l x h w lt = elim (Bool-cases (x == b'\r')) [
  | inl cr ↦ ground (
    arith,
    c_string-Holds (store (store mem (length l + 1) 0) (length l) 0) 0 size l
        (Holds-store (store mem (length l + 1) 0) 0 (length l) 0 l (omega arith)
          (Holds-store mem 0 (length l + 1) 0 l (omega arith) (Holds-append mem 0 l (x ∷ []) h).0))
        (Without-parts 0 l (x ∷ []) w).0 (ground arith) (omega arith),
    Holds-append mem 0 l (x ∷ []) h,
  )
  | inr other ↦ ground (
    arith,
    c_string-Holds (store mem (length l + 1) 0) 0 size (l ++ x ∷ [])
        (Holds-store mem 0 (length l + 1) 0 (l ++ x ∷ []) (omega (arith, length-append l (x ∷ [])))
          h)
        w (ground (arith, length-append l (x ∷ []))) (omega (arith, length-append l (x ∷ []))),
    Holds-append mem 0 l (x ∷ []) h,
  )
]

end_line-empty : (mem : Memory) (size : ℕ) → 0 < size → c_string (end_line mem 0) 0 size ≡ some []
unfolding end_line
end_line-empty mem size h = c_string-Holds _ 0 size [] tt tt (ground arith) h

-- With the NUL set, the block's text is the line without its carriage return.
pub end_line-text :
    (mem : Memory) (size : ℕ) (line : List ℕ)
    → Holds mem 0 line
    → Without 0 line
    → length line < size
    → c_string (end_line mem (length line)) 0 size ≡ some (strip_cr line)
unfolding strip_cr
end_line-text mem size line h w lt = elim (last_split line) [
  | inl e ↦ rw e (end_line-empty mem size (rw e at lt))
  | inr (l, x, e) ↦
      rw (e, strip_cr-append l x, length-append l (x ∷ []))
        (end_line-last mem size l x (rw e at h) (rw e at w)
          (omega (arith, ap length e, length-append l (x ∷ []))))
]

-- What the buffer holds when a line stands in it whole, with `rest` behind it.
pub record Buffered (mem : Memory) (line rest : List ℕ) : Type 0 where
  pub holds : Holds mem 0 (line ++ b'\n' ∷ rest)
  pub no_newline : Without b'\n' line
  pub no_nul : Without 0 line

pub Buffered-parts :
    {mem : Memory} {line rest : List ℕ}
    → Buffered mem line rest
    → Holds mem 0 line × (mem (length line) ≡ b'\n') × Holds mem (length line + 1) rest
Buffered-parts {mem} {line} {rest} b =
    ground (arith, Holds-append mem 0 line (b'\n' ∷ rest) b.holds)

-- Ending the line leaves what stands behind it.
end_line-behind : (mem : Memory) (p j : ℕ) → p < j → end_line mem p j ≡ mem j
unfolding end_line
end_line-behind mem p j h = ground arith

pub moved-Holds :
    (mem : Memory) (p n : ℕ) (rest : List ℕ)
    → Holds mem (p + 1) rest
    → length rest ≤ n
    → Holds (move_down (end_line mem p) (p + 1) n) 0 rest
moved-Holds mem p n rest h le =
    Holds-agree mem (move_down (end_line mem p) (p + 1) n) (p + 1) 0 rest
      (λ j lt. ground (arith, end_line-behind mem p (p + 1 + j))) h
