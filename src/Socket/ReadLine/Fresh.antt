-- ===== src/Socket/ReadLine/Fresh.antt =====
-- `js_sock_read` of src/js_socket.cpp with nothing waiting in the buffer.
use sysjs.Host.{Outcome, Returns, Returns-mono, resume_request, string, suspended}
use sysjs.Prelude.{
  Bool, Holds, Holds-append, Holds-join, Holds-store, Holds-store_all, List, Memory, Without,
  Without-append, Without-parts, [], ap, append_assoc, arith, inl, inr, length, length-append,
  le→leb, le→not_ltb, ne→not_==, refl, some, store, store_all, store_all-Holds, subst, suc, sym,
  take_all, ℕ, ◌++◌, ◌+◌, ◌-◌, ◌<◌, ◌∙◌, ◌∷◌, ◌≡◌, ◌≢◌, ◌≤◌, ◌⊎◌,
}
use sysjs.Socket.{Answer, Ctx, IsSized, got, resume, suspend}
use sysjs.Socket.ReadLine.{after_loop, keep, new_line, next_round, read, read_more, scan, take_in}
use sysjs.Socket.ReadLine.Lines.{
  Buffered, Buffered-parts, end_line-text, moved-Holds, scan-Holds, scan_past, strip_cr,
}

-- The bytes that wait in the buffer, and the NUL behind them.
pub record Waiting (c : Ctx) (bytes : List ℕ) : Type 0 where
  pub sized : IsSized c
  pub count : c.buffer_pos ≡ length bytes
  pub holds : Holds c.read_buffer 0 bytes
  pub ended : c.read_buffer (length bytes) ≡ 0

-- The two ways in which a line is cut off the front of the buffer leave these bytes.
kept-Waiting :
    (c : Ctx) (mem : Memory) (rest : List ℕ)
    → Holds mem 0 rest
    → length rest < c.buffer_size
    → c.buffer_size ≤ c.allocated
    → Waiting (keep c (store mem (length rest) 0) (length rest)) rest
kept-Waiting c mem rest h lt fits = record {
  sized = record { fits = fits; room = lt };
  count = refl;
  holds = Holds-store mem 0 (length rest) 0 rest (omega arith) h;
  ended = ground arith;
}

new_line-Waiting :
    (c : Ctx) (line rest : List ℕ)
    → Buffered c.read_buffer line rest
    → c.buffer_size ≤ c.allocated
    → length line + 1 + length rest ≤ c.buffer_size
    → Returns
        (string (strip_cr line))
        (λ c'. Waiting c' rest × (c'.calls ≡ c.calls))
        (new_line c (length line) (suc (length rest)))
unfolding new_line
new_line-Waiting c line rest b fits le =
    rw
      (
        le→leb (length line + 1 + length rest) c.allocated (omega arith),
        end_line-text c.read_buffer c.allocated line (Buffered-parts b).0 b.no_nul (omega arith),
      )
      (
        refl,
        (
          kept-Waiting c _ rest
              (moved-Holds c.read_buffer (length line) (length rest) rest (Buffered-parts b).2
                (omega arith))
              (omega arith) fits,
          refl,
        ),
      )

-- What the search behind the waiting bytes meets: nothing, since none wait, or two bytes that are
-- no newline, inside the block.
abbrev NoStaleNewline : Ctx → Type 0
NoStaleNewline c =
    (c.buffer_pos ≡ 0)
    ⊎ ((c.buffer_pos + 1 < c.allocated) × (c.read_buffer (c.buffer_pos + 1) ≢ b'\n'))

suspend-Waiting :
    (depth : ℕ) {c : Ctx} {bytes : List ℕ} → Waiting c bytes → Waiting (suspend depth c) bytes
suspend-Waiting depth w = record {
  sized = record { fits = w.sized.fits; room = w.sized.room };
  count = w.count;
  holds = w.holds;
  ended = w.ended;
}

module _ (reallocs : ℕ → Bool) where
  next_round-newline :
      (c : Ctx) (n read_size p : ℕ) (loop : Ctx → Outcome Ctx)
      → p < c.allocated
      → c.read_buffer p ≡ b'\n'
      → next_round reallocs c n read_size (some p) loop
        ≡ new_line (resume c) p (c.buffer_pos + n - p)
  unfolding after_loop
  next_round-newline c n read_size p loop lt e = ground arith

  -- A newline found among the bytes of an answer ends the loop, with the bytes from there on counted.
  take_in-found :
      (c : Ctx) (bytes : List ℕ) (p : ℕ) (loop : Ctx → Outcome Ctx)
      → let mem = store_all c.read_buffer c.buffer_pos bytes in
        0 < length bytes
        → c.buffer_pos + length bytes ≤ c.allocated
        → p < c.allocated
        → scan mem c.allocated c.buffer_pos (length bytes) ≡ some p
        → mem p ≡ b'\n'
        → take_in reallocs c bytes loop
          ≡ new_line (resume (keep c mem c.buffer_pos)) p (c.buffer_pos + length bytes - p)
  unfolding take_in
  take_in-found c bytes p loop some_bytes fits lt found newline =
      rw
        (
          ne→not_== (length bytes) 0 (omega arith),
          le→leb (c.buffer_pos + length bytes) c.allocated fits,
          found,
        )
        (next_round-newline (keep c (store_all c.read_buffer c.buffer_pos bytes) c.buffer_pos)
          (length bytes) (c.buffer_size - c.buffer_pos) p loop lt newline)

  -- An answer that completes the line that waits.
  module _ (c : Ctx) (before line rest : List ℕ) (w : Waiting c before)
      (wn : Without b'\n' (before ++ line)) (w0 : Without 0 (before ++ line))
      (le : length before + length line + 1 + length rest ≤ c.buffer_size) where
    abbrev filled : Memory
    filled = store_all c.read_buffer c.buffer_pos (line ++ b'\n' ∷ rest)

    filled-Buffered : Buffered filled (before ++ line) rest
    filled-Buffered = record {
      holds =
          subst
            (λ n.
              Holds (store_all c.read_buffer n (line ++ b'\n' ∷ rest)) 0
                ((before ++ line) ++ b'\n' ∷ rest))
            (sym w.count)
            (rw append_assoc (Holds-store_all c.read_buffer before (line ++ b'\n' ∷ rest) w.holds));
      no_newline = wn;
      no_nul = w0;
    }

    lengths :
        (length (before ++ line) ≡ length before + length line)
        × (length (line ++ b'\n' ∷ rest) ≡ length line + 1 + length rest)
    lengths = (length-append before line, omega (arith, length-append line (b'\n' ∷ rest)))

    filled-scan :
        scan filled c.allocated c.buffer_pos (length (line ++ b'\n' ∷ rest))
        ≡ some (length (before ++ line))
    filled-scan =
        let parts =
          Holds-append filled c.buffer_pos line (b'\n' ∷ rest)
            (store_all-Holds c.read_buffer c.buffer_pos (line ++ b'\n' ∷ rest)) in
        scan-Holds filled c.allocated c.buffer_pos (length (line ++ b'\n' ∷ rest)) line parts.0
          (Without-parts b'\n' before line wn).1 parts.1.0 (omega (arith, w.count, w.sized))
          (omega (arith, lengths))
        ∙ ap some (omega (arith, lengths, w.count))

    pub take_in-line :
        (loop : Ctx → Outcome Ctx)
        → Returns
            (string (strip_cr (before ++ line)))
            (λ c'. Waiting c' rest × (c'.calls ≡ resume_request c.save_depth ∷ c.calls))
            (take_in reallocs c (line ++ b'\n' ∷ rest) loop)
    take_in-line loop =
        rw
          (
            take_in-found c (line ++ b'\n' ∷ rest) (length (before ++ line)) loop
                (omega (arith, lengths)) (omega (arith, lengths, w.count, w.sized))
                (omega (arith, lengths, w.sized)) filled-scan (Buffered-parts filled-Buffered).1,
            count,
          )
          (new_line-Waiting (resume (keep c filled c.buffer_pos)) (before ++ line) rest
            filled-Buffered w.sized.fits (omega (arith, lengths)))
      where
        count :
            c.buffer_pos + length (line ++ b'\n' ∷ rest) - length (before ++ line)
            ≡ suc (length rest)
        count = omega (arith, lengths, w.count)

  -- A call that finds no whole line in the buffer asks the socket.
  read-asks :
      (depth : ℕ) (answers : List Answer) (c : Ctx) (before : List ℕ)
      → Waiting c before
      → Without b'\n' before
      → NoStaleNewline c
      → read reallocs depth answers (some c) ≡ read_more reallocs (suspend depth c) answers
  unfolding read
  read-asks depth answers c before w wn (inl e) = ground arith
  read-asks depth answers c before w wn (inr (lt, ne)) = ground (arith, search_ends, w.count)
    where
      searched : List ℕ
      searched = before ++ 0 ∷ []

      count : length searched ≡ c.buffer_pos + 1
      count = omega (arith, length-append before (0 ∷ []), w.count)

      search_ends : scan c.read_buffer c.allocated 0 (c.buffer_pos + 1) ≡ some (c.buffer_pos + 1)
      search_ends =
          subst (λ n. scan c.read_buffer c.allocated 0 n ≡ some n) count
            (scan_past c.read_buffer c.allocated 0 searched
                (Holds-join c.read_buffer 0 before (0 ∷ []) w.holds (ground (arith, w.ended)))
                (Without-append b'\n' before (0 ∷ []) wn (omega arith)) (omega (arith, count))
              ∙ ap some (omega arith))

  -- If the bytes that wait, in a buffer that is in bounds and with a NUL behind them, hold no newline,
  -- nor does the second byte behind them, which is to be in the block, where some wait, and the next
  -- answer brings a newline, fits the buffer, and no NUL comes before that newline, `read` returns the
  -- bytes that wait and those up to the newline as one line, without a carriage return at its end; the
  -- bytes behind the newline wait for the next call, and the request is resumed.
  pub read-line :
      (depth : ℕ) (c : Ctx) (before line rest : List ℕ) (answers : List Answer)
      → Waiting c before
      → NoStaleNewline c
      → Without b'\n' (before ++ line)
      → Without 0 (before ++ line)
      → length before + length line + 1 + length rest ≤ c.buffer_size
      → Returns
          (string (strip_cr (before ++ line)))
          (λ c'. Waiting c' rest × (suspended c'.calls ≡ suspended c.calls))
          (read reallocs depth (got (line ++ b'\n' ∷ rest) ∷ answers) (some c))
  unfolding read_more
  read-line depth c before line rest answers w s wn w0 le =
      rw
        (
          read-asks depth _ c before w (Without-parts b'\n' before line wn).0 s,
          le→not_ltb c.buffer_pos c.buffer_size (omega (arith, w.sized)),
          take_all (c.buffer_size - c.buffer_pos) (line ++ b'\n' ∷ rest)
              (omega (arith, w.count, length-append line (b'\n' ∷ rest))),
        )
        (Returns-mono _ _ (λ c' h. (h.0, ground (arith, h.1)))
          (take_in-line (suspend depth c) before line rest (suspend-Waiting depth w) wn w0 le
            (λ c'. read_more reallocs c' answers)))
