-- ===== src/Socket/ReadLine/Pending.antt =====
-- `js_sock_read` of src/js_socket.cpp with a whole line waiting in the buffer, and with a line that
-- comes in two parts.
use sysjs.Host.{Returns, string}
use sysjs.Prelude.{
  Bool, Holds, Holds-append, Holds-join, List, Without, [], ap, arith, c_string, leb, length,
  length-append, le→leb, ltb, lt→ltb, move_down, refl, some, true, ℕ, ◌++◌, ◌+◌, ◌-◌, ◌∙◌, ◌∷◌, ◌≡◌,
}
use sysjs.Socket.{Answer, Ctx, IsSized}
use sysjs.Socket.ReadLine.{end_line, keep, pending_line, read, scan}
use sysjs.Socket.ReadLine.Fresh.{Waiting}
use sysjs.Socket.ReadLine.Lines.{end_line-text, moved-Holds, scan-Holds, strip_cr}

-- The bytes that wait after a line was taken from the buffer: those behind the newline, and the NUL
-- that stood behind them.
abbrev pub with_nul : List ℕ → List ℕ
with_nul rest = rest ++ 0 ∷ []

module _ (reallocs : ℕ → Bool) where
  -- A whole line without a NUL that waits, in a buffer that is in bounds and with a NUL behind what
  -- waits, is returned without a carriage return at its end, with no call of the socket. The bytes
  -- behind it wait for the next call, but the NUL behind them is counted as one of them: `buffer_pos` is
  -- one more than the number of bytes left.
  pub read-pending :
      (depth : ℕ) (answers : List Answer) (c : Ctx) (line rest : List ℕ)
      → Waiting c (line ++ b'\n' ∷ rest)
      → Without b'\n' line
      → Without 0 line
      → Returns
          (string (strip_cr line))
          (λ c'.
            (c'.buffer_pos ≡ length rest + 1)
            × Holds c'.read_buffer 0 (with_nul rest)
            × IsSized c'
            × (c'.calls ≡ c.calls))
          (read reallocs depth answers (some c))
  unfolding read pending_line
  read-pending depth answers c line rest w wn w0 =
      rw (waits, found, newline, fits, text) (refl, (left, moved, sized, refl))
    where
      parts : Holds c.read_buffer 0 line × Holds c.read_buffer (length line) (b'\n' ∷ rest)
      parts = ground (arith, Holds-append c.read_buffer 0 line (b'\n' ∷ rest) w.holds)

      count : c.buffer_pos ≡ length line + 1 + length rest
      count = omega (arith, w.count, length-append line (b'\n' ∷ rest))

      waits : ltb 0 c.buffer_pos ≡ true
      waits = lt→ltb 0 c.buffer_pos (omega (arith, count))

      newline : c.read_buffer (length line) ≡ b'\n'
      newline = parts.1.0

      found : scan c.read_buffer c.allocated 0 (c.buffer_pos + 1) ≡ some (length line)
      found =
          scan-Holds c.read_buffer c.allocated 0 (c.buffer_pos + 1) line parts.0 wn
            (ground (arith, newline)) (omega (arith, count, w.sized)) (omega (arith, count))
          ∙ ap some (omega arith)

      fits : leb (length line + 1 + (c.buffer_pos - length line)) c.allocated ≡ true
      fits = le→leb _ _ (omega (arith, count, w.sized))

      text : c_string (end_line c.read_buffer (length line)) 0 c.allocated ≡ some (strip_cr line)
      text = end_line-text c.read_buffer c.allocated line parts.0 w0 (omega (arith, count, w.sized))

      left : c.buffer_pos - length line ≡ length rest + 1
      left = omega (arith, count)

      behind : Holds c.read_buffer (length line + 1) (with_nul rest)
      behind =
          Holds-join c.read_buffer (length line + 1) rest (0 ∷ []) parts.1.1
            (ground (arith, w.ended, count, w.count), tt)

      moved :
          Holds
            (move_down
              (end_line c.read_buffer (length line))
              (length line + 1)
              (c.buffer_pos - length line))
            0
            (with_nul rest)
      moved =
          moved-Holds c.read_buffer (length line) (c.buffer_pos - length line) (with_nul rest)
            behind (omega (arith, left, length-append rest (0 ∷ [])))

      kept : Ctx
      kept =
          keep c
            (move_down (end_line c.read_buffer (length line)) (length line + 1)
              (c.buffer_pos - length line))
            (c.buffer_pos - length line)

      sized : IsSized kept
      sized = record { fits = w.sized.fits; room = omega (arith, left, count, w.sized) }
