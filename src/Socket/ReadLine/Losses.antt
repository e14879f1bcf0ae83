-- ===== src/Socket/ReadLine/Losses.antt =====
-- What `js_sock_read` of src/js_socket.cpp loses: a line behind a NUL that waits.
use sysjs.Host.{Outcome, Returns, Returns-mono, returned, string}
use sysjs.Prelude.{
  Bool, Bool-cases, List, Memory, Option, Without, [], arith, c_string, inl, inr, length, ltb, none,
  refl, some, store_all, store_all-below, suc, take, zero, ℕ, ◌&&◌, ◌++◌, ◌+◌, ◌-◌, ◌<◌, ◌^◌, ◌∙◌,
  ◌∷◌, ◌≡◌, ◌≤◌, ◌⊎◌,
}
use sysjs.Socket.{Answer, Ctx, IsSized, failed, got, resume, suspend}
use sysjs.Socket.ReadLine.{
  after_loop, end_line, enlarge, found_pending, go_on, keep, new_line, next_round, pending_line,
  read, read_more, scan, take_in,
}
use sysjs.Socket.ReadLine.Fresh.{Waiting}
use sysjs.Socket.ReadLine.Lines.{strip_cr}
use sysjs.Socket.ReadLine.Pending.{read-pending}

-- No call of `read` with this outcome has given the script any text.
abbrev pub NoText : Outcome Ctx → Type 0
NoText (returned (string s) c) = s ≡ []
NoText o = Unit

-- The buffer starts with a NUL, and more bytes go behind it.
record Blocked (c : Ctx) : Type 0 where
  sized : IsSized c
  behind : 0 < c.buffer_pos
  nul : c.read_buffer 0 ≡ 0

end_line-nul : (mem : Memory) (p : ℕ) → mem 0 ≡ 0 → end_line mem p 0 ≡ 0
unfolding end_line
end_line-nul mem p e = ground arith

empty_text :
    (mem : Memory) (p size : ℕ)
    → mem 0 ≡ 0
    → (c_string (end_line mem p) 0 size ≡ none) ⊎ (c_string (end_line mem p) 0 size ≡ some [])
unfolding c_string
empty_text mem p zero e = inl refl
empty_text mem p (suc size) e = ground (arith, end_line-nul mem p e)

new_line-NoText : (c : Ctx) (p ret : ℕ) → c.read_buffer 0 ≡ 0 → NoText (new_line c p ret)
unfolding new_line
new_line-NoText c p zero e = tt
new_line-NoText c p (suc r) e = ground (arith, empty_text c.read_buffer p c.allocated e)

after_loop-NoText : (c : Ctx) (p ret : ℕ) → c.read_buffer 0 ≡ 0 → NoText (after_loop c p ret)
unfolding after_loop
after_loop-NoText c p ret e = ground (arith, new_line-NoText c p ret e)

module _ (reallocs : ℕ → Bool) where
  enlarge-NoText :
      (c : Ctx) (n : ℕ) (loop : Ctx → Outcome Ctx)
      → Blocked c
      → 0 < n
      → n ≤ c.buffer_size
      → ((c' : Ctx) → Blocked c' → NoText (loop c'))
      → NoText (go_on (enlarge reallocs c n) loop)
  unfolding enlarge
  enlarge-NoText c n loop b h le ih =
      elim (Bool-cases (ltb (c.buffer_size + 1024) (2 ^ 31) && reallocs (c.buffer_size + 1024))) [
        | inl given ↦ rw given (ih _ (record { sized = omega arith; behind = h; nul = b.nul }))
        | inr bad ↦ rw bad tt
      ]

  next_round-NoText :
      (c : Ctx) (n read_size : ℕ) (end : Option ℕ) (loop : Ctx → Outcome Ctx)
      → Blocked c
      → 0 < read_size
      → read_size ≤ c.buffer_size
      → ((c' : Ctx) → Blocked c' → NoText (loop c'))
      → NoText (next_round reallocs c n read_size end loop)
  next_round-NoText c n read_size none loop b h le ih = tt
  next_round-NoText c n read_size (some p) loop b h le ih = ground (
    arith,
    after_loop-NoText (resume c) p (c.buffer_pos + n - p) b.nul,
    ih c b,
    enlarge-NoText c read_size loop b h le ih,
  )

  take_in-NoText :
      (c : Ctx) (bytes : List ℕ) (loop : Ctx → Outcome Ctx)
      → Blocked c
      → ((c' : Ctx) → Blocked c' → NoText (loop c'))
      → NoText (take_in reallocs c bytes loop)
  unfolding take_in
  take_in-NoText c bytes loop b ih = ground (
    arith,
    after_loop-NoText (resume c) c.buffer_pos 0 b.nul,
    next_round-NoText kept (length bytes) (c.buffer_size - c.buffer_pos)
        (scan kept.read_buffer c.allocated c.buffer_pos (length bytes)) loop
        (record {
          sized = record { fits = b.sized.fits; room = b.sized.room };
          behind = b.behind;
          nul = store_all-below c.read_buffer c.buffer_pos 0 bytes b.behind ∙ b.nul;
        })
        (omega arith) (omega arith) ih,
  )
    where
      kept : Ctx
      kept = keep c (store_all c.read_buffer c.buffer_pos bytes) c.buffer_pos

  read_more-NoText :
      (answers : List Answer) (c : Ctx) → Blocked c → NoText (read_more reallocs c answers)
  unfolding read_more
  read_more-NoText [] c b = tt
  read_more-NoText (failed errno ∷ answers) c b = tt
  read_more-NoText (got bytes ∷ answers) c b = ground (
    arith,
    take_in-NoText c (take (c.buffer_size - c.buffer_pos) bytes) _ b
        (λ c' b'. read_more-NoText answers c' b'),
  )

  found_pending-NoText :
      (c : Ctx) (end : Option ℕ) (otherwise : Outcome Ctx)
      → c.read_buffer 0 ≡ 0
      → NoText otherwise
      → NoText (found_pending c end otherwise)
  unfolding pending_line
  found_pending-NoText c none otherwise e h = tt
  found_pending-NoText c (some p) otherwise e h =
      ground (arith, empty_text c.read_buffer p c.allocated e)

  -- While a NUL stands first among the bytes that wait, the next call gives the script no text,
  -- whatever the socket brings: the string that it returns, if any, is empty.
  read-NoText :
      (depth : ℕ) (answers : List Answer) (c : Ctx)
      → Blocked c
      → NoText (read reallocs depth answers (some c))
  unfolding read
  read-NoText depth answers c b = ground (
    arith,
    found_pending-NoText c (scan c.read_buffer c.allocated 0 (c.buffer_pos + 1)) more b.nul asks,
    asks,
  )
    where
      more : Outcome Ctx
      more = read_more reallocs (suspend depth c) answers

      asks : NoText more
      asks = read_more-NoText answers (suspend depth c) (record {
        sized = record { fits = b.sized.fits; room = b.sized.room };
        behind = b.behind;
        nul = b.nul;
      })

  -- If exactly one whole line waits in the buffer, `read` returns it, and the next call of `read`
  -- gives the script no text, whatever the socket brings: a line that arrives then is lost.
  pub read-pending_last :
      (depth depth' : ℕ) (answers answers' : List Answer) (c : Ctx) (line : List ℕ)
      → Waiting c (line ++ b'\n' ∷ [])
      → Without b'\n' line
      → Without 0 line
      → Returns
          (string (strip_cr line))
          (λ c'. NoText (read reallocs depth' answers' (some c')))
          (read reallocs depth answers (some c))
  read-pending_last depth depth' answers answers' c line w wn w0 =
      Returns-mono _ _
        (λ c' h.
          read-NoText depth' answers' c'
            (record { sized = h.2; behind = omega (arith, h.0); nul = h.1.0 }))
        (read-pending reallocs depth answers c line [] w wn w0)
