-- ===== src/Socket/Poll/Callbacks.antt =====
-- Which sockets `js_sock_poll` of src/js_socket.cpp polls, and which methods it calls.
use sysjs.Host.{fault, returned, void}
use sysjs.Prelude.{
  Bool, Bool-cases, List, [], ap, append-nil, arith, bit_and, false, inl, inr, length,
  length-append, ltb, negsuc, none, not, pos, refl, some, suc, sym, true, zero, ℕ, ℤ, ◌&&◌, ◌++◌,
  ◌+◌, ◌-◌, ◌<◌, ◌==◌, ◌||◌, ◌∙◌, ◌∷◌, ◌≡◌, ◌≤◌,
}
use sysjs.Socket.{Ctx}
use sysjs.Socket.Poll.{
  Callback, Elem, Entry, Gathered, World, data_ready, dispatch, error_event, finish_poll, gather,
  gathered, has_bits, poll_elements, pollin, put_entry, socket_object, stored,
}

-- Open sockets with these descriptors.
abbrev pub opens_of : List ℕ → List Elem
opens_of [] = []
opens_of (fd ∷ fds) = socket_object (pos fd) ∷ opens_of fds

abbrev pub descriptors : List ℕ → List ℤ
descriptors [] = []
descriptors (fd ∷ fds) = pos fd ∷ descriptors fds

abbrev put_all : List ℕ → Gathered → Gathered
put_all [] g = g
put_all (fd ∷ fds) g = put_entry (some (pos fd)) (put_all fds g)

length-opens_of : (fds : List ℕ) → length (opens_of fds) ≡ length fds
length-opens_of [] = refl
length-opens_of (fd ∷ fds) = omega (arith, length-opens_of fds)

gather-opens :
    (fds : List ℕ) (rest : List Elem) (i len : ℕ)
    → i + length fds ≤ len
    → gather (opens_of fds ++ rest) i len ≡ put_all fds (gather rest (i + length fds) len)
unfolding gather
gather-opens [] rest i len h = ap (λ j. gather rest j len) (omega arith)
gather-opens (fd ∷ fds) rest i len h = ground (arith, gather-opens fds rest (i + 1) len)

abbrev entries : List ℕ → List Entry → List Entry
entries [] es = es
entries (fd ∷ fds) es = some (pos fd) ∷ entries fds es

put_all-gathered :
    (fds : List ℕ) (es : List Entry) (len : ℕ)
    → put_all fds (gathered es len) ≡ gathered (entries fds es) len
put_all-gathered [] es len = refl
put_all-gathered (fd ∷ fds) es len = rw (put_all-gathered fds es len) refl

stored-entries : (fds : List ℕ) → stored (length fds) (entries fds []) ≡ some (descriptors fds)
unfolding stored
stored-entries [] = refl
stored-entries (fd ∷ fds) = rw (stored-entries fds) refl

stored-gap :
    (fds : List ℕ) (es : List Entry) (len : ℕ)
    → length fds < len
    → stored len (entries fds (none ∷ es)) ≡ none
unfolding stored
stored-gap fds es zero h = absurd (omega arith)
stored-gap [] es (suc len) h = refl
stored-gap (fd ∷ fds) es (suc len) h = rw (stored-gap fds es len (omega arith)) refl

gather-all :
    (fds : List ℕ)
    → gather (opens_of fds) 0 (length (opens_of fds)) ≡ gathered (entries fds []) (length fds)
unfolding gather
gather-all fds = rw (length-opens_of fds) (
    ap (λ l. gather l 0 (length fds)) (sym (append-nil (opens_of fds)))
    ∙ gather-opens fds [] 0 (length fds) (omega arith)
    ∙ put_all-gathered fds [] (length fds))

poll_elements-opens_of :
    (w : World) (c : Ctx) (fds : List ℕ)
    → poll_elements w c (opens_of fds)
      ≡ finish_poll c (dispatch w.script 0 (w.revents (descriptors fds)))
unfolding poll_elements
poll_elements-opens_of w c fds = rw (gather-all fds, stored-entries fds) refl

gather-some :
    (fds : List ℕ) (i len : ℕ) → (es : List Entry) × (gather (opens_of fds) i len ≡ gathered es len)
unfolding gather
gather-some [] i len = ([], refl)
gather-some (fd ∷ fds) i len = elim (Bool-cases (ltb i len)) [
  | inl within ↦
      let rest = gather-some fds (i + 1) len in (some (pos fd) ∷ rest.0, ground (arith, rest.1))
  | inr past ↦ ([], ground arith)
]

gather-gap :
    (before after : List ℕ) (n : ℕ)
    → n ≡ length before + 1 + length after
    → (es : List Entry) × (gather (opens_of before ++ socket_object (negsuc 0) ∷ opens_of after) 0 n
        ≡ gathered (entries before (none ∷ es)) (n - 1))
unfolding gather
gather-gap before after n e =
    let rest = gather-some after (0 + length before + 1) (n - 1) in
    (
      rest.0,
      gather-opens before (socket_object (negsuc 0) ∷ opens_of after) 0 n (omega arith)
          ∙ ap (put_all before) (ground (arith, rest.1))
          ∙ put_all-gathered before (none ∷ rest.0) (n - 1),
    )

-- A closed socket with an open one behind it leaves an entry of `fds` unset and polls it: undefined
-- behaviour, whatever the other sockets are.
pub poll_elements-closed :
    (w : World) (c : Ctx) (before after : List ℕ)
    → 0 < length after
    → poll_elements w c (opens_of before ++ socket_object (negsuc 0) ∷ opens_of after) ≡ fault
unfolding poll_elements
poll_elements-closed w c before after h =
    let elems = opens_of before ++ socket_object (negsuc 0) ∷ opens_of after in
    let count : length elems ≡ length before + 1 + length after = omega (
      arith,
      length-append (opens_of before) (socket_object (negsuc 0) ∷ opens_of after),
      length-opens_of before,
      length-opens_of after,
    ) in
    rw
      (
        (gather-gap before after (length elems) count).1,
        stored-gap before _ (length elems - 1) (omega (arith, count)),
      )
      refl

-- Whether a method is among the calls.
abbrev same_callback : Callback → Callback → Bool
same_callback (error_event i r) (error_event j r') = i == j && r == r'
same_callback (data_ready i) (data_ready j) = i == j
same_callback a b = false

pub called : Callback → List Callback → Bool
called k [] = false
called k (k' ∷ ks) = same_callback k k' || called k ks

pub revents_at : List ℕ → ℕ → ℕ
revents_at [] i = 0
revents_at (r ∷ rs) zero = r
revents_at (r ∷ rs) (suc i) = revents_at rs i

called-append :
    (k : Callback) (xs ys : List Callback) → called k (xs ++ ys) ≡ (called k xs || called k ys)
unfolding called
called-append k [] ys = refl
called-append k (x ∷ xs) ys = ground (arith, called-append k xs ys)

-- The calls for the entries from `i` on are of sockets from `i` on.
called-dispatch_below :
    (script : Callback → Bool) (revents : List ℕ) (i j : ℕ)
    → j < i
    → called (data_ready j) (dispatch script i revents).1 ≡ false
unfolding dispatch called
called-dispatch_below script [] i j h = refl
called-dispatch_below script (r ∷ revents) i j h =
    ground (arith, called-dispatch_below script revents (i + 1) j)

-- If no method returns false, then the method `data` of the socket at an index is called exactly
-- when poll(2) has answered that it is readable.
pub called-dispatch :
    (script : Callback → Bool) (revents : List ℕ) (i j : ℕ)
    → ((k : Callback) → script k ≡ true)
    → called (data_ready (i + j)) (dispatch script i revents).1
      ≡ has_bits (revents_at revents j) pollin
unfolding dispatch called revents_at
called-dispatch script [] i j h = refl
called-dispatch script (r ∷ revents) i zero h =
    ground (arith, h (data_ready i), called-dispatch_below script revents (i + 1) (i + 0))
called-dispatch script (r ∷ revents) i (suc j) h =
    ground (arith, h (data_ready i), called-dispatch script revents (i + 1) j h)

zero_add : (j : ℕ) → j ≡ 0 + j
zero_add j = omega arith

dispatch-true :
    (script : Callback → Bool) (i : ℕ) (revents : List ℕ)
    → ((k : Callback) → script k ≡ true)
    → (dispatch script i revents).0 ≡ true
unfolding dispatch
dispatch-true script i [] h = refl
dispatch-true script i (r ∷ revents) h =
    ground (arith, h (data_ready i), dispatch-true script (i + 1) revents h)

-- If every element of the array is an open socket, and no method of the script returns false, then
-- `poll` returns; poll(2) has been given exactly their descriptors, in order, and the method `data` of
-- the socket at an index has been called exactly when POLLIN is among the events that it answered for
-- that descriptor.
pub poll_elements-open :
    (w : World) (c : Ctx) (fds : List ℕ)
    → ((k : Callback) → w.script k ≡ true)
    → (calls : List Callback) × (poll_elements w c (opens_of fds) ≡ returned void (c, calls))
      × ((j : ℕ)
          → called (data_ready j) calls
            ≡ not (bit_and (revents_at (w.revents (descriptors fds)) j) 0x1 == 0))
poll_elements-open w c fds h =
    let found = dispatch w.script 0 (w.revents (descriptors fds)) in
    (
      found.1,
      poll_elements-opens_of w c fds
          ∙ ap (λ ok. finish_poll c (ok, found.1))
              (dispatch-true w.script 0 (w.revents (descriptors fds)) h),
      (λ j.
          ap (λ k. called (data_ready k) found.1) (zero_add j)
          ∙ called-dispatch w.script (w.revents (descriptors fds)) 0 j h),
    )
