-- ===== src/Socket/Poll.antt =====
-- `js_sock_poll` of src/js_socket.cpp.

pub mod Callbacks
use mathlib.Core.Option
use sysjs.Host.{
  Error, JsVal, Outcome, callback_failed, fault, int, is_object, no_private, not_a_socket,
  not_an_object, null, refused, returned, socket_closed, thrown, usage, void,
}
use sysjs.Prelude.{
  Bool, List, Option, [], bit_and, false, if◌then◌else◌, length, ltb, negsuc, none, not, pos, some,
  suc, true, zero, ℕ, ℤ, ◌++◌, ◌+◌, ◌-◌, ◌==◌, ◌∷◌,
}
use sysjs.Socket.{Ctx}

-- An element of the array: no object, null, an object of another class, or a socket with its
-- descriptor.
pub data Elem : Type 0 where
  not_object null_object other_class : Elem
  socket_object : ℤ → Elem

-- An entry of `fds`: `none` where nothing was stored.
abbrev pub Entry : Type 0
Entry = Option ℤ

pub data Gathered : Type 0 where
  gathered : List Entry → ℕ → Gathered
  bad_element : Error → Gathered
  crash : Gathered

abbrev pub put_entry : Entry → Gathered → Gathered
put_entry e (gathered es len) = gathered (e ∷ es) len
put_entry e g = g

-- The first loop at index `i`, over the elements from there on: a closed socket leaves its entry as
-- it is, and takes one off `len`, which is the bound of both loops.
pub gather : List Elem → ℕ → ℕ → Gathered
gather [] i len = gathered [] len
gather (e ∷ es) i len = elim (ltb i len) [
  | false ↦ gathered [] len
  | true ↦ elim e [
    | not_object ↦ bad_element not_an_object
    | null_object ↦ crash
    | other_class ↦ bad_element not_a_socket
    | socket_object fd ↦ elim fd [
      | negsuc zero ↦ put_entry none (gather es (i + 1) (len - 1))
      | other ↦ put_entry (some other) (gather es (i + 1) len)
    ]
  ]
]

-- The bits of `revents`, and the masks that the second loop tests.
abbrev pub pollin : ℕ
pollin = 0x1

abbrev poll_errors : ℕ
poll_errors = 0x2038

abbrev pub has_bits : ℕ → ℕ → Bool
has_bits revents mask = not (bit_and revents mask == 0)

-- A call of the method `error` or `data` of a socket of the array.
pub data Callback : Type 0 where
  error_event : ℕ → ℕ → Callback
  data_ready : ℕ → Callback

-- The second loop from index `i` on, over the entries' `revents`, with what the calls of the script
-- answer: whether an `error` method returned false makes no difference.
pub dispatch : (Callback → Bool) → ℕ → List ℕ → Bool × List Callback
dispatch answers i [] = (true, [])
dispatch answers i (revents ∷ rest) =
    let (ok, calls) = dispatch answers (i + 1) rest in
    if has_bits revents pollin
    then (if answers (data_ready i)
        then (ok, errors ++ data_ready i ∷ calls)
        else (false, errors ++ data_ready i ∷ []))
    else (ok, errors ++ calls)
  where
    errors : List Callback
    errors = if has_bits revents poll_errors then error_event i revents ∷ [] else []

-- The entries that poll(2) is given, if each of the first `len` was stored.
pub stored : ℕ → List Entry → Option (List ℤ)
stored zero es = some []
stored (suc len) [] = none
stored (suc len) (none ∷ es) = none
stored (suc len) (some fd ∷ es) = Option.map (λ fds. fd ∷ fds) (stored len es)

-- The second loop's end.
abbrev pub finish_poll : Ctx → Bool × List Callback → Outcome (Ctx × List Callback)
finish_poll c (true, calls) = returned void (c, calls)
finish_poll c (false, calls) = thrown callback_failed (c, calls)

-- What the methods of the script answer, and the `revents` of poll(2) for the descriptors that it
-- is given.
pub record World : Type 0 where
  pub script : Callback → Bool
  pub revents : List ℤ → List ℕ

abbrev poll_stored : World → Ctx → Option (List ℤ) → Outcome (Ctx × List Callback)
poll_stored w c none = fault
poll_stored w c (some fds) = finish_poll c (dispatch w.script 0 (w.revents fds))

abbrev poll_gathered : World → Ctx → Gathered → Outcome (Ctx × List Callback)
poll_gathered w c crash = fault
poll_gathered w c (bad_element e) = thrown e (c, [])
poll_gathered w c (gathered es len) = poll_stored w c (stored len es)

pub poll_elements : World → Ctx → List Elem → Outcome (Ctx × List Callback)
unfolding gather stored dispatch
poll_elements w c elems = poll_gathered w c (gather elems 0 (length elems))

-- The elements of an array, where the engine takes the object for one; a null reference is
-- followed.
abbrev pub poll :
    World → (JsVal → Option (List Elem)) → List JsVal → Option Ctx → Outcome (Ctx × List Callback)
unfolding poll_elements
poll w elements_of args none = refused (some no_private)
poll w elements_of args (some c) = elim c.sock [
  | negsuc n ↦ thrown socket_closed (c, [])
  | pos fd ↦ elim args [
    | null ∷ int ms ∷ [] ↦ fault
    | v ∷ int ms ∷ [] ↦
        if is_object v
        then elim (elements_of v) [
          | none ↦ thrown usage (c, [])
          | some elems ↦ poll_elements w c elems
        ]
        else thrown usage (c, [])
    | _ ↦ thrown usage (c, [])
  ]
]
