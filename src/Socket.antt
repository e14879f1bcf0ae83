-- ===== src/Socket.antt =====
-- The object of src/js_socket.cpp: `sock_obj_t`, and what its methods have in common.
pub mod Lifecycle
pub mod Connect
pub mod Options
pub mod Send
pub mod ReadBytes
pub mod Eaton
pub mod Poll
pub mod WebSocket
pub mod ReadLine
use sysjs.Host.{
  Call, Error, Outcome, closes, fault, opens, refused, resume_request, returned, stopped, string,
  suspend_request, thrown, written,
}
use sysjs.Prelude.{
  List, Memory, Option, [], negsuc, none, pos, some, ℕ, ℤ, ◌*◌, ◌+◌, ◌<◌, ◌∷◌, ◌≡◌, ◌≤◌,
}

pub data SockState : Type 0 where
  disconnected connected listening : SockState

-- `read_buffer` is the block's content and `allocated` the size it was allocated with, which is
-- not a field of the source: `buffer_size` is what the code takes it for.
pub record Sock : Type 0 where
  pub sock : ℤ
  pub read_buffer : Memory
  pub allocated : ℕ
  pub buffer_size : ℕ
  pub buffer_pos : ℕ
  pub state : SockState
  pub save_depth : ℕ

-- A socket object with the calls made so far, the newest first.
pub record Ctx : Type 0 where
  pub socket : Sock
  pub open socket use *
  pub calls : List Call

-- `js_sock->saveDepth = JS_SuspendRequest(cx)`, where the engine answers `depth`.
abbrev pub suspend : ℕ → Ctx → Ctx
suspend depth c = record {
  socket = record c.socket { save_depth = depth };
  calls = suspend_request ∷ c.calls;
}

-- `JS_ResumeRequest(cx, js_sock->saveDepth)`
abbrev pub resume : Ctx → Ctx
resume c = record c { calls = resume_request c.save_depth ∷ c.calls }

-- The check `js_sock == NULL` of the private data.
abbrev pub with_socket : Option Error → Option Ctx → (Ctx → Outcome Ctx) → Outcome Ctx
with_socket e none body = refused e
with_socket e (some c) body = body c

-- What a call of read(2) answers: an error number, or the bytes that it brings, none at the end of
-- the stream. It brings at most as many as were asked for: where a program asks for n, `take n` of
-- these are read. A run of a program is given by the answers to its calls in turn.
pub data Answer : Type 0 where
  failed : ℕ → Answer
  got : List ℕ → Answer

-- `STRING_TO_JSVAL(JS_NewStringCopyZ(cx, js_sock->read_buffer))`, from the text that the block
-- holds.
abbrev pub reply_text : Ctx → Option (List ℕ) → Outcome Ctx
reply_text c none = fault
reply_text c (some s) = returned (string s) c

-- The code takes the block for no larger than it is, and what waits in it leaves room.
pub record IsSized (c : Ctx) : Type 0 where
  pub fits : c.buffer_size ≤ c.allocated
  pub room : c.buffer_pos < c.buffer_size

-- The calls made when a method ends.
abbrev pub calls_of : Outcome Ctx → List Call
calls_of (returned v c) = c.calls
calls_of (thrown e c) = c.calls
calls_of (stopped c) = c.calls
calls_of o = []

-- What write(2) answers.
pub data Written : Type 0 where
  write_failed : ℕ → Written
  wrote : ℕ → Written

abbrev pub write_to : ℤ → List ℕ → Ctx → Ctx
write_to fd bytes c = record c { calls = written fd bytes ∷ c.calls }

-- The descriptors that an object answers for: its own, where it has one.
abbrev pub held : ℤ → ℕ
held (pos n) = 1
held (negsuc n) = 0

-- Of the descriptors that the object's methods opened, all are closed but the one that it holds and
-- `lost` others, which nothing will close.
abbrev pub Leaks : ℕ → Ctx → Type 0
Leaks lost c = opens c.calls ≡ closes c.calls + held c.sock + lost

-- The answers of a connection that brings these bytes to calls for one byte.
abbrev pub byte_answers : List ℕ → List Answer
byte_answers [] = []
byte_answers (b ∷ bs) = got (b ∷ []) ∷ byte_answers bs
