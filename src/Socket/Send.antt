-- ===== src/Socket/Send.antt =====
-- `js_sock_send` of src/js_socket.cpp.
pub mod Outcomes
use sysjs.Host.{Engine, JsVal, Outcome, bool, returned, system_error, thrown, void}
use sysjs.Prelude.{List, Option, [], length, none, ℕ, ◌==◌, ◌∷◌}
use sysjs.Socket.{Ctx, Written, resume, suspend, with_socket, write_failed, write_to, wrote}
use sysjs.SysUtil.{answer}

pub send : Engine → ℕ → Written → List JsVal → Option Ctx → Outcome Ctx
send engine depth answer args private = with_socket none private λ c. elim args [
  | v ∷ [] ↦
      let buffer = engine.to_bytes v in
      let c' = resume (write_to c.sock buffer (suspend depth c)) in
      elim answer [
        | wrote n ↦ returned (bool (n == length buffer)) c'
        | write_failed errno ↦ thrown (system_error errno) c'
      ]
  | _ ↦ returned void c
]
