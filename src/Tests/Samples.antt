-- ===== src/Tests/Samples.antt =====
-- The sockets and the answers of the engine that the other tests share.
use sysjs.Host.{Engine, int, opened, string}
use sysjs.Prelude.{List, Memory, [], arith, length, pos, store_all, ℕ, ◌<◌, ◌∷◌}
use sysjs.Socket.{Ctx, IsSized, Sock, connected}

abbrev pub empty_block : Memory
empty_block j = 0

-- An engine that shows a string's bytes, and an integer's value.
abbrev pub engine : Engine
engine = record {
  to_bytes = λ v. elim v [ string s ↦ s | _ ↦ [] ];
  to_int32 = λ v. elim v [ int n ↦ n | _ ↦ pos 0 ];
  raw_bits = λ v. pos 7;
}

abbrev pub fresh : Sock
fresh = record {
  sock = pos 3;
  read_buffer = empty_block;
  allocated = 1024;
  buffer_size = 1024;
  buffer_pos = 0;
  state = connected;
  save_depth = 0;
}

abbrev pub online : Ctx
online = record { socket = fresh; calls = opened (pos 3) ∷ [] }

-- A socket in whose buffer these bytes wait.
abbrev pub buffering : List ℕ → Ctx
buffering bytes = record {
  socket = record fresh { read_buffer = store_all empty_block 0 bytes; buffer_pos = length bytes };
  calls = [];
}

abbrev pub silent : Ctx
silent = buffering []

pub buffering-IsSized : (bytes : List ℕ) → length bytes < 1024 → IsSized (buffering bytes)
buffering-IsSized bytes h = record { fits = omega arith; room = h }
