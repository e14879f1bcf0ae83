-- ===== src/Socket/Eaton.antt =====
-- The packets of an Eaton ECI in src/js_socket.cpp: `js_sock_read_eaton_packet`. A packet is
-- 0x5a, a length, as many bytes as that with the length counted, and 0xa5.
pub mod Packets
use sysjs.Host.{
  Outcome, array, blocked, buffer_too_small, fault, illegal_trailer, returned, system_error, thrown,
}
use sysjs.Prelude.{
  List, Memory, Option, [], false, if◌then◌else◌, leb, length, ltb, none, slice, store, store_all,
  take, true, ℕ, ◌%◌, ◌+◌, ◌-◌, ◌==◌, ◌^◌, ◌∷◌,
}
use sysjs.Socket.{Answer, Ctx, failed, got, resume, suspend, with_socket}

-- `unsigned char packetbuf[32]`
abbrev pub packet_size : ℕ
packet_size = 32

-- The object, the answers still to come, and `packetbuf`.
pub record Eaton : Type 0 where
  pub ctx : Ctx
  pub answers : List Answer
  pub packetbuf : Memory

pub data Next : Type 0 where
  go : Eaton → Next
  stop : Outcome Ctx → Next

-- One call of read(2) for `n` bytes, into `packetbuf` at `i`: an error ends the method, and the end
-- of the stream leaves the block as it is.
pub read_at : ℕ → ℕ → Eaton → Next
unfolding store_all
read_at i n s = elim s.answers [
  | [] ↦ stop blocked
  | failed errno ∷ rest ↦ stop (thrown (system_error errno) s.ctx)
  | got bytes ∷ rest ↦
      if leb (i + length (take n bytes)) packet_size
      then go (record s { answers = rest; packetbuf = store_all s.packetbuf i (take n bytes) })
      else stop fault
]

infixl 5 ◌>>=◌
abbrev ◌>>=◌ : Next → (Eaton → Outcome Ctx) → Outcome Ctx
go s >>= f = f s
stop o >>= f = o

-- `while` no header byte 0x5a has come, with the end of the stream taken for one.
pub find_header : Ctx → Memory → List Answer → Next
find_header c buf [] = stop blocked
find_header c buf (failed errno ∷ rest) = stop (thrown (system_error errno) c)
find_header c buf (got [] ∷ rest) = go (record { ctx = c; answers = rest; packetbuf = buf })
find_header c buf (got (b ∷ _) ∷ rest) = elim (b == 0x5a) [
  | true ↦ go (record { ctx = c; answers = rest; packetbuf = store buf 0 b })
  | false ↦ find_header c (store buf 0 b) rest
]

-- `packetbuf[0]-1`, as the `size_t` that read(2) takes.
pub payload_size : ℕ → ℕ
payload_size len = (len + 2 ^ 64 - 1) % 2 ^ 64

abbrev trailer_of : ℕ → List ℕ → ℕ
trailer_of stale [] = stale
trailer_of stale (b ∷ bytes) = b

-- After the payload: the trailer byte goes into a block of its own, which holds anything before.
pub read_trailer : ℕ → Eaton → Outcome Ctx
unfolding slice
read_trailer stale s = elim s.answers [
  | [] ↦ blocked
  | failed errno ∷ rest ↦ thrown (system_error errno) s.ctx
  | got bytes ∷ rest ↦
      let trailer = trailer_of stale bytes in
      if trailer == 0xa5
      then returned (array (slice s.packetbuf 0 (s.packetbuf 0))) (resume s.ctx)
      else thrown (illegal_trailer trailer) s.ctx
]

-- The length, and then the payload.
pub read_body : ℕ → Eaton → Outcome Ctx
unfolding read_at payload_size read_trailer
read_body stale s = do
  s' ← read_at 0 1 s
  if ltb packet_size (s'.packetbuf 0)
      then thrown buffer_too_small s'.ctx
      else (do s'' ← read_at 1 (payload_size (s'.packetbuf 0)) s'; read_trailer stale s'')

-- `garbage` is what `packetbuf` holds at first, `stale` what `trailer` holds.
pub read_eaton_packet : ℕ → Memory → ℕ → List Answer → Option Ctx → Outcome Ctx
unfolding find_header read_body
read_eaton_packet depth garbage stale answers private =
    with_socket none private
      λ c. do s ← find_header (suspend depth c) garbage answers; read_body stale s
