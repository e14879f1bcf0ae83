-- ===== src/Socket/Eaton/Packets.antt =====
-- The packets that `js_sock_read_eaton_packet` of src/js_socket.cpp returns, and its buffer.
use sysjs.Host.{Returns, Returns-mono, array, fault, resume_request, suspended}
use sysjs.Prelude.{
  Holds, List, Memory, Without, [], arith, length, le→leb, le→not_ltb, lt→not_leb, refl,
  slice-Holds, some, store, store_all, store_all-Holds, store_all-below, suc, take_all, ℕ, ◌++◌,
  ◌+◌, ◌-◌, ◌<◌, ◌^◌, ◌∷◌, ◌≡◌, ◌≤◌,
}
use sysjs.Socket.{Answer, Ctx, byte_answers, got, suspend}
use sysjs.Socket.Eaton.{
  Eaton, find_header, go, packet_size, payload_size, read_at, read_body, read_eaton_packet,
  read_trailer,
}

-- Every byte before the header is skipped.
find_header-skip :
    (c : Ctx) (buf : Memory) (junk : List ℕ) (rest : List Answer)
    → Without 0x5a junk
    → (buf' : Memory) × (find_header c buf (byte_answers (junk ++ 0x5a ∷ []) ++ rest)
        ≡ go (record { ctx = c; answers = rest; packetbuf = buf' }))
unfolding find_header
find_header-skip c buf [] rest w = (store buf 0 0x5a, refl)
find_header-skip c buf (b ∷ junk) rest w =
    let ih = find_header-skip c (store buf 0 b) junk rest w.1 in (ih.0, ground (arith, ih.1, w.0))

payload_size_lem : (n : ℕ) → n < packet_size → payload_size (suc n) ≡ n
unfolding payload_size
payload_size_lem n lt = omega arith

-- A packet that has come whole is read back, its length first.
read_trailer-packet :
    (stale : ℕ) (s : Eaton) (len : ℕ) (payload : List ℕ) (rest : List Answer)
    → s.answers ≡ got (0xa5 ∷ []) ∷ rest
    → Holds s.packetbuf 0 (len ∷ payload)
    → len ≡ suc (length payload)
    → Returns
        (array (len ∷ payload))
        (λ c'. c'.calls ≡ resume_request s.ctx.save_depth ∷ s.ctx.calls)
        (read_trailer stale s)
unfolding read_trailer
read_trailer-packet stale s len payload rest e h l =
    ground (arith, slice-Holds s.packetbuf 0 (s.packetbuf 0) (len ∷ payload))

-- A packet with its header already read.
read_body-packet :
    (stale : ℕ) (c : Ctx) (buf : Memory) (payload : List ℕ) (rest : List Answer)
    → length payload < packet_size
    → Returns
        (array (suc (length payload) ∷ payload))
        (λ c'. c'.calls ≡ resume_request c.save_depth ∷ c.calls)
        (read_body stale (record {
          ctx = c;
          answers = got (suc (length payload) ∷ []) ∷ got payload ∷ got (0xa5 ∷ []) ∷ rest;
          packetbuf = buf;
        }))
unfolding read_body read_at
read_body-packet stale c buf payload rest lt =
    rw
      (
        le→not_ltb (suc (length payload)) packet_size lt,
        payload_size_lem (length payload) lt,
        take_all (length payload) payload (omega arith),
        le→leb (1 + length payload) packet_size (omega arith),
      )
      (read_trailer-packet stale filled (suc (length payload)) payload rest refl
        (
          store_all-below (store buf 0 (suc (length payload))) 1 0 payload (omega arith),
          store_all-Holds (store buf 0 (suc (length payload))) 1 payload,
        )
        refl)
  where
    filled : Eaton
    filled = record {
      ctx = c;
      answers = got (0xa5 ∷ []) ∷ rest;
      packetbuf = store_all (store buf 0 (suc (length payload))) 1 payload;
    }

-- A packet whose payload fits the buffer and comes whole in one read, with any bytes but 0x5a before
-- it and its trailer behind it, is returned with its length in front, and the request is resumed.
pub read_eaton_packet_lem :
    (depth : ℕ) (garbage : Memory) (stale : ℕ) (junk payload : List ℕ) (rest : List Answer)
    (c : Ctx)
    → Without 0x5a junk
    → length payload < packet_size
    → Returns
        (array (suc (length payload) ∷ payload))
        (λ c'. suspended c'.calls ≡ suspended c.calls)
        (read_eaton_packet depth garbage stale
          (byte_answers (junk ++ 0x5a ∷ [])
            ++ got (suc (length payload) ∷ []) ∷ got payload ∷ got (0xa5 ∷ []) ∷ rest)
          (some c))
unfolding read_eaton_packet
read_eaton_packet_lem depth garbage stale junk payload rest c w lt =
    let skip =
      find_header-skip (suspend depth c) garbage junk
        (got (suc (length payload) ∷ []) ∷ got payload ∷ got (0xa5 ∷ []) ∷ rest) w in
    rw skip.1 (
      Returns-mono _ _ (λ c' e. ground (arith, e))
        (read_body-packet stale (suspend depth c) skip.0 payload rest lt))

-- A packet that says that its length is 0 makes the code ask for 2^64 - 1 bytes: 32 bytes or more
-- that the socket brings then are written past the end of the buffer on the stack.
pub read_eaton_packet-overrun :
    (depth : ℕ) (garbage : Memory) (stale : ℕ) (junk bytes : List ℕ) (rest : List Answer) (c : Ctx)
    → Without 0x5a junk
    → packet_size ≤ length bytes
    → length bytes < 2 ^ 64
    → read_eaton_packet depth garbage stale
        (byte_answers (junk ++ 0x5a ∷ []) ++ got (0 ∷ []) ∷ got bytes ∷ rest)
        (some c)
      ≡ fault
unfolding read_eaton_packet read_body read_at
read_eaton_packet-overrun depth garbage stale junk bytes rest c w le lt =
    rw
      (
        (find_header-skip (suspend depth c) garbage junk _ w).1,
        take_all (2 ^ 64 - 1) bytes (omega arith),
        lt→not_leb (1 + length bytes) packet_size (omega arith),
      )
      refl
