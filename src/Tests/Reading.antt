-- ===== src/Tests/Reading.antt =====
-- Runs of the reading of counted bytes, of frames, of packets, and of lines.
use sysjs.Host.{Returns, array, int, string, suspended, value_of}
use sysjs.Prelude.{
  Holds, List, [], arith, inr, length, pos, refl, some, store_all, store_all-Holds, true, ℕ, ◌++◌,
  ◌<◌, ◌∷◌, ◌≡◌,
}
use sysjs.Socket.{IsSized, byte_answers, calls_of, got, wrote}
use sysjs.Socket.Eaton.{read_eaton_packet}
use sysjs.Socket.Eaton.Packets.{read_eaton_packet_lem}
use sysjs.Socket.ReadBytes.{read_bytes}
use sysjs.Socket.ReadBytes.Counts.{read_bytes-whole}
use sysjs.Socket.ReadLine.{read}
use sysjs.Socket.ReadLine.Fresh.{Waiting, read-line}
use sysjs.Socket.ReadLine.Lines.{strip_cr}
use sysjs.Socket.ReadLine.Pending.{read-pending, with_nul}
use sysjs.Socket.WebSocket.{read_ws_packet, write_ws_packet}
use sysjs.Socket.WebSocket.Framing.{read_ws_packet-write_ws_packet, wire}
use sysjs.Socket.WebSocket.Safety.{Settles, read_ws_packet-Settles}
use sysjs.Tests.Samples.{buffering, buffering-IsSized, empty_block, engine, silent}

read_bytes-whole_example :
    Returns
      (array (7 ∷ 8 ∷ []))
      (λ c'. (c'.buffer_pos ≡ 0) × (suspended c'.calls ≡ 0))
      (read_bytes engine 1 (got (7 ∷ 8 ∷ [])) (int (pos 2) ∷ []) (some silent))
read_bytes-whole_example =
    read_bytes-whole engine 1 (7 ∷ 8 ∷ []) (int (pos 2)) silent refl (omega arith)
      (buffering-IsSized [] (omega arith)) refl (omega arith) (omega arith)

read_eaton_packet_example :
    Returns
      (array (3 ∷ 10 ∷ 11 ∷ []))
      (λ c'. suspended c'.calls ≡ 0)
      (read_eaton_packet 1 empty_block 0
        (byte_answers (1 ∷ 0x5a ∷ []) ++ got (3 ∷ []) ∷ got (10 ∷ 11 ∷ []) ∷ got (0xa5 ∷ []) ∷ [])
        (some silent))
read_eaton_packet_example =
    read_eaton_packet_lem 1 empty_block 0 (1 ∷ []) (10 ∷ 11 ∷ []) [] silent (omega arith, tt)
      (omega arith)

read_ws_packet-Settles_example :
    Settles silent (read_ws_packet (λ n. true) 1 (byte_answers (0 ∷ 104 ∷ 0xff ∷ [])) (some silent))
read_ws_packet-Settles_example =
    read_ws_packet-Settles (λ n. true) 1 (byte_answers (0 ∷ 104 ∷ 0xff ∷ [])) silent (λ n. refl)
      (omega arith) (buffering-IsSized [] (omega arith))

-- The text "hi", with a stray byte before its frame.
read_ws_packet-write_ws_packet_example :
    let sent = wire (
      calls_of (write_ws_packet engine 1 (wrote 2) (string (104 ∷ 105 ∷ []) ∷ []) (some silent))) in
    value_of (read_ws_packet (λ n. true) 1 (byte_answers (9 ∷ sent) ++ []) (some silent))
    ≡ some (string (104 ∷ 105 ∷ []))
read_ws_packet-write_ws_packet_example =
    read_ws_packet-write_ws_packet (λ n. true) engine 1 1 (string (104 ∷ 105 ∷ [])) silent silent
      (9 ∷ []) [] (λ n. refl) (omega arith) (buffering-IsSized [] (omega arith)) refl
      (omega arith, tt) (omega arith, (omega arith, tt)) (omega arith, (omega arith, tt))

buffering-Waiting :
    (bytes : List ℕ)
    → length bytes < 1024
    → store_all empty_block 0 bytes (length bytes) ≡ 0
    → Waiting (buffering bytes) bytes
buffering-Waiting bytes h e = record {
  sized = buffering-IsSized bytes h;
  count = refl;
  holds = store_all-Holds empty_block 0 bytes;
  ended = e;
}

-- "ab" waits, and "c", a newline and "d" come.
read-line_example :
    Returns
      (string (strip_cr (97 ∷ 98 ∷ 99 ∷ [])))
      (λ c'. Waiting c' (100 ∷ []) × (suspended c'.calls ≡ 0))
      (read (λ n. true) 1 (got (99 ∷ 10 ∷ 100 ∷ []) ∷ []) (some (buffering (97 ∷ 98 ∷ []))))
unfolding store_all
read-line_example =
    read-line (λ n. true) 1 (buffering (97 ∷ 98 ∷ [])) (97 ∷ 98 ∷ []) (99 ∷ []) (100 ∷ []) []
      (buffering-Waiting (97 ∷ 98 ∷ []) (omega arith) refl) (inr (omega arith, omega arith))
      (omega arith, (omega arith, (omega arith, tt)))
      (omega arith, (omega arith, (omega arith, tt))) (omega arith)

read-pending_example :
    Returns
      (string (strip_cr (97 ∷ [])))
      (λ c'.
        (c'.buffer_pos ≡ 2)
        × Holds c'.read_buffer 0 (with_nul (98 ∷ []))
        × IsSized c'
        × (c'.calls ≡ []))
      (read (λ n. true) 1 [] (some (buffering (97 ∷ 10 ∷ 98 ∷ []))))
unfolding store_all
read-pending_example =
    read-pending (λ n. true) 1 [] (buffering (97 ∷ 10 ∷ 98 ∷ [])) (97 ∷ []) (98 ∷ [])
      (buffering-Waiting (97 ∷ 10 ∷ 98 ∷ []) (omega arith) refl) (omega arith, tt) (omega arith, tt)
