-- ===== src/Socket/Options/Times.antt =====
-- The times that `js_sock_set_timeout` of src/js_socket.cpp hands to setsockopt(2).
use sysjs.Prelude.{
  arith, neg_part, negsuc, pos, pos_part, sub_ℕ, suc, ℕ, ℤ, ◌%◌, ◌*◌, ◌+◌, ◌-◌, ◌/◌, ◌<◌, ◌≡◌,
}
use sysjs.Socket.Options.{timeval}

-- The remainder as the code computes it.
rest_of : (n : ℕ) → n - n / 1000 * 1000 ≡ n % 1000
rest_of n = omega arith

timeval-pos :
    (n : ℕ) → timeval (pos n) ≡ record { tv_sec = pos (n / 1000); tv_usec = pos (n % 1000 * 1000) }
unfolding timeval
timeval-pos n = ground (arith, rest_of n)

negative : (k : ℕ) → (pos_part (sub_ℕ 0 k) ≡ 0) × (neg_part (sub_ℕ 0 k) ≡ k)
negative k = ground arith

timeval-negsuc :
    (n : ℕ)
    → timeval (negsuc n)
      ≡ record { tv_sec = sub_ℕ 0 (suc n / 1000); tv_usec = sub_ℕ 0 (suc n % 1000 * 1000) }
unfolding timeval
timeval-negsuc n = ground (arith, rest_of (suc n))

-- Seconds and microseconds stand for the milliseconds asked for, with less than a second of
-- microseconds, of the same sign.
pub timeval_lem :
    (ms : ℤ)
    → let t = timeval ms in
      (pos_part t.tv_sec * 1000000 + pos_part t.tv_usec ≡ pos_part ms * 1000)
      × (neg_part t.tv_sec * 1000000 + neg_part t.tv_usec ≡ neg_part ms * 1000)
      × (pos_part t.tv_usec < 1000000)
      × (neg_part t.tv_usec < 1000000)
timeval_lem (pos n) = rw (timeval-pos n) (omega arith)
timeval_lem (negsuc n) =
    rw (timeval-negsuc n) (omega (arith, negative (suc n / 1000), negative (suc n % 1000 * 1000)))
