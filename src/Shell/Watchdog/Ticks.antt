-- ===== src/Shell/Watchdog/Ticks.antt =====
-- The ticks of the watchdog of src/js.cpp, which wrap around.
use sysjs.Prelude.{
  Bool-cases, arith, false, inl, inr, le→leb, ltb, ltb→lt, lt→not_leb, ℕ, ◌%◌, ◌+◌, ◌-◌, ◌<◌, ◌^◌,
  ◌≡◌, ◌≤◌,
}
use sysjs.Shell.Watchdog.{is_before, ticks}

pub not_ltb→le : (a b : ℕ) → ltb a b ≡ false → b ≤ a
not_ltb→le a b h = ground (arith, h)

-- `IsBefore` is right for times that are less than 2^31 ticks apart, across the wrap-around of the
-- ticks too.
pub is_before-ticks :
    (a b : ℕ) → a < b + 2 ^ 31 → b < a + 2 ^ 31 → is_before (ticks a) (ticks b) ≡ ltb a b
unfolding is_before
is_before-ticks a b h k = elim (Bool-cases (ltb a b)) [
  | inl less ↦
      let lt = ltb→lt a b less in
      rw less (le→leb (2 ^ 31) ((ticks a + 2 ^ 32 - ticks b) % 2 ^ 32) (omega (arith, lt, h, k)))
  | inr later ↦
      let ge = not_ltb→le a b later in
      rw later
        (lt→not_leb (2 ^ 31) ((ticks a + 2 ^ 32 - ticks b) % 2 ^ 32) (omega (arith, ge, h, k)))
]

-- The ticks from one time to a later one.
pub ticks_between :
    (a b : ℕ) → a ≤ b → b < a + 2 ^ 32 → (ticks b + 2 ^ 32 - ticks a) % 2 ^ 32 ≡ b - a
ticks_between a b h k = omega arith
