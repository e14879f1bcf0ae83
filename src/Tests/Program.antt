-- ===== src/Tests/Program.antt =====
-- Runs of the watchdog and of the options of the context.
use Prim.Native.String.{String}
use sysjs.Prelude.{
  arith, false, if◌then◌else◌, inl, ltb, pos, refl, some, true, ℕ, ◌%◌, ◌+◌, ◌-◌, ◌==◌, ◌^◌, ◌≡◌,
  ◌≢◌, ◌≤◌,
}
use sysjs.Shell.Watchdog.{
  Dog, Woken, assertion_failed, is_before, looping, round, schedule, ticks, waiting,
}
use sysjs.Shell.Watchdog.Steps.{Reaches, begins, goes_on, no_dog, rounds, schedules}
use sysjs.Shell.Watchdog.Ticks.{is_before-ticks}
use sysjs.Shell.Watchdog.Wakeups.{Reaches-asserted, Reaches-deadline}

-- Across the wrap-around.
is_before-ticks_example :
    is_before (ticks (2 ^ 32 - 1)) (ticks (2 ^ 32 + 1)) ≡ ltb (2 ^ 32 - 1) (2 ^ 32 + 1)
is_before-ticks_example = is_before-ticks (2 ^ 32 - 1) (2 ^ 32 + 1) (omega arith) (omega arith)

-- A timeout of 5 ticks is set at 10.
abbrev guarded : Dog
guarded = record {
  running = true;
  has_timeout = true;
  timeout = 15;
  phase = looping;
  canceled = false;
  exit_code = pos 0;
}

guarded-Reaches : Reaches guarded
unfolding schedule
guarded-Reaches =
    goes_on no_dog guarded begins
      (schedules no_dog guarded true 10 5 (λ h. ground (arith, h)) (inl refl))

abbrev asleep : Dog
asleep = record guarded { phase = waiting (some 15) }

asleep-Reaches : Reaches asleep
unfolding round is_before
asleep-Reaches =
    goes_on guarded asleep guarded-Reaches
      (rounds guarded 10 refl (λ h. (omega arith, omega arith)))

Reaches-deadline_example : (u : ℕ) × (some 15 ≡ some u) × (u ≤ 15)
Reaches-deadline_example = Reaches-deadline asleep (some 15) asleep-Reaches refl refl

Reaches-asserted_example : schedule true 12 (some 1) asleep ≢ assertion_failed
Reaches-asserted_example =
    Reaches-asserted asleep true 12 1 asleep-Reaches (λ h. (omega arith, omega arith))

abbrev woken_at : ℕ → Woken
woken_at t = record { was_canceled = false; at = t }

-- A toggle of a context with one option, the lowest bit.
abbrev toggle_one : ℕ → ℕ → ℕ
toggle_one a b = if b == 0 then a else if a % 2 == 0 then a + 1 else a - 1
