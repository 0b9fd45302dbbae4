-- ===== src/Tests/Budgets.antt =====
-- The time that `New` takes to start a server that comes up late.
use conmon_rs.Base.{ℕ, ◌+◌, ◌*◌, ◌≤◌, ◌≡◌, refl, arith, if◌then◌else◌}
use conmon_rs.Base.Results.{Result, ok, err}
use conmon_rs.Server.{new}
use conmon_rs.Server.Budget.{Prices}
use conmon_rs.Server.Budget.Calls.{IsFree}
use conmon_rs.Server.Budget.New.{answers, spent-new}
use conmon_rs.Tests.Memory.{Memory, in_memory}
use conmon_rs.Tests.Life.{Network, late_server, system, dialed, called, just_started}
use conmon_rs.Tests.Start.{trace}
use conmon_rs.Tests.Settings.{settings}

killed : (w : Network) (pid signal : ℕ) → (system.kill pid signal w).1.clock ≡ w.clock
killed w pid signal = ground arith

clock : Prices in_memory late_server system (λ w. w.clock) 0 1
clock = record {
  makes = λ path mode w. refl;
  reads = λ path w. refl;
  removes = λ path w. refl;
  kills = λ pid signal w. killed w pid signal;
  performs = λ effect w. refl;
  runs = λ c w. omega arith;
  sleeps = λ ms w. omega arith;
}

dialed_same : (w : Network) → (dialed w).1.clock ≡ w.clock
dialed_same w = ground arith

called_same_clock : (r : Result Memory) (w : Network) → (called r w).1.clock ≡ w.clock
called_same_clock (ok m) w = refl
called_same_clock (err e) w = refl

free : IsFree in_memory late_server (λ w. w.clock)
free = record {
  opens = λ path w. refl;
  closes = λ f w. refl;
  dials = λ network name w. dialed_same w;
  ends = λ conn w. refl;
  calls = λ conn method r w. called_same_clock r w;
}

spent-new_example :
    (new in_memory late_server system trace settings just_started).1.clock
    ≤ 0
      + (if answers in_memory late_server system trace settings just_started
          then 0
          else 0 + 10100 * 1)
spent-new_example =
    spent-new in_memory late_server system trace (λ w. w.clock) 0 1 clock free settings just_started
