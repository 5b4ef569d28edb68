-- ===== src/Tests/Scheduling.antt =====
-- The scheduler's theorems and functions on the small machine.
use disasteros.Common.{
  ℕ, ◌≡◌, refl, Bool, true, false, Option, none, some, [], ◌∷◌, ◌==◌, erase, if◌then◌else◌, arith,
}
use disasteros.Sched.Thread.{ready, stopped, quantum, pipe, Sched}
use disasteros.Sched.Queue.{
  sched_register_timeout, sched_queue_select, sched_boost, wakeup, sched_make_ready,
  insert_by_wakeup, wake_expired, boost_from, boost_one, cancel_timeout, enter_ready, pop_first,
}
use disasteros.Sched.Switch.{retire, boost_when_due, switch_to, yield, gain, sleep_releasing}
use disasteros.Sched.Waking.{Wakes, wakeup_lem}
use disasteros.Sched.Handoff.{Handoff}
use disasteros.Sched.Yield.{yield-Handoff}
use disasteros.Sched.Gain.{Gained, gain_lem}
use disasteros.Sched.Sleep.{sleep_releasing-Handoff}
use disasteros.Sched.Start.{
  run_scheduler, NotStarted, run_scheduler-Handoff, initialize_scheduler,
  initialize_scheduler-IsValid,
}
use disasteros.Sched.Thread.{idle}
use disasteros.Sched.Valid.{IsValid}
use disasteros.Sched.Handoff.{HasIdle}
use disasteros.Tests.Machine.{
  machine, machine-IsValid, machine-OnCpu, machine-HasIdle, machine-MaySleep,
}

wakeup_example : (r : Sched × Bool) × (wakeup 41 machine ≡ some r) × Wakes 41 machine r
wakeup_example = wakeup_lem 41 machine-IsValid refl refl

yield-Handoff_example :
    (s' : Sched) × (yield 0 quantum 600 machine ≡ some (true, s')) × Handoff 0 40 s'
yield-Handoff_example = yield-Handoff 0 quantum 600 machine-IsValid machine-OnCpu machine-HasIdle

sleep_releasing-Handoff_example :
    (s' : Sched) × (sleep_releasing 0 stopped pipe 200 100 110 machine ≡ some (true, s'))
    × Handoff 0 40 s'
sleep_releasing-Handoff_example =
    sleep_releasing-Handoff 0 stopped pipe 200 100 110 machine-IsValid machine-MaySleep
      machine-HasIdle refl (ground arith)

-- After the yield of thread 40, thread 42 gains the core.
abbrev handed : Sched
handed = record machine {
  tcb = λ t.
      if t == 40
      then record (machine.tcb 40) { state = ready; next = 42 }
      else if t == 42
      then record (machine.tcb 42) { prev = 40 }
      else machine.tcb t;
  queue = λ p. if p == 3 then 43 ∷ [] else [];
  current_thread = λ core. if core == 0 then 42 else core;
}

handed-Handoff : Handoff 0 40 handed
handed-Handoff = record {
  valid = record {
    timed = λ t. ground arith;
    listed = λ t. ground arith;
    queued = λ p t. ground arith;
    enqueued = λ t. ground arith;
    bounded = λ t. ground arith;
    remembered = λ t. ground arith;
  };
  is_core = ground arith;
  live = refl;
  unqueued = λ p. ground arith;
  no_timer = refl;
  prev = refl;
  old_live = refl;
  old_dirty = refl;
  old_state = (ground arith, ground arith);
}

gain_example : (s' : Sched) × (gain 0 true handed ≡ some s') × Gained 0 40 handed-Handoff s'
gain_example = gain_lem 0 40 handed-Handoff true

-- The thread that has core 0 after a step.
abbrev holder : Option (Bool × Sched) → Option ℕ
holder none = none
holder (some (_, s)) = some (s.current_thread 0)

abbrev chosen : Option (Option ℕ × Sched) → Option ℕ
chosen none = none
chosen (some (t, _)) = t

-- At time 600 thread 41 is woken too, but 42 stands before it; the fifth time slice lifts 43.
yield_test : holder (yield 0 quantum 600 machine) ≡ some 42
unfolding yield retire sched_queue_select wake_expired boost_when_due sched_boost boost_from
    boost_one sched_make_ready cancel_timeout enter_ready erase switch_to pop_first
yield_test = refl

select_test : chosen (sched_queue_select 600 machine) ≡ some 42
unfolding sched_queue_select wake_expired sched_make_ready cancel_timeout enter_ready erase
    pop_first
select_test = refl

boost_test : (sched_boost machine).queue 2 ≡ 43 ∷ []
unfolding sched_boost boost_from boost_one
boost_test = refl

insert_test : (sched_register_timeout 44 600 10 machine).timeout_list ≡ 41 ∷ 44 ∷ []
unfolding sched_register_timeout insert_by_wakeup
insert_test = refl

second-NotStarted : NotStarted 1 machine
second-NotStarted = record {
  is_core = ground arith;
  unused = refl;
  no_thread = refl;
  no_priority = refl;
  no_contention = refl;
}

-- The second core is started while the first runs its thread.
run_scheduler-Handoff_example :
    IsValid (run_scheduler 1 machine)
    × HasIdle 1 (run_scheduler 1 machine)
    × (s' : Sched) × (yield 1 idle 600 (run_scheduler 1 machine) ≡ some (true, s'))
    × Handoff 1 1 s'
run_scheduler-Handoff_example =
    run_scheduler-Handoff 1 600 machine second-NotStarted machine-IsValid

abbrev at_boot : Sched
at_boot = record machine { live = λ t. false; current_thread = λ core. core }

at_boot-NotStarted : NotStarted 0 (initialize_scheduler at_boot)
unfolding initialize_scheduler
at_boot-NotStarted = record {
  is_core = ground arith;
  unused = refl;
  no_thread = refl;
  no_priority = refl;
  no_contention = refl;
}

boot_test : IsValid (run_scheduler 0 (initialize_scheduler at_boot))
boot_test =
    let (v, i, s, e, h) =
      run_scheduler-Handoff 0 600 (initialize_scheduler at_boot) at_boot-NotStarted
        (initialize_scheduler-IsValid at_boot (λ t. refl)) in
    v
