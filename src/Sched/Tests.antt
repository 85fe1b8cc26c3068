-- ===== src/Sched/Tests.antt =====
-- The scheduler with three processes, and a Boolean for each lock.
use bayos.Base.{
  ℕ, ◌+◌, ◌%◌, ◌≡◌, ◌≢◌, refl, Bool, true, false, Option, none, some, List, [], ◌∷◌, arith, zero,
  suc, length, get_elem?, ok, hang,
}
use bayos.Sched.{
  SpinLock, Sched, Process, Status, ready, running, dead, schedule, suspend, next_ready,
}
use bayos.Sched.Loop.{Choice}
use bayos.Sched.Tick.{IsFree, suspended, switched, schedule_lem, schedule_dead}
use bayos.Sched.Turns.{InTurn, ticks, ticks-InTurn}

-- `true` is a lock that is held.
abbrev take_lock : Bool → Option Bool
take_lock true = none
take_lock false = some true

pub take_lock_held : (l held : Bool) → take_lock l ≡ some held → take_lock held ≡ none
take_lock_held true held e = ground arith
take_lock_held false true e = refl
take_lock_held false false e = ground arith

abbrev pub flags : SpinLock
flags = record {
  Lock = Bool;
  unlocked = false;
  lock = take_lock;
  unlock = λ l. false;
  lock_unlocked = (true, refl, refl);
  lock_held = take_lock_held;
}

abbrev process : ℕ → Status → Process
process rsp status = record {
  id = 2;
  status = status;
  rsp = rsp;
  kernel_stack = none;
  mapper = none;
  pages = none;
}

abbrev three : List Process
three = process 10 ready ∷ process 20 running ∷ process 30 ready ∷ []

abbrev pub state : Sched flags
state = record {
  process_list = three;
  list_lock = false;
  current_process = 1;
  current_lock = false;
}

abbrev dying : Sched flags
dying = record state { process_list = process 10 ready ∷ process 20 dead ∷ [] }

state-IsFree : IsFree flags state
state-IsFree = record { list_free = refl; current_free = refl }

others : (j : ℕ) (q : Process) → j ≢ 1 → get_elem? three j ≡ some q → q.status ≡ ready
others zero q other e = ground arith
others (suc zero) q other e = absurd (other refl)
others (suc (suc zero)) q other e = ground arith
others (suc (suc (suc j))) q other e = ground arith

state-InTurn : InTurn flags state
state-InTurn = record { process = process 20 running; stands = refl; runs = refl; others = others }

schedule_runs :
    schedule flags 3 21 state
    ≡ ok (
      record state {
        process_list = process 10 ready ∷ process 21 ready ∷ process 30 running ∷ [];
        current_process = 2;
      },
      30,
    )
unfolding schedule suspend next_ready
schedule_runs = refl

schedule_lem_example :
    (c : Choice (suspended flags state (process 20 running) 21) 1) × (schedule flags 3 21 state
      ≡ ok (switched flags c))
schedule_lem_example =
    schedule_lem flags state state-IsFree (process 20 running) refl 3 21 refl (omega arith)

schedule_dead_example : schedule flags 100 21 dying ≡ hang
schedule_dead_example =
    schedule_dead flags dying (record { list_free = refl; current_free = refl }) (process 20 dead)
      refl 100 21 refl

ticks-InTurn_example :
    (t : Sched flags) × (ticks flags (21 ∷ 31 ∷ 11 ∷ 22 ∷ []) state ≡ ok t)
    × IsFree flags t
    × InTurn flags t
    × (t.current_process ≡ (1 + 4) % 3)
    × (length t.process_list ≡ 3)
ticks-InTurn_example = ticks-InTurn flags (21 ∷ 31 ∷ 11 ∷ 22 ∷ []) state state-IsFree state-InTurn
