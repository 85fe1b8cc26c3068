-- ===== src/Sched/Turns.antt =====
-- Taking turns: one process is running and all others are ready, and each has its turn.
use native.Mathlib.Decide.{dec_lt, ℕ_discrete}
use native.Mathlib.Nat.{mod-add-mod, mod-eq_of_lt, mod_self}
use bayos.Base.{
  ℕ, zero, suc, ◌+◌, ◌%◌, ◌≤◌, ◌<◌, ◌≡◌, ◌≢◌, ◌⊎◌, refl, sym, ap, ◌∙◌, inl, inr, some, List, [],
  ◌∷◌, ◌++◌, arith, length, length-set, length-append, get_elem?, get_elem?-lt, get_elem?-set_self,
  get_elem?-set_ne, set, Exec, ok, ◌>>=◌,
}
use bayos.Sched.{
  SpinLock, Sched, Process, ready, running, is_dead, boot_process, init, push, schedule,
}
use bayos.Sched.Loop.{Choice, behind, place}
use bayos.Sched.Tick.{IsFree, suspended, switched, schedule_lem}

-- The current process is the one that is running, and every other process is ready.
pub record TakesTurns (list : List Process) (current : ℕ) : Type 0 where
  pub process : Process
  pub stands : get_elem? list current ≡ some process
  pub runs : process.status ≡ running
  pub others : (j : ℕ) (q : Process) → j ≢ current → get_elem? list j ≡ some q → q.status ≡ ready

TakesTurns-choice :
    (list : List Process) (i : ℕ) (p : Process) (c : Choice list i)
    → get_elem? list i ≡ some p
    → ((j : ℕ) (q : Process) → get_elem? list j ≡ some q → q.status ≡ ready)
    → c.distance ≡ 0
TakesTurns-choice list i p c here all = elim (ℕ_discrete c.distance 0) [
  | yes e ↦ e
  | no far ↦
      let (q, stands, idle) = c.passed 0 (omega arith) in
      let is_ready' : q.status ≡ ready = all (behind (length list) i 0) q stands in ground arith
]

-- Once the current process has given up the processor, every process is ready.
all_ready :
    (list : List Process) (i : ℕ) (p : Process)
    → p.status ≡ ready
    → i < length list
    → ((j : ℕ) (q : Process) → j ≢ i → get_elem? list j ≡ some q → q.status ≡ ready)
    → (j : ℕ) (q : Process) → get_elem? (set list i p) j ≡ some q
    → q.status ≡ ready
all_ready list i p e inside others j q h = elim (ℕ_discrete j i) [
  | yes same ↦
      let now : some p ≡ some q =
        sym (get_elem?-set_self list i p inside) ∙ ap (get_elem? (set list i p)) (sym same) ∙ h in
      ground arith
  | no other ↦ others j q other (sym (get_elem?-set_ne list i j p (λ e'. other (sym e'))) ∙ h)
]

one_running :
    (list : List Process) (i : ℕ) (p : Process)
    → p.status ≡ running
    → i < length list
    → ((j : ℕ) (q : Process) → get_elem? list j ≡ some q → q.status ≡ ready)
    → TakesTurns (set list i p) i
one_running list i p e inside all = record {
  process = p;
  stands = get_elem?-set_self list i p inside;
  runs = e;
  others = λ j q other h. all j q (sym (get_elem?-set_ne list i j p (λ e'. other (sym e'))) ∙ h);
}

-- The index behind `i`, by the remainder.
behind_mod : (n i : ℕ) → i < n → behind n i 0 ≡ (i + 1) % n
behind_mod n i h = elim (dec_lt (i + 1) n) [
  | yes lt ↦ ground (arith, mod-eq_of_lt lt)
  | no le ↦
      let last : i + 1 ≡ n = omega arith in
      let zero' : (i + 1) % n ≡ 0 = ap (λ t. t % n) last ∙ mod_self n in ground arith
]

boot_only :
    (j : ℕ) (q : Process) → j ≢ 0 → get_elem? (boot_process ∷ []) j ≡ some q → q.status ≡ ready
boot_only zero q other h = absurd (other refl)
boot_only (suc j) q other h = ground arith

module _ (k : SpinLock) where
  abbrev pub InTurn : Sched k → Type 0
  InTurn s = TakesTurns s.process_list s.current_process

  -- The process list starts with the boot process running, and takes turns.
  init-InTurn : IsFree k (init k) × InTurn (init k)
  unfolding init
  init-InTurn = (
    record { list_free = refl; current_free = refl },
    record { process = boot_process; stands = refl; runs = refl; others = boot_only },
  )

  -- A tick from a state that takes turns gives the turn to the next process of the list, round its
  -- end: `schedule` returns with as many rounds of its loop as there are processes, and hands back the
  -- stack pointer that is saved for that process. The state takes turns again, with the locks free, as
  -- many processes, and the stack pointer of the process that was interrupted saved.
  schedule-InTurn :
      (fuel rsp : ℕ) (s : Sched k)
      → IsFree k s
      → InTurn s
      → length s.process_list ≤ fuel
      → (t : Sched k) × (next : Process) × (schedule k fuel rsp s ≡ ok (t, next.rsp))
        × IsFree k t
        × InTurn t
        × (length t.process_list ≡ length s.process_list)
        × (t.current_process ≡ (s.current_process + 1) % length s.process_list)
        × ((p : Process) × (get_elem? s.process_list s.current_process ≡ some p)
            × (get_elem? (suspended k s p rsp) t.current_process ≡ some next)
            × (t.process_list
                ≡ set (suspended k s p rsp) t.current_process (record next { status = running })))
  schedule-InTurn fuel rsp s free turn enough =
      let list = s.process_list in
      let i = s.current_process in
      let p = turn.process in
      let away : Process = record p { rsp = rsp; status = ready } in
      let inside = get_elem?-lt list i turn.stands in
      let (c, run) = schedule_lem k s free p turn.stands fuel rsp (ap is_dead turn.runs) enough in
      let size = length-set list i away in
      let all = all_ready list i away refl inside turn.others in
      let near =
        TakesTurns-choice (set list i away) i away c (get_elem?-set_self list i away inside) all in
      let there = get_elem?-lt (set list i away) (place c) c.stands in
      (
        (switched k c).0,
        c.process,
        run,
        record { list_free = refl; current_free = refl },
        one_running (set list i away) (place c) (record (c.process) { status = running }) refl there
            all,
        length-set (set list i away) (place c) (record (c.process) { status = running }) ∙ size,
        ap (behind (length (set list i away)) i) near
            ∙ ap (λ n. behind n i 0) size
            ∙ behind_mod (length list) i inside,
        (p, turn.stands, c.stands, refl),
      )

  -- The timer ticks of a run, with the stack pointer at each.
  pub ticks : List ℕ → Sched k → Exec (Sched k)
  ticks [] s = ok s
  ticks (rsp ∷ rsps) s = do (t, next) ← schedule k (length s.process_list) rsp s; ticks rsps t

  -- From a state that takes turns, with the locks free, any number of ticks succeeds, and the process that has the turn
  -- after `n` of them is the one `n` places behind, round the end of the list: each process has its
  -- turn once in as many ticks as there are processes.
  pub ticks-InTurn :
      (rsps : List ℕ) (s : Sched k)
      → IsFree k s
      → InTurn s
      → (t : Sched k) × (ticks rsps s ≡ ok t)
        × IsFree k t
        × InTurn t
        × (t.current_process ≡ (s.current_process + length rsps) % length s.process_list)
        × (length t.process_list ≡ length s.process_list)
  unfolding ticks
  ticks-InTurn [] s free turn =
      let inside = get_elem?-lt s.process_list s.current_process turn.stands in
      (
        s,
        refl,
        free,
        turn,
        sym (mod-eq_of_lt inside)
            ∙ ap (λ t. t % length s.process_list) {y = s.current_process + 0} (omega arith),
        refl,
      )
  ticks-InTurn (rsp ∷ rsps) s free turn =
      let (t, next, run, free', turn', size, at, _) =
        schedule-InTurn (length s.process_list) rsp s free turn (omega arith) in
      let (u, rest, free'', turn'', at', size') = ticks-InTurn rsps t free' turn' in
      (
        u,
        rw run rest,
        free'',
        turn'',
        at'
            ∙ ap (λ n. (t.current_process + length rsps) % n) size
            ∙ ap (λ i. (i + length rsps) % length s.process_list) at
            ∙ mod-add-mod (s.current_process + 1) (length s.process_list) (length rsps)
            ∙ ap (λ t. t % length s.process_list) {x = s.current_process + 1 + length rsps}
                {y = s.current_process + suc (length rsps)} (omega arith),
        size' ∙ size,
      )

  get_elem?-push :
      (list : List Process) (p : Process) (j : ℕ) (q : Process)
      → get_elem? (list ++ p ∷ []) j ≡ some q
      → (get_elem? list j ≡ some q) ⊎ (p ≡ q)
  get_elem?-push [] p zero q h = inr (cc)
  get_elem?-push [] p (suc j) q h = ground arith
  get_elem?-push (x ∷ list) p zero q h = inl h
  get_elem?-push (x ∷ list) p (suc j) q h = get_elem?-push list p j q h

  get_elem?-kept :
      (list : List Process) (p : Process) (j : ℕ) {q : Process}
      → get_elem? list j ≡ some q
      → get_elem? (list ++ p ∷ []) j ≡ some q
  get_elem?-kept [] p j h = ground arith
  get_elem?-kept (x ∷ list) p zero h = h
  get_elem?-kept (x ∷ list) p (suc j) h = get_elem?-kept list p j h

  -- A ready process that is added waits for its turn: the current process stays the running one.
  push-InTurn :
      (p : Process) (s : Sched k)
      → IsFree k s
      → InTurn s
      → p.status ≡ ready
      → (t : Sched k) × (push k p s ≡ ok t)
        × IsFree k t
        × InTurn t
        × (length t.process_list ≡ length s.process_list + 1)
        × (t.current_process ≡ s.current_process)
  unfolding push
  push-InTurn p s free turn waiting =
      let (held, locks, unlocks) = k.lock_unlocked in
      (
        record s { process_list = s.process_list ++ p ∷ []; list_lock = k.unlock held },
        ground (arith, free.list_free, locks),
        record { list_free = unlocks; current_free = free.current_free },
        record {
          process = turn.process;
          stands = get_elem?-kept s.process_list p s.current_process turn.stands;
          runs = turn.runs;
          others = λ j q other h. elim (get_elem?-push s.process_list p j q h) [
            | inl old ↦ turn.others j q other old
            | inr new ↦ ap (λ (x : Process). x.status) (sym new) ∙ waiting
          ];
        },
        length-append s.process_list (p ∷ []),
        refl,
      )
