-- ===== src/Sched/Tick.antt =====
-- `schedule` as a whole: what one timer tick does, and what many do.
use bayos.Base.{
  ℕ, ◌≤◌, ◌≡◌, refl, true, false, some, List, arith, length, length-set, get_elem?, get_elem?-lt,
  get_elem?-set_self, set, ok, hang, ◌>>=◌,
}
use bayos.Sched.{
  SpinLock, Sched, Process, ready, running, dead, is_dead, delete_process, mark_current_as_dead,
  suspend, schedule,
}
use bayos.Sched.Loop.{Choice, place, chosen, next_ready_lem}

module _ (k : SpinLock) where
  -- Neither lock is held.
  pub record IsFree (s : Sched k) : Type 0 where
    pub list_free : s.list_lock ≡ k.unlocked
    pub current_free : s.current_lock ≡ k.unlocked

  -- The list once the current process has given up the processor.
  abbrev pub suspended : Sched k → Process → ℕ → List Process
  suspended s p rsp = set s.process_list s.current_process (record p { rsp = rsp; status = ready })

  -- The state and the stack pointer once the next process is chosen.
  abbrev pub switched : {list : List Process} {i : ℕ} → Choice list i → Sched k × ℕ
  switched c = (
    record {
      process_list = (chosen c).1;
      list_lock = k.unlocked;
      current_process = place c;
      current_lock = k.unlocked;
    },
    c.process.rsp,
  )

  module _ (s : Sched k) (free : IsFree s) (p : Process)
      (here : get_elem? s.process_list s.current_process ≡ some p) where
    -- If the locks are free and the current process is not dead, `schedule` returns, with as many
    -- rounds of its loop as there are processes. The current process's stack pointer is saved and it
    -- is ready; the nearest ready process behind it, itself last, is running and current, and its
    -- saved stack pointer is returned; nothing else of the list changes, and the locks are free.
    pub schedule_lem :
        (fuel rsp : ℕ)
        → is_dead p.status ≡ false
        → length s.process_list ≤ fuel
        → (c : Choice (suspended s p rsp) s.current_process) × (schedule k fuel rsp s
            ≡ ok (switched c))
    unfolding schedule suspend
    schedule_lem fuel rsp alive enough =
        let i = s.current_process in
        let inside = get_elem?-lt s.process_list i here in
        let size = length-set s.process_list i (record p { rsp = rsp; status = ready }) in
        let again =
          get_elem?-set_self s.process_list i (record p { rsp = rsp; status = ready }) inside in
        let (held, locks, unlocks) = k.lock_unlocked in
        let (c, run) =
          next_ready_lem (suspended s p rsp) i (omega arith) fuel (omega arith)
            (λ q e. ground arith) in
        let placed =
          get_elem?-set_self (suspended s p rsp) (place c) (record (c.process) { status = running })
            (get_elem?-lt (suspended s p rsp) (place c) c.stands) in
        (c, ground (arith, free.list_free, free.current_free, locks, unlocks, run, placed, here))

    -- If the locks are free and the current process is dead, `schedule` never returns: it holds the
    -- lock of the list, and `delete_process` waits for the same lock.
    pub schedule_dead : (fuel rsp : ℕ) → is_dead p.status ≡ true → schedule k fuel rsp s ≡ hang
    unfolding schedule suspend delete_process
    schedule_dead fuel rsp gone =
        let (held, locks, _) = k.lock_unlocked in
        ground
          (arith, free.list_free, free.current_free, locks, here, k.lock_held k.unlocked held locks)

  -- With the locks free and the current process in the list, a process that marks itself dead stops
  -- the kernel: `mark_current_as_dead` succeeds, and the next call of `schedule` never returns,
  -- whatever the other processes are.
  schedule-mark_current_as_dead :
      (s : Sched k)
      → IsFree s
      → (p : Process) → get_elem? s.process_list s.current_process ≡ some p
      → (fuel rsp : ℕ) → (mark_current_as_dead k s >>= schedule k fuel rsp) ≡ hang
  unfolding mark_current_as_dead
  schedule-mark_current_as_dead s free p here fuel rsp =
      let (held, locks, unlocks) = k.lock_unlocked in
      let gone : Process = record p { status = dead } in
      let t : Sched k = record s {
        process_list = set s.process_list s.current_process gone;
        list_lock = k.unlock held;
        current_lock = k.unlock held;
      } in
      let placed =
        get_elem?-set_self s.process_list s.current_process gone
          (get_elem?-lt s.process_list s.current_process here) in
      let hangs =
        schedule_dead t (record { list_free = unlocks; current_free = unlocks }) gone placed fuel
          rsp refl in
      ground (arith, free.list_free, free.current_free, locks, here, hangs)
