-- ===== src/Sched.antt =====
-- The scheduler of kernel/src/sched.rs: the list of processes, the index of the current one, and the
-- spinlocks round the two.
--
-- Not code of the kernel, and so a parameter: the spinlocks of the crate spinning_top, whose
-- documented behaviour is the record `SpinLock`. Interrupts are off in every function here, so no
-- other code of the kernel runs between the steps of one call.
pub mod Loop
pub mod Tests
pub mod Tick
pub mod Turns
use bayos.Base.{
  ℕ, zero, suc, ◌+◌, ◌-◌, ◌≡◌, Bool, true, false, Option, none, some, List, [], ◌∷◌, ◌++◌, length,
  get_elem?, set, leb, if◌then◌else◌, Exec, ok, panic, hang, out_of_fuel, ◌>>=◌, ◌>>◌, expect,
}

-- `Status`
pub data Status : Type 0 where
  ready running dead : Status

-- `status == Status::READY`, and `status != Status::DEAD`
abbrev pub is_ready : Status → Bool
is_ready ready = true
is_ready running = false
is_ready dead = false

abbrev pub is_dead : Status → Bool
is_dead ready = false
is_dead running = false
is_dead dead = true

-- `Process`. The stack stands for its address, and the page table for its number.
pub record Process : Type 0 where
  pub id : ℕ
  pub status : Status
  pub rsp : ℕ
  pub kernel_stack : Option ℕ
  pub mapper : Option ℕ
  pub pages : Option ℕ

-- A spinlock that is not reentrant: `lock` is `none` where it would wait for ever, since no other
-- code runs meanwhile.
pub record SpinLock : Type 1 where
  pub Lock : Type 0
  pub unlocked : Lock
  pub lock : Lock → Option Lock
  pub unlock : Lock → Lock
  pub lock_unlocked : (held : Lock) × (lock unlocked ≡ some held) × (unlock held ≡ unlocked)
  pub lock_held : (l held : Lock) → lock l ≡ some held → lock held ≡ none

-- `PROCESS_LIST` and `CURRENT_PROCESS`
pub record Sched (k : SpinLock) : Type 0 where
  pub process_list : List Process
  pub list_lock : k.Lock
  pub current_process : ℕ
  pub current_lock : k.Lock

-- `Vec::remove` at an index below the length.
abbrev pub remove : ℕ → List Process → List Process
remove i [] = []
remove zero (p ∷ ps) = ps
remove (suc i) (p ∷ ps) = p ∷ remove i ps

-- The first process, which is running when the kernel boots.
abbrev pub boot_process : Process
boot_process = record {
  id = 0;
  status = running;
  rsp = 0;
  kernel_stack = none;
  mapper = none;
  pages = none;
}

-- The `loop` of `schedule`: the index and the list when it breaks. The index is one of a `Vec`, so
-- `+ 1` does not wrap.
unfoldable pub next_ready : ℕ → ℕ → List Process → Exec (ℕ × List Process)
next_ready zero index list = out_of_fuel
next_ready (suc fuel) index list =
    let index' = if leb (length list) (index + 1) then 0 else index + 1 in
    expect (get_elem? list index') >>= λ p.
    let rest = next_ready fuel index' list in
    if is_ready p.status then ok (index', set list index' (record p { status = running })) else rest

module _ (k : SpinLock) where
  abbrev pub acquire : k.Lock → Exec k.Lock
  acquire l = elim (k.lock l) [ none ↦ hang | some held ↦ ok held ]

  -- `init`
  unfoldable pub init : Sched k
  init = record {
    process_list = boot_process ∷ [];
    list_lock = k.unlocked;
    current_process = 0;
    current_lock = k.unlocked;
  }

  -- `proc_list.push(process)` under the lock, as both `add_process` and `add_user_process` end.
  unfoldable pub push : Process → Sched k → Exec (Sched k)
  push p s = do
    held ← acquire s.list_lock
    ok (record s { process_list = s.process_list ++ p ∷ []; list_lock = k.unlock held })

  -- `delete_process`
  unfoldable pub delete_process : ℕ → Sched k → Exec (Sched k)
  delete_process index s = do
    held ← acquire s.list_lock
    expect (get_elem? s.process_list index) >>= λ p.
        ok (record s { process_list = remove index s.process_list; list_lock = k.unlock held })

  -- `mark_current_as_dead`
  unfoldable pub mark_current_as_dead : Sched k → Exec (Sched k)
  mark_current_as_dead s = do
    held ← acquire s.list_lock
    index_held ← acquire s.current_lock
    p ← expect (get_elem? s.process_list s.current_process)
    ok (record s {
      process_list = set s.process_list s.current_process (record p { status = dead });
      list_lock = k.unlock held;
      current_lock = k.unlock index_held;
    })

  -- The part of `schedule` before the loop, with both locks held: the stack pointer is saved, and a
  -- process that is not dead is ready again.
  unfoldable pub suspend : ℕ → Sched k → Exec (Sched k)
  suspend rsp s = do
    p ← expect (get_elem? s.process_list s.current_process)
    let saved = record p { rsp = rsp }
    let s' = record s { process_list = set s.process_list s.current_process saved }
    let gone = delete_process s.current_process s'
    if is_dead p.status
        then gone
        else ok (record s {
          process_list = set s.process_list s.current_process (record saved { status = ready });
        })

  -- `schedule`, with fuel for its loop: the state, and the stack pointer to go on with.
  unfoldable pub schedule : ℕ → ℕ → Sched k → Exec (Sched k × ℕ)
  schedule fuel rsp s = do
    index_held ← acquire s.current_lock
    held ← acquire s.list_lock
    t ← suspend rsp (record s { list_lock = held; current_lock = index_held })
    (index, list) ← next_ready fuel t.current_process t.process_list
    next ← expect (get_elem? list index)
    ok (
      record {
        process_list = list;
        list_lock = k.unlock t.list_lock;
        current_process = index;
        current_lock = k.unlock t.current_lock;
      },
      next.rsp,
    )
