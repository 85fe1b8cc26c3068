-- ===== src/Sched/Loop.antt =====
-- The loop of `schedule`: it breaks at the first process behind the current one that is ready.
use native.Mathlib.Decide.{ℕ_discrete}
use bayos.Base.{
  ℕ, zero, suc, ◌+◌, ◌-◌, ◌≤◌, ◌<◌, ◌≡◌, sym, ap, subst, ◌∙◌, inl, inr, true, false, some, List,
  arith, length, get_elem?, get_elem?-total, set, Bool-cases, ltb, leb, if◌then◌else◌, ok,
}
use bayos.Sched.{Process, running, is_ready, next_ready}

-- The index `d + 1` places behind `i`, round the end of a list of `n`.
abbrev pub behind : ℕ → ℕ → ℕ → ℕ
behind n i d = if ltb (i + 1 + d) n then i + 1 + d else i + 1 + d - n

-- A process stands there that is not ready.
abbrev pub Idle : List Process → ℕ → Type 0
Idle list j = (p : Process) × (get_elem? list j ≡ some p) × (is_ready p.status ≡ false)

-- What the loop chooses: the nearest ready process behind `i`, the process `i` itself last.
pub record Choice (list : List Process) (i : ℕ) : Type 0 where
  pub distance : ℕ
  pub process : Process
  pub near : distance < length list
  pub stands : get_elem? list (behind (length list) i distance) ≡ some process
  pub is_ready_there : is_ready process.status ≡ true
  pub passed : (e : ℕ) → e < distance → Idle list (behind (length list) i e)

abbrev pub place : {list : List Process} {i : ℕ} → Choice list i → ℕ
place {list} {i} c = behind (length list) i c.distance

abbrev pub chosen : {list : List Process} {i : ℕ} → Choice list i → ℕ × List Process
chosen {list} c = (place c, set list (place c) (record (c.process) { status = running }))

pub behind-lt : (n i d : ℕ) → i < n → d < n → behind n i d < n
behind-lt n i d hi hd = ground arith

behind_last : (n i d : ℕ) → i < n → d + 1 ≡ n → behind n i d ≡ i
behind_last n i d hi hd = ground arith

behind_step :
    (n i d : ℕ)
    → i < n
    → d + 1 < n
    → (if leb n (behind n i d + 1) then 0 else behind n i d + 1) ≡ behind n i (d + 1)
behind_step n i d hi hd = ground arith

pub behind_first : (n i : ℕ) → i < n → (if leb n (i + 1) then 0 else i + 1) ≡ behind n i 0
behind_first n i hi = ground arith

abbrev step : List Process → ℕ → ℕ
step list cur = if leb (length list) (cur + 1) then 0 else cur + 1

module _ (list : List Process) (fuel cur j : ℕ) (p : Process) (at : step list cur ≡ j)
    (here : get_elem? list j ≡ some p) where
  next_ready-stop :
      is_ready p.status ≡ true
      → next_ready (suc fuel) cur list ≡ ok (j, set list j (record p { status = running }))
  unfolding next_ready
  next_ready-stop e = ground (arith, ap (get_elem? list) at)

  next_ready-go :
      is_ready p.status ≡ false → next_ready (suc fuel) cur list ≡ next_ready fuel j list
  unfolding next_ready
  next_ready-go e = ground (arith, ap (get_elem? list) at)

module _ (list : List Process) (i : ℕ) (inside : i < length list) where
  abbrev found :
      (d : ℕ) (p : Process)
      → d < length list
      → get_elem? list (behind (length list) i d) ≡ some p
      → is_ready p.status ≡ true
      → ((e : ℕ) → e < d → Idle list (behind (length list) i e))
      → Choice list i
  found d p near here stop skip = record {
    distance = d;
    process = p;
    near = near;
    stands = here;
    is_ready_there = stop;
    passed = skip;
  }

  extend :
      (d : ℕ)
      → ((e : ℕ) → e < d → Idle list (behind (length list) i e))
      → Idle list (behind (length list) i d)
      → (e : ℕ) → e < d + 1
      → Idle list (behind (length list) i e)
  extend d skip here e h = elim (ℕ_discrete e d) [
    | yes same ↦ subst (λ t. Idle list (behind (length list) i t)) (sym same) here
    | no other ↦ skip e (omega arith)
  ]

  search :
      (rounds d fuel cur : ℕ)
      → d + suc rounds ≡ length list
      → rounds < fuel
      → step list cur ≡ behind (length list) i d
      → ((p : Process) → get_elem? list i ≡ some p → is_ready p.status ≡ true)
      → ((e : ℕ) → e < d → Idle list (behind (length list) i e))
      → (c : Choice list i) × (next_ready fuel cur list ≡ ok (chosen c))
  search rounds d zero cur count enough at self skip = absurd (omega arith)
  search zero d (suc fuel) cur count enough at self skip =
      let (p, here) = get_elem?-total list i inside in
      let home : behind (length list) i d ≡ i =
        behind_last (length list) i d inside (omega arith) in
      let here' : get_elem? list (behind (length list) i d) ≡ some p =
        ap (get_elem? list) home ∙ here in
      (
        found d p (omega arith) here' (self p here) skip,
        next_ready-stop list fuel cur (behind (length list) i d) p at here' (self p here),
      )
  search (suc rounds) d (suc fuel) cur count enough at self skip =
      let j = behind (length list) i d in
      let (p, here) = get_elem?-total list j (behind-lt (length list) i d inside (omega arith)) in
      let next =
        search rounds (d + 1) fuel j (omega arith) (omega arith)
          (behind_step (length list) i d inside (omega arith)) self in
      elim (Bool-cases (is_ready p.status)) [
        | inl stop ↦
            (found d p (omega arith) here stop skip, next_ready-stop list fuel cur j p at here stop)
        | inr go ↦
            let (c, run) = next (extend d skip (p, here, go)) in
            (c, next_ready-go list fuel cur j p at here go ∙ run)
      ]

  -- If the process at `i` is ready itself, as many rounds as there are processes are enough: the loop
  -- breaks, at the nearest ready process behind `i`, which is now running; the rest of the list is as
  -- it was.
  pub next_ready_lem :
      (fuel : ℕ)
      → length list ≤ fuel
      → ((p : Process) → get_elem? list i ≡ some p → is_ready p.status ≡ true)
      → (c : Choice list i) × (next_ready fuel i list ≡ ok (chosen c))
  next_ready_lem fuel enough self =
      search (length list - 1) 0 fuel i (omega arith) (omega arith)
        (behind_first (length list) i inside) self (λ e h. absurd (omega arith))
