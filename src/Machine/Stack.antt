-- ===== src/Machine/Stack.antt =====
-- Runs of `push` and of `pop`: what is pushed can be popped again, at the same place or later.
use bayos.Base.{
  ℕ, ◌+◌, ◌-◌, ◌*◌, ◌%◌, ◌^◌, ◌≤◌, ◌<◌, ◌≡◌, refl, sym, ap, subst, ◌∙◌, Bool, true, false, ◌||◌,
  List, [], ◌∷◌, ◌++◌, map, arith, length, ==_iff, if◌then◌else◌, some, get_elem?, Bool-cases, inl,
  inr,
}
use mathlib.Core.List.{reverse_aux}
use bayos.Machine.{
  Reg, number, rax, rbx, rcx, rdx, rsi, rdi, rbp, r8, r9, r10, r11, r12, r13, r14, r15, same_reg,
  Cpu, set_reg, store, Instr, push, pop, exec, run,
}

-- From `base` upwards the stack holds the values that `saved` gives to the registers, in order.
abbrev pub Holds : (mem : ℕ → ℕ) (base : ℕ) → List Reg → (Reg → ℕ) → Type 0
Holds mem base [] saved = Unit
Holds mem base (r ∷ rs) saved = (mem base ≡ saved r) × Holds mem (base + 8) rs saved

abbrev pub has : Reg → List Reg → Bool
has q [] = false
has q (r ∷ rs) = same_reg r q || has q rs

-- The registers by number; no general register has the number 4.
abbrev by_number : List Reg
by_number =
    rax ∷ rcx ∷ rdx ∷ rbx ∷ rax ∷ rbp ∷ rsi ∷ rdi ∷ r8 ∷ r9 ∷ r10 ∷ r11 ∷ r12 ∷ r13 ∷ r14 ∷ r15 ∷ []

by_number_lem : (r : Reg) → get_elem? by_number (number r) ≡ some r
by_number_lem rax = refl
by_number_lem rbx = refl
by_number_lem rcx = refl
by_number_lem rdx = refl
by_number_lem rsi = refl
by_number_lem rdi = refl
by_number_lem rbp = refl
by_number_lem r8 = refl
by_number_lem r9 = refl
by_number_lem r10 = refl
by_number_lem r11 = refl
by_number_lem r12 = refl
by_number_lem r13 = refl
by_number_lem r14 = refl
by_number_lem r15 = refl

same_reg-eq : (r q : Reg) → same_reg r q ≡ true → r ≡ q
same_reg-eq r q same =
    let n : number r ≡ number q = (==_iff (number r) (number q)).0 same in
    let e : some r ≡ some q =
      sym (by_number_lem r) ∙ ap (get_elem? by_number) n ∙ by_number_lem q in
    cc

-- A write below the saved words leaves them.
Holds-store :
    (mem : ℕ → ℕ) (a v base : ℕ) (rs : List Reg) (saved : Reg → ℕ)
    → a < base
    → Holds mem base rs saved
    → Holds (store mem a v) base rs saved
Holds-store mem a v base [] saved h s = tt
Holds-store mem a v base (r ∷ rs) saved h s =
    (ground arith, Holds-store mem a v (base + 8) rs saved (omega arith) s.1)

-- Words that agree hold the same.
pub Holds-same :
    (mem mem' : ℕ → ℕ) (base : ℕ) (rs : List Reg) (saved : Reg → ℕ)
    → ((a : ℕ) → base ≤ a → a < base + length rs * 8 → mem' a ≡ mem a)
    → Holds mem base rs saved
    → Holds mem' base rs saved
Holds-same mem mem' base [] saved e s = tt
Holds-same mem mem' base (r ∷ rs) saved e s = (
  e base (omega arith) (omega arith) ∙ s.0,
  Holds-same mem mem' (base + 8) rs saved (λ a h l. e a (omega arith) (omega arith)) s.1,
)

-- Pushing registers one after the other leaves their values on the stack, the last on top, behind
-- those that were there; it changes no register, and no word above the old top.
pub run-push :
    (rs pushed : List Reg) (c : Cpu)
    → c.rsp < 2 ^ 64
    → length rs * 8 ≤ c.rsp
    → Holds c.mem c.rsp pushed c.gpr
    → let d = run (map push rs) c in
      (d.rsp + length rs * 8 ≡ c.rsp)
      × (d.gpr ≡ c.gpr)
      × Holds d.mem d.rsp (reverse_aux rs pushed) c.gpr
unfolding run exec
run-push [] pushed c small room h = (omega arith, refl, h)
run-push (r ∷ rs) pushed c small room h =
    let top : ℕ = (c.rsp + 2 ^ 64 - 8) % 2 ^ 64 in
    let below : top + 8 ≡ c.rsp = omega arith in
    let mem' = store c.mem top (c.gpr r) in
    let kept : Holds mem' (top + 8) pushed c.gpr =
      subst (λ b. Holds mem' b pushed c.gpr) (sym below)
        (Holds-store c.mem top (c.gpr r) c.rsp pushed c.gpr (omega arith) h) in
    let here : mem' top ≡ c.gpr r = ground arith in
    let (moved, same, holds) =
      run-push rs (r ∷ pushed) (exec (push r) c) (omega arith) (omega arith) (here, kept) in
    (omega arith, same, holds)

pub run-push_above :
    (rs : List Reg) (c : Cpu)
    → c.rsp < 2 ^ 64
    → length rs * 8 ≤ c.rsp
    → (a : ℕ) → c.rsp ≤ a
    → (run (map push rs) c).mem a ≡ c.mem a
unfolding run exec
run-push_above [] c small room a h = refl
run-push_above (r ∷ rs) c small room a h =
    run-push_above rs (exec (push r) c) (omega arith) (omega arith) a (omega arith) ∙ ground arith

-- Popping registers gives them the values that the stack holds for them, in order; it changes no other
-- register and no word of memory.
pub run-pop :
    (rs : List Reg) (c : Cpu) (saved : Reg → ℕ)
    → c.rsp + length rs * 8 < 2 ^ 64
    → Holds c.mem c.rsp rs saved
    → let d = run (map pop rs) c in
      (d.rsp ≡ c.rsp + length rs * 8)
      × (d.mem ≡ c.mem)
      × ((q : Reg) → d.gpr q ≡ (if has q rs then saved q else c.gpr q))
unfolding run exec
run-pop [] c saved room h = (omega arith, refl, λ q. refl)
run-pop (r ∷ rs) c saved room h =
    let up : (c.rsp + 8) % 2 ^ 64 ≡ c.rsp + 8 = omega arith in
    let later : Holds c.mem ((c.rsp + 8) % 2 ^ 64) rs saved = rw up h.1 in
    let (moved, same, got) = run-pop rs (exec (pop r) c) saved (omega arith) later in
    (omega arith, same, λ q. got q ∙ last q)
  where
    last :
        (q : Reg)
        → (if has q rs then saved q else set_reg c.gpr r (c.mem c.rsp) q)
          ≡ (if same_reg r q || has q rs then saved q else c.gpr q)
    last q = elim (Bool-cases (same_reg r q)) [
      | inl same ↦
          let e : c.mem c.rsp ≡ saved q = h.0 ∙ ap saved (same_reg-eq r q same) in ground arith
      | inr differ ↦ ground arith
    ]

pub run-append : (is js : List Instr) (c : Cpu) → run (is ++ js) c ≡ run js (run is c)
unfolding run
run-append [] js c = refl
run-append (i ∷ is) js c = run-append is js (exec i c)
