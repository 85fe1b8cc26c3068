-- ===== src/Interrupts/Table.antt =====
-- The interrupt table: who handles what, and what the handlers of the exceptions come to.
use mathlib.Core.Option.{some-injective}
use native.Mathlib.Decide.{ℕ_discrete}
use bayos.Apic.{
  InterruptIndex, timer, keyboard, lapic_error, spurious, as_u8, IoApic, ApicInfo, Apic, init_apic,
}
use bayos.Apic.Entries.{IsIoApic, IsRouted}
use bayos.Apic.Registers.{AllRouted, init_apic_lem}
use bayos.Vfs.{ArrayQueue}
use bayos.Base.{
  ◌<◌, ◌/◌, List, [], ◌∷◌, All, get_elem?, ℕ, ◌+◌, ◌≤◌, ◌⊎◌, inl, inr, ◌%◌, ◌^◌, ◌≡◌, ◌≢◌, refl, ap,
  sym, ◌∙◌, Bool, true, false, Option, none, some, if◌then◌else◌, arith, ok, panic, hang,
}
use bayos.Gdt.{tss, double_fault_ist_index, stack_size}
use bayos.Interrupts.{
  Exception, divide_error, debug, non_maskable_interrupt, breakpoint, overflow,
  bound_range_exceeded, invalid_opcode, device_not_available, double_fault, invalid_tss,
  segment_not_present, stack_segment_fault, general_protection_fault, page_fault,
  x87_floating_point, alignment_check, machine_check, simd_floating_point, virtualization,
  cp_protection_exception, hv_injection_exception, vmm_communication_exception, security_exception,
  vector, Handler, exception, interrupt, Entry, Idt, set_handler_fn, set_exception, set_interrupt,
  set_stack_index, on_stack, idt, log, panic_handler, exception_handler,
}
use bayos.Sched.{SpinLock, acquire}

abbrev stack_of : Exception → Option ℕ
stack_of double_fault = some 0
stack_of e = none

-- The table has, at the number of each exception and of each interrupt, the handler that is named
-- after it; a double fault alone has a stack of its own, the first of the task state segment.
pub idt_lem :
    ((e : Exception)
      → idt (vector e) ≡ some (record { handler = exception e; stack_index = stack_of e }))
    × ((i : InterruptIndex)
        → idt (as_u8 i) ≡ some (record { handler = interrupt i; stack_index = none }))
unfolding idt
idt_lem = (exceptions, interrupts)
  where
    exceptions :
        (e : Exception)
        → idt (vector e) ≡ some (record { handler = exception e; stack_index = stack_of e })
    exceptions double_fault = refl
    exceptions e = refl

    interrupts :
        (i : InterruptIndex)
        → idt (as_u8 i) ≡ some (record { handler = interrupt i; stack_index = none })
    interrupts timer = refl
    interrupts i = refl

abbrev number_of : Handler → ℕ
number_of (exception e) = vector e
number_of (interrupt i) = as_u8 i

-- Each handler of a table stands at its own number.
abbrev AllOwn : Idt → Type 0
AllOwn t = (v : ℕ) (entry : Entry) → t v ≡ some entry → number_of entry.handler ≡ v

set_handler_fn-here :
    (v : ℕ) (h : Handler) (t : Idt)
    → set_handler_fn v h t v ≡ some (record { handler = h; stack_index = none })
set_handler_fn-here v h t = ground arith

set_handler_fn-other : (v w : ℕ) (h : Handler) (t : Idt) → v ≢ w → set_handler_fn v h t w ≡ t w
set_handler_fn-other v w h t ne = ground arith

set_handler_fn-AllOwn :
    (v : ℕ) (h : Handler) (t : Idt) → number_of h ≡ v → AllOwn t → AllOwn (set_handler_fn v h t)
set_handler_fn-AllOwn v h t own all w entry e = elim (ℕ_discrete v w) [
  | no other ↦ all w entry (sym (set_handler_fn-other v w h t other) ∙ e)
  | yes here ↦
      let at_v = ap (set_handler_fn v h t) here ∙ e in
      let same = some-injective _ entry (sym (set_handler_fn-here v h t) ∙ at_v) in
      ap (λ (x : Entry). number_of x.handler) (sym same) ∙ own ∙ here
]

set_exception-AllOwn : (x : Exception) (t : Idt) → AllOwn t → AllOwn (set_exception x x t)
set_exception-AllOwn x t = set_handler_fn-AllOwn (vector x) (exception x) t refl

set_interrupt-AllOwn : (i : InterruptIndex) (t : Idt) → AllOwn t → AllOwn (set_interrupt i i t)
set_interrupt-AllOwn i t = set_handler_fn-AllOwn (as_u8 i) (interrupt i) t refl

on_stack-own :
    (o : Option Entry) (index v : ℕ) (entry : Entry)
    → ((before : Entry) → o ≡ some before → number_of before.handler ≡ v)
    → on_stack o index ≡ some entry
    → number_of entry.handler ≡ v
on_stack-own none index v entry own e = ground (arith, e)
on_stack-own (some before) index v entry own e =
    ap (λ (x : Entry). number_of x.handler) (sym (some-injective _ entry e)) ∙ own before refl

set_stack_index-here : (v index : ℕ) (t : Idt) → set_stack_index v index t v ≡ on_stack (t v) index
set_stack_index-here v index t = ground arith

set_stack_index-other : (v index w : ℕ) (t : Idt) → v ≢ w → set_stack_index v index t w ≡ t w
set_stack_index-other v index w t ne = ground arith

set_stack_index-AllOwn : (v index : ℕ) (t : Idt) → AllOwn t → AllOwn (set_stack_index v index t)
set_stack_index-AllOwn v index t all w entry e = elim (ℕ_discrete v w) [
  | no other ↦ all w entry (sym (set_stack_index-other v index w t other) ∙ e)
  | yes here ↦
      on_stack-own (t v) index v entry (all v)
        (sym (set_stack_index-here v index t) ∙ ap (set_stack_index v index t) here ∙ e)
      ∙ here
]

-- No handler stands at a number that is not its own.
idt_only : (v : ℕ) (entry : Entry) → idt v ≡ some entry → number_of entry.handler ≡ v
unfolding idt
idt_only v entry e =
    let a0 : AllOwn (λ w. none) = λ w entry e. ground (arith, e) in
    let a1 = set_exception-AllOwn divide_error _ a0 in
    let a2 = set_exception-AllOwn debug _ a1 in
    let a3 = set_exception-AllOwn non_maskable_interrupt _ a2 in
    let a4 = set_exception-AllOwn breakpoint _ a3 in
    let a5 = set_exception-AllOwn overflow _ a4 in
    let a6 = set_exception-AllOwn bound_range_exceeded _ a5 in
    let a7 = set_exception-AllOwn invalid_opcode _ a6 in
    let a8 = set_exception-AllOwn device_not_available _ a7 in
    let a9 = set_exception-AllOwn double_fault _ a8 in
    let a10 = set_stack_index-AllOwn (vector double_fault) double_fault_ist_index _ a9 in
    let a11 = set_exception-AllOwn invalid_tss _ a10 in
    let a12 = set_exception-AllOwn segment_not_present _ a11 in
    let a13 = set_exception-AllOwn stack_segment_fault _ a12 in
    let a14 = set_exception-AllOwn general_protection_fault _ a13 in
    let a15 = set_exception-AllOwn page_fault _ a14 in
    let a16 = set_exception-AllOwn x87_floating_point _ a15 in
    let a17 = set_exception-AllOwn alignment_check _ a16 in
    let a18 = set_exception-AllOwn machine_check _ a17 in
    let a19 = set_exception-AllOwn simd_floating_point _ a18 in
    let a20 = set_exception-AllOwn virtualization _ a19 in
    let a21 = set_exception-AllOwn cp_protection_exception _ a20 in
    let a22 = set_exception-AllOwn hv_injection_exception _ a21 in
    let a23 = set_exception-AllOwn vmm_communication_exception _ a22 in
    let a24 = set_exception-AllOwn security_exception _ a23 in
    let a25 = set_interrupt-AllOwn timer _ a24 in
    let a26 = set_interrupt-AllOwn keyboard _ a25 in
    let a27 = set_interrupt-AllOwn lapic_error _ a26 in
    set_interrupt-AllOwn spurious _ a27 v entry e

-- A double fault runs on the end of the stack that the task state segment has for it, and that stack is
-- not the one that interrupts of a program run on.
idt-tss :
    (privilege_stack interrupt_stack : ℕ)
    → privilege_stack + stack_size ≤ interrupt_stack
      ⊎ interrupt_stack + stack_size ≤ privilege_stack
    → (index : ℕ) × (idt (vector double_fault)
        ≡ some (record { handler = exception double_fault; stack_index = some index }))
      × ((tss privilege_stack interrupt_stack).interrupt_stack_table index
          ≡ interrupt_stack + stack_size)
      × ((tss privilege_stack interrupt_stack).privilege_stack_table 0
          ≢ interrupt_stack + stack_size)
unfolding tss
idt-tss privilege_stack interrupt_stack apart = (0, idt_lem.0 double_fault, refl, different apart)
  where
    different :
        (privilege_stack + stack_size ≤ interrupt_stack)
          ⊎ (interrupt_stack + stack_size ≤ privilege_stack)
        → privilege_stack + stack_size ≢ interrupt_stack + stack_size
    different (inl below) e = omega (arith, below, e)
    different (inr above) e = omega (arith, above, e)

-- Whether the interrupted code goes on after the exception.
abbrev returns : Exception → Bool
returns debug = true
returns breakpoint = true
returns e = false

module _ (k : SpinLock) where
  -- With the lock of the screen free, a debug exception and a breakpoint are logged, and the code goes
  -- on, with the lock free again; every other exception ends in a panic.
  exception_handler_lem :
      (e : Exception)
      → exception_handler k e k.unlocked ≡ (if returns e then ok k.unlocked else panic)
  unfolding exception_handler panic_handler log
  exception_handler_lem e =
      let (held, locks, unlocks) = k.lock_unlocked in outcome e held locks unlocks
    where
      outcome :
          (e : Exception) (held : k.Lock)
          → k.lock k.unlocked ≡ some held
          → k.unlock held ≡ k.unlocked
          → exception_handler k e k.unlocked ≡ (if returns e then ok k.unlocked else panic)
      outcome divide_error held locks unlocks = rw (acquire, locks)
      outcome debug held locks unlocks = rw (acquire, locks, unlocks)
      outcome breakpoint held locks unlocks = rw (acquire, locks, unlocks)
      outcome e held locks unlocks = rw (acquire, locks)

  -- While the code that it interrupts holds the lock of the screen, no exception ends: its handler, and
  -- the panic handler, wait for the lock, and so the kernel hangs without a message.
  pub exception_handler_held :
      (e : Exception) (l held : k.Lock) → k.lock l ≡ some held → exception_handler k e held ≡ hang
  unfolding exception_handler panic_handler log
  exception_handler_held divide_error l held locked = rw (acquire, k.lock_held l held locked)
  exception_handler_held e l held locked = rw (acquire, k.lock_held l held locked)

abbrev IsHandled : ℕ → InterruptIndex → Type 0
IsHandled v i = idt (v % 2 ^ 8) ≡ some (record { handler = interrupt i; stack_index = none })

vector-IsHandled : (v : ℕ) (i : InterruptIndex) → v % 2 ^ 8 ≡ as_u8 i → IsHandled v i
vector-IsHandled v i e = ap idt e ∙ idt_lem.1 i

-- The I/O APIC is not the first, or its keyboard's line goes to the handler of the keyboard.
abbrev pub KeyboardHandled : IoApic → Type 0
KeyboardHandled io =
    (io.global_system_interrupt_base ≢ 0)
    ⊎ (idt (io.registers 0x12 % 2 ^ 8)
        ≡ some (record { handler = interrupt keyboard; stack_index = none }))

routed-KeyboardHandled : (id : ℕ) (io io' : IoApic) → IsRouted id io io' → KeyboardHandled io'
routed-KeyboardHandled id io io' routed = elim (ℕ_discrete io.global_system_interrupt_base 0) [
  | no later ↦ inl (λ e. later (sym routed.same_place.1 ∙ e))
  | yes first ↦ inr (
      vector-IsHandled (io'.registers 0x12) keyboard
        (ap (λ v. v % 2 ^ 8) (routed.keyboard_vector first)))
]

All-KeyboardHandled :
    (id : ℕ) (ios ios' : List IoApic) → AllRouted id ios ios' → All KeyboardHandled ios'
All-KeyboardHandled id [] [] routed = tt
All-KeyboardHandled id [] (io' ∷ ios') routed = absurd routed
All-KeyboardHandled id (io ∷ ios) [] routed = absurd routed
All-KeyboardHandled id (io ∷ ios) (io' ∷ ios') routed =
    (routed-KeyboardHandled id io io' routed.0, All-KeyboardHandled id ios ios' routed.1)

module _ (a : ArrayQueue) where
  -- At its first call, on a platform with APICs that can be reached and each have more than one entry,
  -- where the port shows the other timer's end sooner or later, `init_apic` ends with vectors that the
  -- table has handlers for: the local timer's is that of the timer, that of the local APIC's errors and
  -- the spurious one are those of their handlers, and on the first I/O APIC the keyboard's line has that
  -- of the keyboard.
  pub init_apic-idt :
      (info : ApicInfo) (phys_offset : ℕ) (hardware : ℕ → ℕ) (v w : ℕ) (pit : List ℕ)
      (count i u : ℕ) (ports : List (ℕ × ℕ))
      → 0 < phys_offset
      → phys_offset + info.local_apic_address < 2 ^ 64
      → All (IsIoApic phys_offset) info.io_apics
      → count < 2 ^ 32
      → get_elem? pit i ≡ some u
      → u / 2 ^ 5 % 2 ≡ 1
      → (s' : Apic a) × (ios' : List IoApic) × (lapic : ℕ → ℕ) × (init_apic a
            (some info)
            phys_offset
            hardware
            (v ∷ w ∷ pit)
            count
            (record { ports = ports; lapic = none; pipe = none })
          ≡ ok (s', ios'))
        × (s'.lapic ≡ some lapic)
        × (idt (lapic 200 % 2 ^ 8)
            ≡ some (record { handler = interrupt timer; stack_index = none }))
        × (idt (lapic 220 % 2 ^ 8)
            ≡ some (record { handler = interrupt lapic_error; stack_index = none }))
        × (idt (lapic 60 % 2 ^ 8)
            ≡ some (record { handler = interrupt spurious; stack_index = none }))
        × All KeyboardHandled ios'
  init_apic-idt info phys_offset hardware v w pit count i u ports pos room reach small here high =
      let (s', ios', run, c) =
        init_apic_lem a info phys_offset hardware v w pit count i u ports pos room reach small here
          high in
      (
        s',
        ios',
        c.lapic,
        run,
        c.has_lapic,
        vector-IsHandled (c.lapic 200) timer (ap (λ n. n % 2 ^ 8) c.set_up.timer_vector),
        vector-IsHandled (c.lapic 220) lapic_error (ap (λ n. n % 2 ^ 8) c.set_up.error_vector),
        vector-IsHandled (c.lapic 60) spurious (ap (λ n. n % 2 ^ 8) c.set_up.spurious_vector),
        All-KeyboardHandled (hardware 8) info.io_apics ios' c.routed,
      )
