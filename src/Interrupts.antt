-- ===== src/Interrupts.antt =====
-- The interrupt table and the handlers of kernel/src/int.rs that are not assembly, and the panic
-- handler of kernel/src/main.rs.
--
-- Not code of the kernel, and so parameters: the spinlock of Sched, the queue of Vfs, and the keyboard
-- decoder of the crate pc_keyboard. The numbers of the exceptions are those of the processor. What a
-- handler logs is not looked at, only that it takes the lock of the screen to do it.
pub mod Keyboard
pub mod Table
mod Tests
use bayos.Apic.{Apic, InterruptIndex, timer, keyboard, lapic_error, spurious, as_u8, send_eoi}
use bayos.Base.{
  ℕ, ◌+◌, ◌<◌, ◌≡◌, Bool, true, false, Option, none, some, List, [], ◌∷◌, ltb, ◌==◌, if◌then◌else◌,
  Exec, ok, panic, ◌>>=◌, expect,
}
use bayos.Gdt.{double_fault_ist_index}
use bayos.Sched.{SpinLock, acquire}
use bayos.Vfs.{ArrayQueue, write}

-- The exceptions that the table has a handler for.
pub data Exception : Type 0 where
  divide_error debug non_maskable_interrupt breakpoint overflow bound_range_exceeded invalid_opcode
        device_not_available double_fault invalid_tss segment_not_present stack_segment_fault
        general_protection_fault page_fault x87_floating_point alignment_check machine_check
        simd_floating_point virtualization cp_protection_exception hv_injection_exception
        vmm_communication_exception security_exception :
      Exception

abbrev pub vector : Exception → ℕ
vector divide_error = 0
vector debug = 1
vector non_maskable_interrupt = 2
vector breakpoint = 3
vector overflow = 4
vector bound_range_exceeded = 5
vector invalid_opcode = 6
vector device_not_available = 7
vector double_fault = 8
vector invalid_tss = 10
vector segment_not_present = 11
vector stack_segment_fault = 12
vector general_protection_fault = 13
vector page_fault = 14
vector x87_floating_point = 16
vector alignment_check = 17
vector machine_check = 18
vector simd_floating_point = 19
vector virtualization = 20
vector cp_protection_exception = 21
vector hv_injection_exception = 28
vector vmm_communication_exception = 29
vector security_exception = 30

-- The handlers, by what each is written for: `exception debug` is `debug_handler`, and so on.
pub data Handler : Type 0 where
  exception : Exception → Handler
  interrupt : InterruptIndex → Handler

-- An entry of the table: the handler, and the stack of the task state segment that it runs on.
pub record Entry : Type 0 where
  pub handler : Handler
  pub stack_index : Option ℕ

abbrev pub Idt : Type 0
Idt = ℕ → Option Entry

abbrev pub set_handler_fn : ℕ → Handler → Idt → Idt
set_handler_fn v h t w = if v == w then some (record { handler = h; stack_index = none }) else t w

-- The entry of an exception, and the exception whose handler it gets.
abbrev pub set_exception : (slot handler : Exception) → Idt → Idt
set_exception slot handler t = set_handler_fn (vector slot) (exception handler) t

abbrev pub set_interrupt : (index handler : InterruptIndex) → Idt → Idt
set_interrupt index handler t = set_handler_fn (as_u8 index) (interrupt handler) t

-- `set_stack_index` of an entry that is there.
abbrev pub on_stack : Option Entry → ℕ → Option Entry
on_stack none index = none
on_stack (some e) index = some (record e { stack_index = some index })

abbrev pub set_stack_index : ℕ → ℕ → Idt → Idt
set_stack_index v index t w = if v == w then on_stack (t w) index else t w

-- `IDT`, in the order of the source.
unfoldable pub idt : Idt
idt =
    let t1 = set_exception divide_error divide_error (λ w. none) in
    let t2 = set_exception debug debug t1 in
    let t3 = set_exception non_maskable_interrupt non_maskable_interrupt t2 in
    let t4 = set_exception breakpoint breakpoint t3 in
    let t5 = set_exception overflow overflow t4 in
    let t6 = set_exception bound_range_exceeded bound_range_exceeded t5 in
    let t7 = set_exception invalid_opcode invalid_opcode t6 in
    let t8 = set_exception device_not_available device_not_available t7 in
    let t9 = set_exception double_fault double_fault t8 in
    let t10 = set_stack_index (vector double_fault) double_fault_ist_index t9 in
    let t11 = set_exception invalid_tss invalid_tss t10 in
    let t12 = set_exception segment_not_present segment_not_present t11 in
    let t13 = set_exception stack_segment_fault stack_segment_fault t12 in
    let t14 = set_exception general_protection_fault general_protection_fault t13 in
    let t15 = set_exception page_fault page_fault t14 in
    let t16 = set_exception x87_floating_point x87_floating_point t15 in
    let t17 = set_exception alignment_check alignment_check t16 in
    let t18 = set_exception machine_check machine_check t17 in
    let t19 = set_exception simd_floating_point simd_floating_point t18 in
    let t20 = set_exception virtualization virtualization t19 in
    let t21 = set_exception cp_protection_exception cp_protection_exception t20 in
    let t22 = set_exception hv_injection_exception hv_injection_exception t21 in
    let t23 = set_exception vmm_communication_exception vmm_communication_exception t22 in
    let t24 = set_exception security_exception security_exception t23 in
    let t25 = set_interrupt timer timer t24 in
    let t26 = set_interrupt keyboard keyboard t25 in
    let t27 = set_interrupt lapic_error lapic_error t26 in set_interrupt spurious spurious t27

module _ (k : SpinLock) where
  -- `log::warn!` and the like: the lock of the screen is taken and given back.
  unfoldable pub log : k.Lock → Exec k.Lock
  log screen = do held ← acquire k screen; ok (k.unlock held)

  -- The panic handler: it logs, and halts for ever.
  unfoldable pub panic_handler : k.Lock → Exec k.Lock
  panic_handler screen = do screen' ← log screen; panic

  -- The handlers of the exceptions.
  unfoldable pub exception_handler : Exception → k.Lock → Exec k.Lock
  exception_handler divide_error screen = panic_handler screen
  exception_handler debug screen = log screen
  exception_handler non_maskable_interrupt screen = panic_handler screen
  exception_handler breakpoint screen = log screen
  exception_handler overflow screen = panic_handler screen
  exception_handler bound_range_exceeded screen = panic_handler screen
  exception_handler invalid_opcode screen = panic_handler screen
  exception_handler device_not_available screen = panic_handler screen
  exception_handler double_fault screen = panic_handler screen
  exception_handler invalid_tss screen = panic_handler screen
  exception_handler segment_not_present screen = panic_handler screen
  exception_handler stack_segment_fault screen = panic_handler screen
  exception_handler general_protection_fault screen = panic_handler screen
  exception_handler page_fault screen = panic_handler screen
  exception_handler x87_floating_point screen = panic_handler screen
  exception_handler alignment_check screen = panic_handler screen
  exception_handler machine_check screen = panic_handler screen
  exception_handler simd_floating_point screen = panic_handler screen
  exception_handler virtualization screen = panic_handler screen
  exception_handler cp_protection_exception screen = panic_handler screen
  exception_handler hv_injection_exception screen = panic_handler screen
  exception_handler vmm_communication_exception screen = panic_handler screen
  exception_handler security_exception screen = panic_handler screen

  -- `lapic_error_handler` and `spurious_interrupt_handler`: neither sends an end of interrupt.
  unfoldable pub lapic_error_handler : k.Lock → Exec k.Lock
  lapic_error_handler screen = log screen

  unfoldable pub spurious_interrupt_handler : k.Lock → Exec k.Lock
  spurious_interrupt_handler screen = log screen

-- What `add_byte` returns: an error, no event yet, or an event.
pub data Scanned (E : Type 0) : Type 0 where
  error nothing : Scanned E
  event : E → Scanned E

-- `DecodedKey`
pub data DecodedKey : Type 0 where
  unicode raw_key : ℕ → DecodedKey

-- The decoder: its state after a byte of the keyboard, and after an event.
pub record Decoder : Type 1 where
  pub State : Type 0
  pub KeyEvent : Type 0
  pub add_byte : State → ℕ → Scanned KeyEvent × State
  pub process_keyevent : State → KeyEvent → Option DecodedKey × State

-- `as_ascii`
abbrev pub as_ascii : ℕ → Option ℕ
as_ascii character = if ltb character 128 then some character else none

module _ (a : ArrayQueue) (d : Decoder) where
  -- What the handler does with a key.
  unfoldable pub key_pressed : Option DecodedKey → Option a.Queue → Exec (Option a.Queue)
  key_pressed none pipe = ok pipe
  key_pressed (some (raw_key code)) pipe = ok pipe
  key_pressed (some (unicode character)) pipe = elim (as_ascii character) [
    | none ↦ ok pipe
    | some c ↦ do q ← expect pipe; q' ← write a (c ∷ []) q; ok (some q')
  ]

  -- The key of an event, and the decoder after it.
  abbrev pub decode : Scanned d.KeyEvent × d.State → Option DecodedKey × d.State
  decode (error, keys) = (none, keys)
  decode (nothing, keys) = (none, keys)
  decode (event e, keys) = d.process_keyevent keys e

  -- `keyboard_handler`, for the byte that the port gives.
  unfoldable pub keyboard_handler : ℕ → Apic a × d.State → Exec (Apic a × d.State)
  keyboard_handler scancode (apic, keys) = do
    apic' ← send_eoi a apic
    let (key, keys') = decode (d.add_byte keys scancode)
    pipe ← key_pressed key apic'.pipe
    ok (record apic' { pipe = pipe }, keys')
