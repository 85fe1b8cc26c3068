-- ===== src/Interrupts/Tests.antt =====
-- A keyboard that sends characters, with the pipe and the lock of the other tests.
use bayos.Apic.{Apic, IoApic, init_apic, lapic_error, spurious, timer}
use bayos.Apic.Tests.{io_apic-IsIoApic, platform, hardware}
use bayos.Base.{
  All, ℕ, ◌%◌, ◌^◌, ◌≡◌, refl, false, true, none, some, List, [], ◌∷◌, arith, ltb, if◌then◌else◌,
  ok, panic, hang, replicate,
}
use bayos.Interrupts.{
  page_fault, exception, interrupt, Scanned, nothing, event, unicode, Decoder, idt,
  exception_handler, keyboard_handler,
}
use bayos.Interrupts.Keyboard.{type_keys, keyboard_handler_panics, type_keys-read}
use bayos.Interrupts.Table.{exception_handler_held, KeyboardHandled, init_apic-idt}
use bayos.Sched.Tests.{flags}
use bayos.Vfs.{Got, read}
use bayos.Vfs.Pipe.{Reads}
use bayos.Vfs.Tests.{Bounded, bounded, pipe}

idt_page_fault : idt 14 ≡ some (record { handler = exception page_fault; stack_index = none })
unfolding idt
idt_page_fault = refl

exception_handler_held_example : exception_handler flags page_fault true ≡ hang
exception_handler_held_example = exception_handler_held flags page_fault false true refl

init_apic-idt_example :
    (s' : Apic bounded) × (ios' : List IoApic) × (lapic : ℕ → ℕ) × (init_apic bounded
        (some platform)
        (2 ^ 40)
        hardware
        (0x3 ∷ 0x1 ∷ 0x21 ∷ [])
        1000
        (record { ports = []; lapic = none; pipe = none })
      ≡ ok (s', ios'))
    × (s'.lapic ≡ some lapic)
    × (idt (lapic 200 % 2 ^ 8) ≡ some (record { handler = interrupt timer; stack_index = none }))
    × (idt (lapic 220 % 2 ^ 8)
        ≡ some (record { handler = interrupt lapic_error; stack_index = none }))
    × (idt (lapic 60 % 2 ^ 8) ≡ some (record { handler = interrupt spurious; stack_index = none }))
    × All KeyboardHandled ios'
init_apic-idt_example =
    init_apic-idt bounded platform (2 ^ 40) hardware 0x3 0x1 (0x21 ∷ []) 1000 0 0x21 []
      (omega arith) (omega arith) (io_apic-IsIoApic, tt) (omega arith) refl refl

-- A byte below 128 is a key that goes down, and stands for its own character.
abbrev add_byte : ℕ → ℕ → Scanned ℕ × ℕ
add_byte keys scancode = (if ltb scancode 128 then event scancode else nothing, keys)

abbrev plain : Decoder
plain = record {
  State = ℕ;
  KeyEvent = ℕ;
  add_byte = add_byte;
  process_keyevent = λ keys e. (some (unicode e), keys);
}

abbrev registers : ℕ → ℕ
registers i = 7

abbrev idle : Apic bounded
idle = record { ports = []; lapic = some registers; pipe = some pipe }

abbrev full : Bounded
full = record { items = b'h' ∷ b'i' ∷ []; capacity = 2 }

keyboard_handler_panics_example :
    keyboard_handler bounded plain b'!' (record idle { pipe = some full }, 0) ≡ panic
keyboard_handler_panics_example =
    keyboard_handler_panics bounded plain b'!' (record idle { pipe = some full }) 0 registers full
      refl refl refl refl

-- Two keys, and the first of them going up again; one byte stays in the pipe.
type_keys-read_example :
    (end : Apic bounded × ℕ) × (q' : Bounded) × (got : Got bounded) × (type_keys bounded plain
        (b'i' ∷ 200 ∷ b'!' ∷ [])
        (idle, 0)
      ≡ ok end)
    × (end.0.pipe ≡ some q')
    × (read bounded (replicate 2 []) 2 q' ≡ ok got)
    × Reads bounded (b'h' ∷ b'i' ∷ b'!' ∷ []) 2 got
type_keys-read_example =
    type_keys-read bounded plain (b'i' ∷ 200 ∷ b'!' ∷ []) idle 0 registers pipe 2 refl refl
      (omega arith) (omega arith)
