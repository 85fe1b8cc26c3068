-- ===== src/Interrupts/Keyboard.antt =====
-- The way of a key: from the byte that the keyboard sends to the `read` system call.
use mathlib.Core.List.{append_assoc, append-nil}
use bayos.Apic.{Apic, send_eoi}
use bayos.Base.{
  ℕ, ◌+◌, ◌≤◌, ◌≡◌, ◌≢◌, refl, sym, ap, subst, ◌∙◌, Option, none, some, List, [], ◌∷◌, ◌++◌, arith,
  length, length-append, replicate, Exec, ok, panic, ◌>>=◌, expect,
}
use bayos.Interrupts.{
  DecodedKey, unicode, raw_key, Decoder, as_ascii, key_pressed, decode, keyboard_handler,
}
use bayos.Machine.{store}
use bayos.Vfs.{ArrayQueue, Got, write, read}
use bayos.Vfs.Pipe.{write_lem, write_panics, concat, Reads, read_lem}

-- The bytes that a key comes to: its character, if it has one and that is ASCII.
abbrev pub ascii_bytes : Option ℕ → List ℕ
ascii_bytes none = []
ascii_bytes (some c) = c ∷ []

abbrev pub bytes_of : Option DecodedKey → List ℕ
bytes_of none = []
bytes_of (some (raw_key code)) = []
bytes_of (some (unicode character)) = ascii_bytes (as_ascii character)

module _ (a : ArrayQueue) (d : Decoder) where
  -- What each byte of the keyboard comes to, in order.
  abbrev pub typed : List ℕ → d.State → List (List ℕ)
  typed [] keys = []
  typed (scancode ∷ scancodes) keys =
      let step = decode a d (d.add_byte keys scancode) in bytes_of step.0 ∷ typed scancodes step.1

  -- The handler, for one byte after the other.
  abbrev pub type_keys : List ℕ → Apic a × d.State → Exec (Apic a × d.State)
  type_keys [] s = ok s
  type_keys (scancode ∷ scancodes) s = do
    s' ← keyboard_handler a d scancode s
    type_keys scancodes s'

  written_ascii :
      (o : Option ℕ) (q q' : a.Queue)
      → write a (ascii_bytes o) q ≡ ok q'
      → elim o [
        | none ↦ ok (some q)
        | some c ↦ do q1 ← expect (some q); q2 ← write a (c ∷ []) q1; ok (some q2)
      ]
        ≡ ok (some q')
  unfolding write
  written_ascii none q q' run = cc
  written_ascii (some c) q q' run = rw run

  -- A key is written to the pipe as a write of its bytes.
  key_pressed_lem :
      (key : Option DecodedKey) (q q' : a.Queue)
      → write a (bytes_of key) q ≡ ok q'
      → key_pressed a d key (some q) ≡ ok (some q')
  unfolding key_pressed write
  key_pressed_lem none q q' run = cc
  key_pressed_lem (some (raw_key code)) q q' run = cc
  key_pressed_lem (some (unicode character)) q q' run = written_ascii (as_ascii character) q q' run

  -- What is left after the end of an interrupt was sent, and of the pipe.
  pub record Handled (s : Apic a) (lapic : ℕ → ℕ) (q : a.Queue) (bytes : List ℕ) (s' : Apic a)
      : Type 0 where
    pub queue : a.Queue
    pub lapic' : ℕ → ℕ
    pub has_pipe : s'.pipe ≡ some queue
    pub appended : a.items queue ≡ a.items q ++ bytes
    pub same_capacity : a.capacity queue ≡ a.capacity q
    pub has_lapic : s'.lapic ≡ some lapic'
    pub eoi : lapic' 44 ≡ 0
    pub other_registers : (i : ℕ) → i ≢ 44 → lapic' i ≡ lapic i
    pub same_ports : s'.ports ≡ s.ports

  -- With room in the pipe, the handler ends: the end of the interrupt is sent, by a 0 in register 44,
  -- and the pipe gets the byte of the key, where the byte of the keyboard ends one and it is ASCII.
  keyboard_handler_lem :
      (scancode : ℕ) (s : Apic a) (keys : d.State) (lapic : ℕ → ℕ) (q : a.Queue)
      → s.lapic ≡ some lapic
      → s.pipe ≡ some q
      → (let step = decode a d (d.add_byte keys scancode) in
          length (a.items q) + length (bytes_of step.0) ≤ a.capacity q
          → (s' : Apic a) × (keyboard_handler a d scancode (s, keys) ≡ ok (s', step.1))
            × Handled s lapic q (bytes_of step.0) s')
  unfolding keyboard_handler send_eoi
  keyboard_handler_lem scancode s keys lapic q has_lapic has_pipe room =
      let key = (decode a d (d.add_byte keys scancode)).0 in
      let (q', run, items, cap) = write_lem a (bytes_of key) q room in
      (
        record s { lapic = some (store lapic 44 0); pipe = some q' },
        rw (has_lapic, has_pipe, key_pressed_lem key q q' run),
        record {
          queue = q';
          lapic' = store lapic 44 0;
          has_pipe = refl;
          appended = items;
          same_capacity = cap;
          has_lapic = refl;
          eoi = refl;
          other_registers = λ i ne. ground arith;
          same_ports = refl;
        },
      )

  written_ascii_panics :
      (o : Option ℕ) (q : a.Queue)
      → write a (ascii_bytes o) q ≡ panic
      → elim o [
        | none ↦ ok (some q)
        | some c ↦ do q1 ← expect (some q); q2 ← write a (c ∷ []) q1; ok (some q2)
      ]
        ≡ panic
  unfolding write
  written_ascii_panics none q run = cc
  written_ascii_panics (some c) q run = rw run

  key_pressed_panics :
      (key : Option DecodedKey) (q : a.Queue)
      → write a (bytes_of key) q ≡ panic
      → key_pressed a d key (some q) ≡ panic
  unfolding key_pressed write
  key_pressed_panics none q run = cc
  key_pressed_panics (some (raw_key code)) q run = cc
  key_pressed_panics (some (unicode character)) q run =
      written_ascii_panics (as_ascii character) q run

  -- With the pipe full, a key that has an ASCII character panics, in the handler.
  pub keyboard_handler_panics :
      (scancode : ℕ) (s : Apic a) (keys : d.State) (lapic : ℕ → ℕ) (q : a.Queue)
      → s.lapic ≡ some lapic
      → s.pipe ≡ some q
      → length (a.items q) ≡ a.capacity q
      → length (bytes_of (decode a d (d.add_byte keys scancode)).0) ≡ 1
      → keyboard_handler a d scancode (s, keys) ≡ panic
  unfolding keyboard_handler send_eoi
  keyboard_handler_panics scancode s keys lapic q has_lapic has_pipe full one =
      let key = (decode a d (d.add_byte keys scancode)).0 in
      let over = write_panics a (bytes_of key) q (omega (arith, full)) (omega (arith, full, one)) in
      rw (has_lapic, has_pipe, key_pressed_panics key q over)

  -- The keyboard's bytes are handled one after the other: what was typed stands in the pipe, in order.
  type_keys_lem :
      (scancodes : List ℕ) (s : Apic a) (keys : d.State) (lapic : ℕ → ℕ) (q : a.Queue)
      → s.lapic ≡ some lapic
      → s.pipe ≡ some q
      → length (a.items q) + length (concat (typed scancodes keys)) ≤ a.capacity q
      → (end : Apic a × d.State) × (q' : a.Queue) × (type_keys scancodes (s, keys) ≡ ok end)
        × (end.0.pipe ≡ some q')
        × (a.items q' ≡ a.items q ++ concat (typed scancodes keys))
        × (a.capacity q' ≡ a.capacity q)
  type_keys_lem [] s keys lapic q has_lapic has_pipe room =
      ((s, keys), q, refl, has_pipe, sym (append-nil (a.items q)), refl)
  type_keys_lem (scancode ∷ scancodes) s keys lapic q has_lapic has_pipe room =
      let step = decode a d (d.add_byte keys scancode) in
      let bytes = bytes_of step.0 in
      let split = length-append bytes (concat (typed scancodes step.1)) in
      let (s1, run, h) =
        keyboard_handler_lem scancode s keys lapic q has_lapic has_pipe (omega (arith, split)) in
      let more = ap length h.appended ∙ length-append (a.items q) bytes in
      let (end, q', rest, pipe, items, cap) =
        type_keys_lem scancodes s1 step.1 h.lapic' h.queue h.has_lapic h.has_pipe
          (omega (arith, split, more, h.same_capacity)) in
      (
        end,
        q',
        rw run rest,
        pipe,
        items
            ∙ ap (λ l. l ++ concat (typed scancodes step.1)) h.appended
            ∙ append_assoc (a.items q) bytes (concat (typed scancodes step.1)),
        cap ∙ h.same_capacity,
      )

  -- What is typed is what `read` gets: where the pipe has room for the text that the keyboard's bytes
  -- come to, all of them are handled, and a `read` of no more bytes than there are then ends; it gets
  -- the oldest bytes, in order, and the rest stays in the pipe.
  pub type_keys-read :
      (scancodes : List ℕ) (s : Apic a) (keys : d.State) (lapic : ℕ → ℕ) (q : a.Queue) (size : ℕ)
      → s.lapic ≡ some lapic
      → s.pipe ≡ some q
      → length (a.items q) + length (concat (typed scancodes keys)) ≤ a.capacity q
      → size ≤ length (a.items q) + length (concat (typed scancodes keys))
      → (end : Apic a × d.State) × (q' : a.Queue) × (got : Got a) × (type_keys scancodes (s, keys)
          ≡ ok end)
        × (end.0.pipe ≡ some q')
        × (read a (replicate size []) size q' ≡ ok got)
        × Reads a (a.items q ++ concat (typed scancodes keys)) size got
  type_keys-read scancodes s keys lapic q size has_lapic has_pipe room enough =
      let (end, q', run, pipe, items, cap) =
        type_keys_lem scancodes s keys lapic q has_lapic has_pipe room in
      let more = ap length items ∙ length-append (a.items q) (concat (typed scancodes keys)) in
      let (got, reading, r) =
        read_lem a [] size q' (omega (arith, more, cap)) (omega (arith, more)) in
      (
        end,
        q',
        got,
        run,
        pipe,
        reading,
        subst (λ l. Reads a l size got) (append-nil (a.items q') ∙ items) r,
      )
