-- ===== src/Calls/Tests.antt =====
-- Reads, on the pipe and the screen of the tests of Vfs and Framebuffer.
use bayos.Base.{◌≡◌, refl, some, [], ◌∷◌, arith, ok}
use bayos.Base.Words.{write_bytes}
use bayos.Framebuffer.Tests.{dots, writer}
use bayos.Paging.Tests.{mapper, empty}
use bayos.Vfs.{Got, read, write}
use bayos.Vfs.Tests.{bounded, pipe}
use bayos.Calls.{State, put_bytes, read_syscall, syscall_handler}
use bayos.Calls.Read.{IsRead, syscall_handler-IsRead}
use bayos.Vfs.Pipe.{Reads}

abbrev state : State bounded mapper
state = record {
  pipe = some pipe;
  arrivals = [] ∷ [];
  writer = writer;
  process_list = [];
  table = empty;
  frames = 0;
  mem = λ a. 0;
}

-- One byte is read to 0x400000.
abbrev after : State bounded mapper
after = record state {
  pipe = some (record { items = []; capacity = 4 });
  arrivals = [];
  mem = write_bytes 1 state.mem 0x400000 b'h';
}

syscall_handler_runs :
    syscall_handler bounded mapper dots some (λ index. []) 0 0 0 0x400000 1 state ≡ ok after
unfolding syscall_handler read_syscall read write put_bytes
syscall_handler_runs = refl

-- A second byte comes while the call waits, and a third stays in the pipe.
abbrev waiting : State bounded mapper
waiting = record state { arrivals = [] ∷ (b'i' ∷ b'!' ∷ []) ∷ [] ∷ [] ∷ [] }

syscall_handler-IsRead_example :
    (s' : State bounded mapper) × (got : Got bounded) × (syscall_handler bounded mapper dots some
        (λ index. [])
        0
        0
        0
        0x400000
        2
        waiting
      ≡ ok s')
    × Reads bounded (b'h' ∷ b'i' ∷ b'!' ∷ []) 2 got
    × IsRead bounded mapper 0x400000 got waiting s'
syscall_handler-IsRead_example =
    syscall_handler-IsRead bounded mapper dots some (λ index. []) 0 0x400000 2
      ([] ∷ (b'i' ∷ b'!' ∷ []) ∷ []) pipe waiting refl refl (omega arith) (omega arith)
