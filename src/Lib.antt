-- ===== src/Lib.antt =====
-- The bayos kernel: a small kernel for x86_64 with a heap, two frame allocators, a round-robin
-- scheduler, processes in one address space, a text screen and a pipe for keyboard input; the script
-- that builds its cross compiler, and the program that starts it in an emulator.
--
-- How the parts work together. At boot, kernel/src/main.rs loads the segments and the interrupt
-- table, maps the heap with frames of the boot allocator, sets up the interrupt controllers, hands
-- the frames over to the bitmap allocator, and adds processes. The timer's handler saves a
-- process's registers on its stack, and `schedule` exchanges the stack pointer for that of the
-- next process. A process calls the kernel through the system call entry: it reads characters that
-- the keyboard's handler wrote to the pipe, writes text to the screen, and asks for pages.
--
-- The files, and the code that they model:
-- - Base, names of the libraries passed on, Boolean tests, lists, bits, words of memory, and `Exec`,
--   how a piece of kernel code ends: with a result, in a panic, in a wait without end, or, in the
--   model only, out of fuel.
-- - Heap, kernel/src/allocator.rs from `align_up` on, function by function. A free region is the
--   address of a `ListNode` and its `size`; the linked list is a list of them. Heap/Align and Heap/Fit
--   are on the arithmetic, Heap/Node, Heap/Search and Heap/Alloc on the operations, Heap/Regions on
--   tilings, and Heap/Trace on all sequences of calls. Heap/Nodes is the same code over the words of
--   memory that the nodes are; Heap/Chain, Heap/Unlink, Heap/Walk, Heap/Refine and Heap/Simulate relate
--   each function to the one on lists, and Heap/Runs does so for all sequences of calls.
-- - Memory, the two allocators of kernel/src/memory.rs. Memory/Range is on the frames that both count
--   through, Memory/Bitmap on the bitmap, Memory/Handover on the passage from one to the other.
--   Memory/Virtual is `get_virtual_address`.
-- - Paging, the mapping loop, `init_heap` of kernel/src/allocator.rs, and `anon_allocate_syscall` of
--   kernel/src/syscall.rs.
-- - Sched, `init`, `schedule`, `delete_process`, `mark_current_as_dead` and the end of both functions
--   that add a process, from kernel/src/sched.rs. Sched/Loop is on the search for the next process,
--   Sched/Tick on one tick, Sched/Turns on many.
-- - Spawn, `add_process` and `add_user_process` of kernel/src/sched.rs, with the headers of
--   kernel/src/elf.rs. Spawn/Image is on the headers as bytes, Spawn/Segment on the bytes of a
--   segment, Spawn/Entry and Spawn/User on the two functions, Spawn/Switch on the first switch to
--   a new process.
-- - Machine, the assembly of `timer_handler` in kernel/src/int.rs and of `syscall_entry` in
--   kernel/src/syscall.rs, on a processor of registers and memory. Machine/Stack is on pushes and pops.
-- - Gdt, kernel/src/gdt.rs, and `init` of kernel/src/syscall.rs; Gdt/Table is on the selectors.
-- - Apic, `init_apic`, `send_eoi` and `InterruptIndex` of kernel/src/int.rs. Apic/Entries is on an I/O
--   APIC, Apic/Registers on the whole set-up.
-- - Interrupts, `IDT` and the handlers of kernel/src/int.rs, and the panic handler of
--   kernel/src/main.rs. Interrupts/Table is on the table and the exceptions, Interrupts/Keyboard on the
--   way of a key to `read`.
-- - Acpi, kernel/src/acpi.rs.
-- - Framebuffer, `FrameBufferWriter` of kernel/src/framebuffer.rs. Framebuffer/Pixel is on one pixel,
--   Framebuffer/Text on text.
-- - Vfs, the pipe of kernel/src/vfs/pipe.rs.
-- - Calls, `syscall_handler` of kernel/src/syscall.rs and the calls behind it; Calls/Read is on
--   the read.
-- - Cross, user/cross/build.rs: the fetch of the sources, with Cross/Build for the commands after it.
--   Cross/Hash is on check sums, Cross/Fetch on one tarball, Cross/Again on the loop and on a run after
--   another, Cross/Failed on a run after one that failed, Cross/Order on the way from the fetch to the build.
-- - Launcher, src/main.rs.
-- The modules named Tests run the definitions at concrete inputs.
--
-- Code of other crates is a parameter, with its documented behaviour as the fields of a record:
-- `BitVec` (bitvec), `SpinLock` (spinning_top), `Mapper` (the page tables, pages and addresses of
-- x86_64), `Selectors`, `DescriptorTable` and `StarRegister` (x86_64), `Font` (noto_sans_mono_bitmap), `ArrayQueue`
-- (crossbeam_queue), `Decoder` (pc_keyboard), `NodeLayout` (the size of a node, and where its fields are),
-- and `Tools` (sha2, tar with its decoders, and the command patch). What compiled functions leave of the
-- processor is a parameter of the assembly too, and what devices and the network answer is an argument.
--
-- Bounds and fuel. A `usize` or `u64` wraps at 2 ^ 64 where a sum is written out in the code, as in a
-- release build. The heap's end is so far below 2 ^ 64 that alignments up to 2 ^ 31 do not wrap. The
-- loop of `schedule` has fuel: as many rounds as there are processes find the next one. The waiting of
-- `Pipe::read` is over the arrivals of an interrupt handler, one list for each call of `pop`,
-- and that of `init_apic` over the values of a port. The loop of `sha256_of` has as many rounds of fuel
-- as the file has bytes.
--
-- Not modelled: system calls whose pointers lead to structures of the kernel; registers for
-- floating point and vectors; the page tables themselves; a program whose segments are copied over
-- its own headers; the lock of the heap and that of the screen, but for the handlers of
-- exceptions; the boot sequence (kernel/src/main.rs) as a whole; the first page table (`init` of
-- kernel/src/memory.rs); the scripts build.rs and user/build.rs, which only run other programs;
-- errors of the disk in the scripts. Interrupts are off in the functions that the code runs
-- `without_interrupts`, so no other code of the kernel runs between their steps.
pub mod Acpi
pub mod Apic
pub mod Base
pub mod Calls
pub mod Cross
pub mod Framebuffer
pub mod Gdt
pub mod Heap
pub mod Interrupts
pub mod Launcher
pub mod Machine
pub mod Memory
pub mod Paging
pub mod Sched
pub mod Spawn
pub mod Vfs
