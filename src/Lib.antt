-- ===== src/Lib.antt =====
-- NovaOS: the kernel of a small 32-bit operating system, written in C.
--
-- The parts and the files that model them. A module of the kernel's sources is one module here,
-- which holds its state as a record and its operations as functions, each from the state before to
-- the state after, under the names of the C functions; its child modules hold the proofs.
-- Prelude: shared types, Boolean tests, lists over native numbers, C arrays as functions, bits of
--   bytes, arithmetic of u32.
-- Mm: kernel/mm.c, the bitmap of physical frames and the reference counts that copy-on-write uses.
-- Kheap: kernel/kheap.c, the block list of kmalloc and kfree.
-- Sched: kernel/sched.c, the table of tasks, the round-robin tick, exit and fork. It calls Kheap
--   and Paging in the source; here their operations are an interface, which Interrupt fills. Tick and
--   Fair prove that no task starves.
-- Keyboard: kernel/keyboard.c, scan codes and the ring of pending keys.
-- Mouse: kernel/mouse.c, the packets of three bytes, the cursor and the edges of the left button.
-- Gui: kernel/gui.c over Mouse, Keyboard and Vga: the windows, their drawing (Draw) and the frames of
--   the loop (Loop). Focus, Desktop, Session, Shown, Cycle and Grip prove them.
-- Interrupt: kernel/isr.c with the handlers of kernel/idt.c, kernel/irq.c and kernel/timer.c, which
--   joins Sched, Kheap, Paging, Syscall, Keyboard and Mouse in one machine.
-- Fat: kernel/fat.c over the sectors of kernel/ata.c. Disk is the drive and the mount, Table the
--   file allocation table; Bytes, Entry, Chain and Take prove it.
--   Name, Dir and File are the names, the directory and the operations on files; Read, Search, Total,
--   Link and Payload prove them.
-- Paging: kernel/paging.c over Mm, the address spaces, copy-on-write fork and its page fault. A run that
--   follows the address of a frame in the window of user programs, where the kernel does not map
--   frames to themselves, or, in User, that copies outside the pages of a segment, is marked `stray`;
--   what the machine then does is not modelled.
-- User: kernel/user.c over Paging and Sched, the loader of ELF images and the start of a program.
-- Vga: kernel/vga.c, the text page with its cursor and the drawing in mode 13h.
-- Printf: libc/printf.c, the formatting engine and the buffer it writes.
-- Shell: kernel/shell.c over Vga, Printf, Keyboard, Kheap and Fat: the line editor, the history, the
--   words of a line, tab completion and the commands.
-- Syscall: kernel/syscall.c, the checks on pointers from user programs, the open files and the
--   dispatcher. The file system and the scheduler are the interfaces of Syscall/Services.antt, which
--   Fat/Service.antt and Interrupt fill.
--
-- Correspondence. A static variable is a field of the component's state. A u32 is a native natural
-- number, with `% 2 ^ 32`, or `add32`, `sub32` and `mul32`, written where the source can wrap. An
-- array is a function from the index. Pointers are addresses. A null pointer or an error code is
-- `none` where no other result has its value.
--
-- Loops with a counter are structural recursion on the number of rounds left. Other loops take fuel:
-- the walks along the block list of the heap 0x100000 rounds, since each block of a well-formed list
-- takes its header of the arena; `fat_free_chain` and the chain of `fat_read` the 65536 rounds of the
-- source's own `guard`; the chain of `fat_write` one round more than the payload has bytes, since a
-- round writes one at least, with `none` for a run that does not end; the loops of `kvsnprintf` and
-- `split` one round more than the text has characters; the digits of a word 32.
--
-- The loops of gui.c over the eight windows are counted.
--
-- Not modelled: what only talks to hardware (gdt.c, serial.c, entry.c, the assembly, the tables that
-- idt.c fills, the setup of the controllers in irq.c and timer.c, the mode switch and the palette of
-- vga.c), the shell's commands that show or start other parts of the machine, which are a parameter,
-- most of libc/string.c, kernel.c and the user programs.
pub mod Prelude
pub mod Mm
pub mod Kheap
pub mod Keyboard
pub mod Syscall
pub mod Fat
pub mod Sched
pub mod Mouse
pub mod Gui
pub mod Interrupt
pub mod Paging
pub mod Vga
pub mod Printf
pub mod Shell
pub mod User
