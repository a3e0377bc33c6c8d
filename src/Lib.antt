-- ===== src/Lib.antt =====
-- Verification of Zeos-SOA, a small 32-bit kernel: physical pages and page tables, processes with a
-- round robin, a keyboard buffer with blocking reads, the console, and pages shared between processes.
--
-- The parts, and the files of zeos/ that they model:
--   Lists     list.c, include/list.h: circular lists; a node is an address, its links are in a store.
--   Frames    mm.c (init_frames, alloc_frame, free_frame), sys.c (sys_get_stats).
--   Paging    mm.c (page tables), include/types.h and include/mm_address.h.
--   Keyboard  devices.c (the circular buffer).
--   Screen    io.c (printing, cursor and colors).
--   Access    utils.c (access_ok and the copies).
--   Digits    libc.c and utils.c (itoa, itoa_hex, itoa_hexadecimal, strlen).
--   Kernel    the whole state: the globals of all files, the tasks of include/sched.h, the registers.
--   Sched     sched.c (queues, round robin, switch of tasks), devices.c (kbd_buf_write) and
--             interrupt.c (clock_routine).
--   Interrupts  interrupt.c (keyboard_routine, pagefault_routine).
--   Machine   interrupt.c (the gates), mm.c (setGdt, setTSS), include/types.h and include/segment.h.
--   Boot      mm.c (init_mm) and sched.c (init_idle, init_task1): the first two processes and the
--             tables of the first address space.
--   Start     system.c (main), which joins the two.
--   Errors    libc.c (perror).
--   Image     build.c, the builder of the disk image: a program of its own, on a host whose calls are
--             an interface (Image/Disk holds its laws). The kernel finds the sizes of the two images at
--             bytes 512 and 516 of the disk image, which is loaded behind the boot sector.
--   Calls     sys.c: Basic, Block (sys_block, sys_unblock), Console (sys_write, sys_read), Shm
--             (sys_shmat, sys_shmdt, sys_shmrm, and init_shared_pages of mm.c) and Process (sys_fork,
--             sys_exit, and alloc_pcb, free_pcb and allocate_DIR of sched.c).
--   Places    sched.c, devices.c and sys.c together: where each process stands, among the three queues and
--             the children of its parent, as one map (World), and what interrupts and calls do to it. Fork
--             has the creation of a process; sys_exit is not covered, since it leaves the block of the
--             dead process in the list of its parent.
--   Tests     concrete kernels on which the theorems are applied.
-- Prelude holds what all of them share.
--
-- How they interact: an interrupt or a system call is a function from the kernel to the kernel. The
-- clock calls `schedule`; the keyboard calls `kbd_buf_write`, which may move a reader from the queue
-- `kbd_blocked` to the ready queue; `sys_block` and `sys_read` put the current process in a queue and
-- enter the next one. `current` is the task whose kernel stack is in use: where a call gives the
-- processor away, its result is the kernel that the next process sees, and what the call does when
-- its process runs again is a function of its own (`sys_read_resume`). Interrupts are off inside the
-- kernel, so that nothing else is interleaved.
--
-- Addresses, sizes and characters are numbers, with C's wrap-around written out where it can occur; an
-- `int` that can be negative is an integer. The fields of a task are found at the offsets of a 32-bit
-- compiler. The registers hold what the kernel loads; instructions, segments and ports do not occur.
--
-- Loops: a loop over a fixed range has its rounds as a number. The fuel of the copies and of
-- `sys_write` is the size, which every round lowers; that of the number printers is the number; that of
-- the loops over children is the number of physical pages, as each process holds some. `strlen` takes
-- its fuel as an argument, and the theorems that use it ask for enough.
--
-- A page fault inside a copy from or to the user keeps the processor for ever: `sys_write` has no result
-- then, and `sys_read` the result `faults`; no step goes on from there. The copy of the user program at
-- the start is modelled for an image that fits in the 28 pages of the user. Where the compiled code has
-- put the frame of a call of `cambio_pila` is left open: the registers hold any sequence of addresses.
--
-- The start: the tables of the processor are a state of their own, and what the kernel changes of them
-- later (esp0 of the TSS, the MSR 0x175) moves to the kernel's registers when they are set up. The
-- routines of hardware.S that only use registers and ports, disable_blinking, and set_handlers and
-- show_PT_range of libzeos.a are parameters of the definitions that call them.
--
-- Not modelled: the boot sector, the assembly stubs, and the user program, whose tests are
-- sequences of system calls with fixed texts. What build.c prints to stderr is left out. Of libzeos.a,
-- zeos_show_clock is a parameter of clock_routine.
mod Prelude
pub mod Lists
pub mod Frames
pub mod Paging
pub mod Keyboard
pub mod Screen
pub mod Access
pub mod Digits
pub mod Kernel
pub mod Sched
pub mod Machine
pub mod Boot
pub mod Start
pub mod Interrupts
pub mod Errors
pub mod Image
pub mod Places
pub mod Calls
pub mod Tests
