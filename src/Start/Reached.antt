-- ===== src/Start/Reached.antt =====
-- Every kernel that the first two processes can reach from `main`.
use zeos_soa.Prelude.{ℕ, ◌+◌, ◌<◌, ◌≡◌, refl, List, [], ◌∷◌, arith, sym, subst}
use zeos_soa.Lists.{null}
use zeos_soa.Paging.{l_user_start}
use zeos_soa.Kernel.{Kernel}
use zeos_soa.Machine.{Machine, Addresses, kernel_ds}
use zeos_soa.Calls.Console.{user_bytes, set_user_byte, set_user_bytes}
use zeos_soa.Boot.{ShowPtRange, kernel_start, print}
use zeos_soa.Start.{
  kernel_loaded, entering_user_mode, System, Stubs, copy_image, init_hardware, set_pe_flag,
  init_kernel, main,
}
use zeos_soa.Start.Places.{LaidOut, first_two}
use zeos_soa.Start.Standing.{started, start_world, init_kernel-Stands}
use zeos_soa.Places.Stands.{Stands}
use zeos_soa.Places.Ticks.{ShowsOnly, Stands-same}
use zeos_soa.Places.World.{Census}
use zeos_soa.Places.Once.{OnePlace}
use zeos_soa.Places.Fork.Runs.{Run, Run-OnePlace}

set_user_bytes-pages :
    (k : Kernel) (dest : ℕ) (bs : List ℕ)
    → set_user_bytes k dest bs ≡ record k { pages = (set_user_bytes k dest bs).pages }
unfolding set_user_bytes set_user_byte
set_user_bytes-pages k dest [] = refl
set_user_bytes-pages k dest (b ∷ bs) = set_user_bytes-pages (set_user_byte k dest b) (dest + 1) bs

-- What `main` does behind `init_kernel` changes no process.
loaded-Stands :
    (k : Kernel) (sys_size usr_size : ℕ) (text : List ℕ)
    → Stands (first_two k.idle_task k.init_task) (started k) (start_world k)
    → let k' = print (copy_image sys_size usr_size k) text in
      Stands (first_two k'.idle_task k'.init_task) (started k') (start_world k')
unfolding copy_image print
loaded-Stands k sys_size usr_size text s =
    let bytes = user_bytes k (kernel_start + sys_size) usr_size in
    let c = first_two k.idle_task k.init_task in
    let shown = λ (x : Kernel). print x text in
    subst
      (λ x.
        Stands (first_two (shown x).idle_task (shown x).init_task) (started (shown x))
          (start_world (shown x)))
      (sym (set_user_bytes-pages k l_user_start bytes))
      (Stands-same c (started k) _ (start_world k) refl refl refl refl refl refl s)

-- Where there is no table of the kernel yet, the images of the kernel and of the user program end
-- below 2 MB, the heads of the four lists are apart and inside the image of the kernel, and
-- `zeos_show_clock` changes the screen alone: whatever follows on `main` of ticks of the clock, scan
-- codes, calls of `sys_read`, `sys_block` and `sys_unblock` by processes that are not the idle one,
-- and calls of `sys_fork` that do not fail, that find room for the child and a PID that is new
-- (`CanFork`), and fewer processes than pages: the three queues are lists, each process that was
-- created, but the idle one, runs or is in exactly one of them, once, and the idle one in at most
-- one; a process that has a parent is among its blocked children while it is in the queue of the
-- blocked, and among its unblocked children while it is not; and nobody else is among the blocked
-- ones.
pub main-OnePlace :
    {D : Type 0} (stubs : Stubs D) (a : Addresses) (set_handlers : Machine → Machine)
    (show : ShowPtRange) (cpu_idle sys_size usr_size : ℕ) (s : System D)
    (show_clock : Kernel → Kernel) (beyond : ℕ → ℕ) (d : Census) (k : Kernel)
    → s.kernel.kernel_page_table ≡ null
    → kernel_start + sys_size + usr_size < 0x20_0000
    → LaidOut s.kernel.heads (kernel_start + sys_size + usr_size)
    → ShowsOnly show_clock
    → let k' = (main stubs a set_handlers show cpu_idle sys_size usr_size s).1.kernel in
      Run show_clock beyond (first_two k'.idle_task k'.init_task) (started k') d k → OnePlace d k
unfolding main set_pe_flag init_hardware print
main-OnePlace stubs a set_handlers show cpu_idle sys_size usr_size s show_clock beyond d k no_table
      small laid only steps =
    let first =
      (init_hardware a set_handlers (record s {
        devices =
            stubs.disable_blinking
              (stubs.set_seg_regs kernel_ds kernel_ds a.initial_esp (stubs.set_eflags s.devices));
        kernel = print s.kernel kernel_loaded;
      })).kernel in
    let stands = init_kernel-Stands show cpu_idle sys_size usr_size first no_table small laid in
    let k' = (main stubs a set_handlers show cpu_idle sys_size usr_size s).1.kernel in
    Run-OnePlace show_clock beyond (first_two k'.idle_task k'.init_task) d (started k') k
      (start_world k') only (omega arith)
      (loaded-Stands (init_kernel show cpu_idle sys_size usr_size first) sys_size usr_size
        entering_user_mode stands)
      steps
