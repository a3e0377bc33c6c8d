-- ===== src/Tests/Kernels.antt =====
-- A kernel with five processes, by the addresses of their task structs.
use zeos_soa.Prelude.{
  ℕ, ◌+◌, ◌≡◌, Bool, true, not, ◌&&◌, List, [], ◌∷◌, ◌++◌, ◌==◌, if◌then◌else◌, has, arith,
  Bool-cases, inl, inr,
}
use zeos_soa.Prelude.Int.{pos, negsuc}
use zeos_soa.Lists.{Ptr, Links}
use zeos_soa.Lists.Move.{Disjoint}
use zeos_soa.Paging.{Pte, zero_entry}
use zeos_soa.Kernel.{
  Kernel, Task, Heads, list_of, sibling_of, children_blocked_of, children_unblocked_of,
}

-- The pairs of neighbours on the way from `a` over `xs` to `b`.
abbrev pub hops : Ptr → List Ptr → Ptr → List (Ptr × Ptr)
hops a [] b = (a, b) ∷ []
hops a (x ∷ xs) b = (a, x) ∷ hops x xs b

abbrev pub forward : List (Ptr × Ptr) → Ptr → Ptr
forward [] p = 0
forward ((a, b) ∷ r) p = if a == p then b else forward r p

abbrev pub backward : List (Ptr × Ptr) → Ptr → Ptr
backward [] p = 0
backward ((a, b) ∷ r) p = if b == p then a else backward r p

abbrev pub links_of : List (Ptr × Ptr) → Links
links_of h = record { next = forward h; prev = backward h }

-- Whether two lists share no address.
abbrev pub shares_none : List Ptr → List Ptr → Bool
shares_none [] ys = true
shares_none (x ∷ xs) ys = not (has x ys) && shares_none xs ys

pub shares_none_sound : (xs ys : List Ptr) → shares_none xs ys ≡ true → Disjoint xs ys
shares_none_sound [] ys h p i = absurd (ground arith)
shares_none_sound (x ∷ xs) ys h p i = elim (Bool-cases (p == x)) [
  | inl e ↦ let same : p ≡ x = ground arith in rw same (ground arith)
  | inr e ↦ shares_none_sound xs ys (ground arith) p (rw e at i)
]

-- The processes: `alice` runs, `bob` and `carol` are ready, `dave` is blocked and `erin` waits for
-- the keyboard. `root` is the parent of `alice`, `carol` and `dave`.
abbrev pub alice : Ptr
alice = 0x1_0000

abbrev pub bob : Ptr
bob = 0x2_0000

abbrev pub carol : Ptr
carol = 0x3_0000

abbrev pub dave : Ptr
dave = 0x4_0000

abbrev pub erin : Ptr
erin = 0x5_0000

abbrev pub root : Ptr
root = 0x6_0000

abbrev pub heads : Heads
heads = record { readyqueue = 100; blocked = 200; kbd_blocked = 300; list_tasks = 400 }

abbrev pub links : Links
links = links_of (
    hops 100 (list_of bob ∷ list_of carol ∷ []) 100
    ++ hops 200 (list_of dave ∷ []) 200
    ++ hops 300 (list_of erin ∷ []) 300
    ++ hops (children_unblocked_of root) (sibling_of carol ∷ sibling_of alice ∷ [])
        (children_unblocked_of root)
    ++ hops (children_blocked_of root) (sibling_of dave ∷ []) (children_blocked_of root))

-- A process has its address as its PID.
abbrev pub task : Ptr → Task
task t = record {
  pid = pos t;
  dir_pages_base_addr = t + 0x1000;
  pending_unblocks = pos 0;
  quantum = 10;
  kernel_esp = t + 0x800;
  parent = root;
  kbd_chars_needed = 2;
  kbd_user_buf = 0;
  kbd_read_result = pos 0;
  stack = λ i. 0;
}

-- A present and writable entry of the user. In `kernel` below every entry of every table names frame
-- 2.
abbrev pub entry : (frame : ℕ) → Pte
entry f = record zero_entry { present = 1; rw_bit = 1; user = 1; pbase_addr = f }

abbrev pub kernel : Kernel
kernel = record {
  links = links;
  tasks = task;
  frames = record {
    phys_mem = λ p. if p == 0x300 then 0 else 1;
    first_kernel = 0x100;
    last_kernel = 0x200;
  };
  entries = λ a. entry 2;
  pages = λ p o. b'a' + o;
  shared = record {
    shared_frames = λ i. negsuc 0;
    shared_refs = λ i. pos 0;
    shared_marked_rm = λ i. 0;
  };
  keyboard = record { buf = λ i. b'k'; head = 1; tail = 0; count = 1 };
  screen = record { x = 0; y = 0; current_color = 2; cells = λ i. 0; log = [] };
  cpu = record {
    cr3 = alice + 0x1000;
    esp = 0;
    frames_ahead = λ i. 0;
    esp0 = alice + 4096;
    sysenter_esp = alice + 4096;
  };
  heads = heads;
  current = alice;
  idle_task = erin;
  init_task = alice;
  kernel_page_table = 0x1000;
  kernel_page_table2 = 0x2000;
  remaining_quantum = pos 1;
  zeos_ticks = 17;
  pid_global = pos 100;
}
