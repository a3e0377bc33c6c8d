-- ===== src/Places.antt =====
-- Where processes stand: the queues of zeos/sched.c and the children of each process (zeos/sys.c), as one
-- map from places to lists of processes, and what interrupts and system calls do to it.
use zeos_soa.Prelude.{ℕ, Bool, false, true, List, [], ◌∷◌, map, ◌==◌, ◌∈◌, if◌then◌else◌}
use zeos_soa.Lists.{Ptr}
use zeos_soa.Kernel.{Heads, list_of, sibling_of, children_blocked_of, children_unblocked_of}
pub mod Held
pub mod World
pub mod Stands
pub mod Enter
pub mod Park
pub mod Ticks
pub mod Keys
pub mod Reads
pub mod Without
pub mod Filing
pub mod Families
pub mod Blocks
pub mod Unblocks
pub mod Reach
pub mod Once
pub mod Fork

-- The lists that a process can stand in: three queues, and two lists of children for each process.
pub data Place : Type 0 where
  ready : Place
  waiting : Place
  readers : Place
  blocked_children : Ptr → Place
  unblocked_children : Ptr → Place

unfoldable pub same_place : Place → Place → Bool
same_place ready ready = true
same_place waiting waiting = true
same_place readers readers = true
same_place (blocked_children p) (blocked_children q) = p == q
same_place (unblocked_children p) (unblocked_children q) = p == q
same_place _ _ = false

-- The head of the list of a place.
unfoldable pub head_of : Heads → Place → Ptr
head_of h ready = h.readyqueue
head_of h waiting = h.blocked
head_of h readers = h.kbd_blocked
head_of h (blocked_children p) = children_blocked_of p
head_of h (unblocked_children p) = children_unblocked_of p

-- The node by which a process stands in a place.
unfoldable pub node_of : Place → Ptr → Ptr
node_of (blocked_children p) = sibling_of
node_of (unblocked_children p) = sibling_of
node_of _ = list_of

-- The places there are with the processes `ps`.
abbrev pub Known : List Ptr → Place → Type 0
Known ps (blocked_children p) = p ∈ ps
Known ps (unblocked_children p) = p ∈ ps
Known ps _ = Unit {0}

-- Which processes stand in each place, in their order.
abbrev pub Map : Type 0
Map = Place → List Ptr

-- The nodes of a place.
abbrev pub nodes_at : Map → Place → List Ptr
nodes_at at x = map (node_of x) (at x)

unfoldable pub put : Map → Place → List Ptr → Map
put at x ts y = if same_place x y then ts else at y
