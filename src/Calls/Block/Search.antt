-- ===== src/Calls/Block/Search.antt =====
-- The loops of `sys_unblock` find the first child with the PID.
use zeos_soa.Prelude.{
  ℕ, zero, suc, ◌-◌, ◌<◌, ◌≡◌, List, [], ◌∷◌, map, Option, none, some, if◌then◌else◌, ◌∉◌, length,
  arith,
}
use zeos_soa.Prelude.Int.{ℤ, eq_ℤ}
use zeos_soa.Lists.{Ptr, list_first}
use zeos_soa.Lists.Rings.{Seg, IsRing}
use zeos_soa.Kernel.{Kernel, Task, sibling_of}
use zeos_soa.Calls.Block.{find_child}

-- The nodes by which children are listed.
abbrev pub siblings : List Ptr → List Ptr
siblings = map sibling_of

-- The first of the tasks `ts` with this PID.
unfoldable pub first_with : (Ptr → Task) → ℤ → List Ptr → Option Ptr
first_with tasks pid [] = none
first_with tasks pid (t ∷ ts) = if eq_ℤ (tasks t).pid pid then some t else first_with tasks pid ts

find_child-Seg :
    (fuel : ℕ) (k : Kernel) (pid : ℤ) (a head : Ptr) (ts : List Ptr)
    → Seg k.links a (siblings ts) head
    → head ∉ siblings ts
    → length ts < fuel
    → find_child fuel k pid (k.links.next a) head ≡ first_with k.tasks pid ts
unfolding find_child first_with
find_child-Seg zero k pid a head ts s o f = absurd (omega arith)
find_child-Seg (suc fuel) k pid a head [] s o f = ground arith
find_child-Seg (suc fuel) k pid a head (t ∷ ts) (n, p, rest) o f =
    let same : sibling_of t - 36 ≡ t = omega arith in
    rw (n, same) (ground (arith, find_child-Seg fuel k pid (sibling_of t) head ts rest))

-- Over a list of children, `list_for_each` with the test of `sys_unblock` finds the first child with
-- the PID, or none if there is none.
pub find_child-IsRing :
    (fuel : ℕ) (k : Kernel) (pid : ℤ) (head : Ptr) (ts : List Ptr)
    → IsRing k.links head (siblings ts)
    → length ts < fuel
    → find_child fuel k pid (list_first k.links head) head ≡ first_with k.tasks pid ts
unfolding list_first
find_child-IsRing fuel k pid head ts r f =
    find_child-Seg fuel k pid head head ts r.seg r.distinct.0 f
