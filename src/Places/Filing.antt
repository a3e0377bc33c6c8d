-- ===== src/Places/Filing.antt =====
-- A process goes from one list of children to the other.
use zeos_soa.Prelude.{◌≡◌, List, [], ◌∷◌, ◌++◌, ◌∈◌, ◌∙◌, subst}
use zeos_soa.Lists.{Ptr, Links, list_add_tail, list_del}
use zeos_soa.Kernel.{Heads}
use zeos_soa.Places.{Place, Map, put, node_of, head_of, Known}
use zeos_soa.Places.Held.{
  Held, Free, list_del-Held, list_del-Free, list_del-keeps_Free, list_add_tail-Held,
  list_add_tail-keeps_Free, nodes_has,
}
use zeos_soa.Places.World.{join, leave}
use zeos_soa.Places.Without.{split_at}

-- Moving `t` from the place `x` to the place `y`, in which it stands by the same node.
module _ (heads : Heads) (ps : List Ptr) (l : Links) (at : Map) (x y : Place) (t : Ptr)
    (kx : Known ps x) (ky : Known ps y) (held : Held heads ps l at) (i : t ∈ at x)
    (node : node_of y t ≡ node_of x t) where
  abbrev pub moved : Links
  moved = list_add_tail (list_del l (node_of x t)) (node_of x t) (head_of heads y)

  abbrev taken : Links
  taken = list_del l (node_of x t)

  left_Held : Held heads ps taken (leave at x t)
  unfolding leave
  left_Held =
      let (us, vs, whole, rest) = split_at t (at x) i in
      rw rest (list_del-Held heads ps l at x t us vs whole kx held)

  left_Free : Free heads ps taken (leave at x t) (node_of y t)
  unfolding leave
  left_Free =
      let (us, vs, whole, rest) = split_at t (at x) i in
      rw (node, rest) (list_del-Free heads ps l at x t us vs whole kx held)

  left_keeps : (m : Ptr) → Free heads ps l at m → Free heads ps taken (leave at x t) m
  unfolding leave
  left_keeps m f =
      let (us, vs, whole, rest) = split_at t (at x) i in
      rw rest (list_del-keeps_Free heads ps l at x t us vs whole kx held m f)

  pub moved-Held : Held heads ps moved (join (leave at x t) y t)
  unfolding join
  moved-Held =
      subst
        (λ n.
          Held heads ps (list_add_tail taken n (head_of heads y))
            (put (leave at x t) y (leave at x t y ++ t ∷ [])))
        node (list_add_tail-Held heads ps taken (leave at x t) y t ky left_Held left_Free.out)

  pub moved-keeps_Free :
      (m : Ptr) → Free heads ps l at m → Free heads ps moved (join (leave at x t) y t) m
  unfolding join
  moved-keeps_Free m f =
      subst
        (λ n.
          Free heads ps (list_add_tail taken n (head_of heads y))
            (put (leave at x t) y (leave at x t y ++ t ∷ [])) m)
        node
        (list_add_tail-keeps_Free heads ps taken (leave at x t) y t ky left_Held left_Free.out m
          (λ e. nodes_has heads ps at x t i m (f.out x kx) (e ∙ node)) (left_keeps m f))
