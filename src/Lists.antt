-- ===== src/Lists.antt =====
-- zeos/list.c and zeos/include/list.h: the circular doubly linked lists of the kernel.
-- A `struct list_head` is its address; `next` and `prev` are read and written through a store.
-- Address 0 is NULL; the kernel tests for it before it unlinks a node, and no law below is about it.
use zeos_soa.Prelude.{ℕ, zero, suc, Bool, List, [], ◌∷◌, ◌==◌, if◌then◌else◌, update}
pub mod Rings
pub mod Add
pub mod Remove
pub mod Walk
pub mod Move

abbrev pub Ptr : Type 0
Ptr = ℕ

abbrev pub null : Ptr
null = 0

-- `struct list_head`, for every address at once.
pub record Links : Type 0 where
  pub next : Ptr → Ptr
  pub prev : Ptr → Ptr

-- `p->next = q`
unfoldable pub set_next : Links → Ptr → Ptr → Links
set_next l p q = record l { next = update l.next p q }

-- `p->prev = q`
unfoldable pub set_prev : Links → Ptr → Ptr → Links
set_prev l p q = record l { prev = update l.prev p q }

unfoldable pub init_list_head : Links → Ptr → Links
unfolding set_next set_prev
init_list_head l list = let l = set_next l list list in set_prev l list list

-- `__list_add`
add_between : Links → (new prev next : Ptr) → Links
unfolding set_next set_prev
add_between l new prev next =
    let l = set_prev l next new in
    let l = set_next l new next in let l = set_prev l new prev in set_next l prev new

unfoldable pub list_add : Links → (new head : Ptr) → Links
unfolding add_between
list_add l new head = add_between l new head (l.next head)

unfoldable pub list_add_tail : Links → (new head : Ptr) → Links
unfolding add_between
list_add_tail l new head = add_between l new (l.prev head) head

-- `__list_del`
del_between : Links → (prev next : Ptr) → Links
unfolding set_next set_prev
del_between l prev next = let l = set_prev l next prev in set_next l prev next

unfoldable pub list_del : Links → Ptr → Links
unfolding del_between set_next set_prev
list_del l entry =
    let l = del_between l (l.prev entry) (l.next entry) in
    let l = set_next l entry null in set_prev l entry null

unfoldable pub list_is_last : Links → (list head : Ptr) → Bool
list_is_last l list head = l.next list == head

unfoldable pub list_empty : Links → Ptr → Bool
list_empty l head = l.next head == head

-- `list_first`
unfoldable pub list_first : Links → Ptr → Ptr
list_first l head = l.next head

-- `list_for_each`: the nodes that the loop visits from `pos` until it meets `head`, at most `fuel`.
unfoldable pub walk : (fuel : ℕ) → Links → (pos head : Ptr) → List Ptr
walk zero l pos head = []
walk (suc fuel) l pos head =
    let rest = walk fuel l (l.next pos) head in if pos == head then [] else pos ∷ rest
