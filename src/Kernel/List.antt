-- ===== src/Kernel/List.antt =====
-- kernel/list.c and kernel/list.h: circular doubly linked lists. A `list_t` doubles as the sentinel
-- node of its ring, since its first two words are `next` and `prev` as in a `node_t`.
--
-- A pointer is a number, 0 for NULL. The memory maps each address to its words; a call that allocates
-- takes the address that kmalloc returned as its first argument, and `used` tells what is allocated.
pub mod Ring
pub mod Ends
pub mod Removal
pub mod Search
pub mod Separation
pub mod Sequence
pub mod Taking
mod Examples
use openblt.Prelude.{
  ℕ, zero, suc, ◌+◌, ◌-◌, ◌%◌, ◌^◌, Bool, true, false, Option, none, some, ◌==◌, if◌then◌else◌,
  update,
}

abbrev pub Ptr : Type 0
Ptr = ℕ

pub record Heap : Type 0 where
  pub next : Ptr → Ptr
  pub prev : Ptr → Ptr
  pub content : Ptr → ℕ
  pub count : Ptr → ℕ
  pub used : Ptr → Bool

-- `list->count` is a uint32.
abbrev pub uint32_mod : ℕ
uint32_mod = 2 ^ 32

abbrev pub bump : Heap → Ptr → Ptr → ℕ
bump h list = update h.count list ((h.count list + 1) % uint32_mod)

abbrev pub drop_one : Heap → Ptr → Ptr → ℕ
drop_one h list = update h.count list ((h.count list + (uint32_mod - 1)) % uint32_mod)

pub list_init : Ptr → Heap → Heap
list_init list h = record h {
  next = update h.next list list;
  prev = update h.prev list list;
  count = update h.count list 0;
}

-- node->next = list->next; node->next->prev = node; node->prev = list; list->next = node; count++
pub list_attach_head : Ptr → Ptr → Heap → Heap
list_attach_head list node h =
    let first = h.next list in
    record h {
      next = update (update h.next node first) list node;
      prev = update (update h.prev first node) node list;
      count = bump h list;
    }

-- node->prev = list->prev; node->prev->next = node; node->next = list; list->prev = node; count++
pub list_attach_tail : Ptr → Ptr → Heap → Heap
list_attach_tail list node h =
    let last = h.prev list in
    record h {
      next = update (update h.next last node) node list;
      prev = update (update h.prev node last) list node;
      count = bump h list;
    }

abbrev pub kmalloc : Ptr → ℕ → Heap → Heap
kmalloc node item h = record h {
  content = update h.content node item;
  used = update h.used node true;
}

abbrev pub kfree : Ptr → Heap → Heap
kfree node h = record h { used = update h.used node false }

pub list_add_head : Ptr → Ptr → ℕ → Heap → Heap
list_add_head node list item h = list_attach_head list node (kmalloc node item h)

pub list_add_tail : Ptr → Ptr → ℕ → Heap → Heap
list_add_tail node list item h = list_attach_tail list node (kmalloc node item h)

pub list_peek_head : Ptr → Heap → Option ℕ
list_peek_head list h = if h.next list == list then none else some (h.content (h.next list))

pub list_peek_tail : Ptr → Heap → Option ℕ
list_peek_tail list h = if h.prev list == list then none else some (h.content (h.prev list))

-- node->prev->next = node->next; node->next->prev = node->prev; list->count--
pub unlink : Ptr → Ptr → Heap → Heap
unlink list node h = record h {
  next = update h.next (h.prev node) (h.next node);
  prev = update h.prev (h.next node) (h.prev node);
  count = drop_one h list;
}

pub list_detach_head : Ptr → Heap → Heap × Option ℕ
list_detach_head list h =
    let node = h.next list in
    if node == list then (h, none) else (unlink list node h, some (h.content node))

pub list_detach_tail : Ptr → Heap → Heap × Option ℕ
list_detach_tail list h =
    let node = h.prev list in
    if node == list then (h, none) else (unlink list node h, some (h.content node))

pub list_remove_head : Ptr → Heap → Heap × Option ℕ
list_remove_head list h =
    let node = h.next list in
    if node == list then (h, none) else (kfree node (unlink list node h), some (h.content node))

pub list_remove_tail : Ptr → Heap → Heap × Option ℕ
list_remove_tail list h =
    let node = h.prev list in
    if node == list then (h, none) else (kfree node (unlink list node h), some (h.content node))

-- The walk of list_detach and list_remove: `some node` at the first match, `none` back at the
-- sentinel. Outside, `none` says that the fuel ran out.
pub find_node : ℕ → Ptr → ℕ → Ptr → Heap → Option (Option Ptr)
find_node zero list item node h = none
find_node (suc fuel) list item node h =
    let rest = find_node fuel list item (h.next node) h in
    if node == list then some none else if h.content node == item then some (some node) else rest

-- True for ERR_NONE, false for -1.
abbrev pub detach_found : Ptr → Heap → Option Ptr → Heap × Bool
detach_found list h none = (h, false)
detach_found list h (some node) = (unlink list node h, true)

abbrev pub remove_found : Ptr → Heap → Option Ptr → Heap × Bool
remove_found list h none = (h, false)
remove_found list h (some node) = (kfree node (unlink list node h), true)

pub list_detach : ℕ → Ptr → ℕ → Heap → Option (Heap × Bool)
list_detach fuel list item h = elim (find_node fuel list item (h.next list) h) [
  | none ↦ none
  | some found ↦ some (detach_found list h found)
]

pub list_remove : ℕ → Ptr → ℕ → Heap → Option (Heap × Bool)
list_remove fuel list item h = elim (find_node fuel list item (h.next list) h) [
  | none ↦ none
  | some found ↦ some (remove_found list h found)
]
