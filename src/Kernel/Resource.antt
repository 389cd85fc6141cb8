-- ===== src/Kernel/Resource.antt =====
-- kernel/resource.c: the table of resources, their owners, names and wait queues.
pub mod Release
pub mod Start
pub mod Table
pub mod Waiters
use mathlib.Core.Option
use openblt.Prelude.{
  ℕ, zero, suc, ◌+◌, ◌-◌, ◌/◌, ◌==◌, Bool, true, false, ◌&&◌, ◌||◌, not, Option, none, some, List,
  [], ◌∷◌, ◌++◌, if◌then◌else◌, ltb, leb, update, length,
}
use openblt.Kernel.List.Search.{erase}
use openblt.Kernel.State.{
  Ptr, null, err_resource, RsrcType, rsrc_none, rsrc_queue, type_code, Resource, Kernel, set_rsrc,
  set_queue,
}
use openblt.Kernel.Queue.{task_wake}

-- sizeof(rtab)
abbrev pub rtab_size : ℕ
rtab_size = 8

-- The map of `size` bytes: all entries are free and chained from 1.
pub rsrc_init : ℕ → Kernel → Kernel
rsrc_init size k =
    let rmax = size / rtab_size in
    let r = k.rsrc null in
    record k {
      resource_list = [];
      rsrc = update k.rsrc null (record r { id = 0; type = rsrc_none; owner = null });
      rfree = 1;
      rmax = rmax;
      rmap_resource = λ i. if ltb i rmax then null else k.rmap_resource i;
      rmap_next = λ i. if i == rmax - 1 then 0 else if ltb i rmax then i + 1 else k.rmap_next i;
    }

-- `id` is compared as a uint32.
pub rsrc_find : RsrcType → ℕ → Kernel → Option Ptr
rsrc_find type id k =
    if ltb id k.rmax && (type_code (k.rsrc (k.rmap_resource id)).type == type_code type)
    then some (k.rmap_resource id)
    else none

-- list_remove and list_add_tail on the resources of a team
abbrev remove_resource : Ptr → Ptr → Kernel → Kernel
remove_resource owner p k = record k {
  team_resources = update k.team_resources owner (erase p (k.team_resources owner));
}

abbrev add_resource : Ptr → Ptr → Kernel → Kernel
add_resource owner p k = record k {
  team_resources = update k.team_resources owner (k.team_resources owner ++ p ∷ []);
}

pub rsrc_set_owner : Ptr → Ptr → Kernel → Kernel
rsrc_set_owner p owner k =
    let k' = if (k.rsrc p).owner == null then k else remove_resource (k.rsrc p).owner p k in
    let r = k'.rsrc p in
    let k'' = set_rsrc p (record r { owner = owner }) k' in
    if owner == null then k'' else add_resource owner p k''

-- The id of the owner of a resource, 0 for an id that is not bound.
pub rsrc_identify : ℕ → Kernel → ℕ
rsrc_identify id k =
    if leb k.rmax id || (type_code (k.rsrc (k.rmap_resource id)).type == type_code rsrc_none)
    then 0
    else (k.rsrc (k.rsrc (k.rmap_resource id)).owner).id

-- The free entry at `rfree` is taken and the fields of the resource are set.
abbrev map_entry : Ptr → RsrcType → Ptr → Kernel → Kernel
map_entry p type owner k =
    let id = k.rfree in
    record k {
      rfree = k.rmap_next id;
      rmap_resource = update k.rmap_resource id p;
      rsrc =
          update k.rsrc p (record { id = id; type = type; owner = owner; queue = []; name = [] });
    }

enlist : Ptr → Ptr → Kernel → Kernel
enlist p owner k =
    let k' = if owner == null then k else add_resource owner p k in
    record k' { resource_list = k'.resource_list ++ p ∷ [] }

-- `none`: panic("resource exhaustion").
pub rsrc_bind : Ptr → RsrcType → Ptr → Kernel → Option Kernel
unfolding enlist
rsrc_bind p type owner k =
    if k.rfree == 0 then none else some (enlist p owner (map_entry p type owner k))

-- while((t = list_detach_head(&r->queue))) task_wake(t, ERR_RESOURCE); `none` when the fuel runs out.
pub wake_all : ℕ → Ptr → Kernel → Option Kernel
wake_all zero p k = none
wake_all (suc fuel) p k = elim (k.rsrc p).queue [
  | [] ↦ some k
  | t ∷ ts ↦ wake_all fuel p (task_wake t err_resource (set_queue p ts k))
]

-- The entry of the map goes back to the free list.
abbrev unbind : ℕ → Ptr → Kernel → Kernel
unbind id p k =
    let r = k.rsrc p in
    record k {
      rsrc = update k.rsrc p (record r { type = rsrc_none; id = 0 });
      rmap_resource = update k.rmap_resource id null;
      rmap_next = update k.rmap_next id k.rfree;
      rfree = id;
    }

disowned : Ptr → Kernel → Kernel
disowned p k =
    let k' = if (k.rsrc p).owner == null then k else remove_resource (k.rsrc p).owner p k in
    record k' { resource_list = erase p k'.resource_list }

-- The fuel is one more than the tasks that wait, so the last round sees the empty queue.
pub rsrc_release : Ptr → Kernel → Option Kernel
unfolding wake_all disowned
rsrc_release p k =
    let id = (k.rsrc p).id in
    Option.map (unbind id p) (wake_all (length (k.rsrc p).queue + 1) p (disowned p k))

-- for(i=0; *name && (i<31); i++): at most the rounds that are left.
copy_name : ℕ → List ℕ → List ℕ
copy_name zero name = []
copy_name (suc left) [] = []
copy_name (suc left) (c ∷ cs) = c ∷ copy_name left cs

-- A string is the list of its characters before the NUL, and `none` is a null pointer.
pub rsrc_set_name : Ptr → Option (List ℕ) → Kernel → Kernel
unfolding copy_name
rsrc_set_name p name k =
    let r = k.rsrc p in
    set_rsrc p (record r { name = elim name [ none ↦ [] | some s ↦ copy_name 31 s ] }) k

-- queue_create, on the resource that kmalloc returned; the id of the queue.
pub queue_create : Ptr → Option (List ℕ) → Ptr → Kernel → Option (Kernel × ℕ)
queue_create p name team k =
    Option.map (λ (k' : Kernel). (rsrc_set_name p name k', ((rsrc_set_name p name k').rsrc p).id))
      (rsrc_bind p rsrc_queue team k)
