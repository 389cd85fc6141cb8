-- ===== src/Kernel/State.antt =====
-- The objects of the kernel and its globals: kernel/resource.h, task.h, team.h, sem.h, port.h, and the
-- globals of kernel/resource.c and kernel/kernel.c.
--
-- An object is known by its address, 0 for NULL and for `null_resource`. A `resource_t` is the first field of every object, so
-- the address of a task, a semaphore, a port or a team is the address of its resource too. A `list_t`
-- is the sequence of its items; `Kernel.List` is about the rings in memory that stand for them.
use openblt.Prelude.{ℕ, Bool, List, update, ℤ, pos, negsuc}

abbrev pub Ptr : Type 0
Ptr = ℕ

abbrev pub null : Ptr
null = 0

-- include/blt/error.h
abbrev pub err_none : ℤ
err_none = pos 0

abbrev pub err_permission : ℤ
err_permission = negsuc 0

abbrev pub err_resource : ℤ
err_resource = negsuc 1

abbrev pub err_memory : ℤ
err_memory = negsuc 2

abbrev pub err_sendport : ℤ
err_sendport = negsuc 3

abbrev pub err_recvport : ℤ
err_recvport = negsuc 4

abbrev pub err_would_block : ℤ
err_would_block = negsuc 5

pub data RsrcType : Type 0 where
  rsrc_none rsrc_task rsrc_aspace rsrc_port rsrc_sem rsrc_right rsrc_area rsrc_queue rsrc_team :
      RsrcType

abbrev pub type_code : RsrcType → ℕ
type_code rsrc_none = 0
type_code rsrc_task = 1
type_code rsrc_aspace = 2
type_code rsrc_port = 3
type_code rsrc_sem = 4
type_code rsrc_right = 5
type_code rsrc_area = 6
type_code rsrc_queue = 7
type_code rsrc_team = 8

-- The members of `resource_t`, less `rights`, which no code reads.
pub record Resource : Type 0 where
  pub id : ℕ
  pub type : RsrcType
  pub owner : Ptr
  pub queue : List Ptr
  pub name : List ℕ

-- `flags` of a task.
pub data TaskFlags : Type 0 where
  kernel running ready dead waiting sleep_irq sleep_timer sleep_paging : TaskFlags

abbrev pub is_running : TaskFlags → Bool
is_running running = Bool.true
is_running _ = Bool.false

abbrev pub is_dead : TaskFlags → Bool
is_dead dead = Bool.true
is_dead _ = Bool.false

pub record Task : Type 0 where
  pub waiting_on : Ptr
  pub status : ℤ
  pub wait_time : ℕ
  pub flags : TaskFlags
  pub scount : ℕ
  pub team : Ptr

pub record Message : Type 0 where
  pub from_port : ℕ
  pub to_port : ℕ
  pub code : ℕ
  pub bytes : List ℕ

-- `first` and `last` of a port are the two ends of `messages`.
pub record Port : Type 0 where
  pub msgcount : ℕ
  pub slaved : ℕ
  pub messages : List Message
  pub refcount : ℤ
  pub nowait : ℕ
  pub restrict : ℕ
  pub sendqueue : Ptr

pub record Kernel : Type 0 where
  -- rmap, rmax and rfree
  pub rmap_resource : ℕ → Ptr
  pub rmap_next : ℕ → ℕ
  pub rmax : ℕ
  pub rfree : ℕ
  pub resource_list : List Ptr
  -- the memory of the objects
  pub rsrc : Ptr → Resource
  pub task : Ptr → Task
  pub sem_count : Ptr → ℤ
  pub port : Ptr → Port
  pub team_resources : Ptr → List Ptr
  -- the scheduler
  pub current : Ptr
  pub run_queue : Ptr
  pub idle_task : Ptr
  pub kernel_team : Ptr
  pub live_tasks : ℕ

abbrev pub set_rsrc : Ptr → Resource → Kernel → Kernel
set_rsrc p r k = record k { rsrc = update k.rsrc p r }

abbrev pub set_queue : Ptr → List Ptr → Kernel → Kernel
set_queue p q k = let r = k.rsrc p in set_rsrc p (record r { queue = q }) k

abbrev pub set_task : Ptr → Task → Kernel → Kernel
set_task t d k = record k { task = update k.task t d }
