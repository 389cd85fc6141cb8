-- ===== src/Kernel/Team.antt =====
-- kernel/team.c, and the life of tasks in kernel/task.c and kernel/kernel.c.
--
-- The memory of the kernel is read and written by words. The words of a task that only the machine reads are its
-- `Thread`; the addresses that kmalloc returns, the place of thread_bootstrap and the table of the processor are
-- arguments. `none` is a panic, or a loop that does not end in its fuel.
pub mod Stack
pub mod Creation
pub mod Threads
pub mod Heap
mod Examples
use mathlib.Core.Option
use openblt.Prelude.{
  ℕ, zero, suc, ◌+◌, ◌-◌, ◌*◌, ◌%◌, ◌^◌, ◌==◌, Bool, true, false, Option, none, some, List, [], ◌∷◌,
  if◌then◌else◌, update, ℤ, pos, negsuc, ◌+ℤ◌, ◌-ℤ◌, eq_ℤ, length,
}
use openblt.Kernel.State.{
  Ptr, null, Kernel, RsrcType, rsrc_task, rsrc_port, rsrc_sem, rsrc_aspace, rsrc_area, rsrc_team,
  TaskFlags, Resource, Task, set_rsrc, set_task, err_none, err_resource, err_memory,
}
use openblt.Kernel.Call.{Call, returns, blocks, stops, blocking}
use openblt.Kernel.Queue.{wait_on, rsrc_enqueue}
use openblt.Kernel.Resource.{rsrc_find, rsrc_bind, rsrc_release, rsrc_set_owner, rsrc_set_name}
use openblt.Kernel.Sem.{sem_destroy}
use openblt.Kernel.Port.{port_destroy}
use openblt.Kernel.Memory.Virtual.{KernelSpace, kgetpages, kfreepage}
use openblt.Kernel.Aspace.{Vm, ptab_of}
use openblt.Kernel.Aspace.Calls.{
  Outcome, area_create, area_clone, area_destroy, area_resize, aspace_create, aspace_destroy,
}

pub record Team : Type 0 where
  pub refcount : ℤ
  pub aspace : Ptr
  pub heap_id : ℤ
  pub text_area : ℤ

pub record Thread : Type 0 where
  pub irq : ℕ
  pub esp : ℕ
  pub esp0 : ℕ
  pub cr3 : ℕ
  pub kstack : ℕ
  pub ustack : ℕ
  pub stack_area : Ptr

pub record System : Type 0 where
  pub kernel : Kernel
  pub vm : Vm
  pub team : Ptr → Team
  pub thread : Ptr → Thread
  pub memory : ℕ → ℕ

abbrev pub set_kernel : Kernel → System → System
set_kernel k s = record s { kernel = k }

abbrev pub set_team : Ptr → Team → System → System
set_team p d s = record s { team = update s.team p d }

abbrev pub set_thread : Ptr → Thread → System → System
set_thread t d s = record s { thread = update s.thread t d }

-- team_create, with the new objects `team` and `a`.
pub team_create : Ptr → Ptr → ℕ → System → Option System
team_create team a cr3 s = Option.bind (aspace_create a cr3 s.vm s.kernel) (λ (r : Kernel × Vm).
    let k = record (r.0) { team_resources = update (r.0).team_resources team [] } in
    Option.map
      (λ (k' : Kernel).
        set_team team (record { refcount = pos 0; aspace = a; heap_id = pos 0; text_area = pos 0 })
          (record s { kernel = rsrc_set_owner a team k'; vm = r.1 }))
      (rsrc_bind team rsrc_team k.kernel_team k))

-- The kernel behind a call that does not block.
abbrev pub kernel_after : Call → Option Kernel
kernel_after (returns c k) = some k
kernel_after (blocks k) = some k
kernel_after stops = none

-- The switch of team_destroy. A task falls through to port_destroy.
pub destroy_resource : RsrcType → Ptr → System → Option System
destroy_resource rsrc_task p s =
    Option.map (λ (k : Kernel). set_kernel k s)
      (kernel_after (port_destroy (s.kernel.rsrc p).id s.kernel))
destroy_resource rsrc_port p s =
    Option.map (λ (k : Kernel). set_kernel k s)
      (kernel_after (port_destroy (s.kernel.rsrc p).id s.kernel))
destroy_resource rsrc_sem p s =
    Option.map (λ (k : Kernel). set_kernel k s)
      (kernel_after (sem_destroy (s.kernel.rsrc p).id s.kernel))
destroy_resource rsrc_aspace p s =
    Option.map (λ (r : Kernel × Vm). record s { kernel = r.0; vm = r.1 })
      (aspace_destroy p s.vm s.kernel)
destroy_resource _ p s = some s

-- list_remove_head(&team->resources), and rsrc->owner = NULL
abbrev pub unown : Ptr → Ptr → List Ptr → Kernel → Kernel
unown team p rest k =
    let r = k.rsrc p in
    set_rsrc p (record r { owner = null })
      (record k { team_resources = update k.team_resources team rest })

pub destroy_resources : ℕ → Ptr → System → Option System
unfolding destroy_resource
destroy_resources zero team s = none
destroy_resources (suc fuel) team s = elim (s.kernel.team_resources team) [
  | [] ↦ some s
  | p ∷ rest ↦
      Option.bind
        (destroy_resource (s.kernel.rsrc p).type p (set_kernel (unown team p rest s.kernel) s))
        (destroy_resources fuel team)
]

-- The fuel is one more than the resources.
pub team_destroy : Ptr → System → Option System
team_destroy team s =
    Option.bind (destroy_resources (length (s.kernel.team_resources team) + 1) team s)
      (λ (s1 : System). Option.map (λ (k : Kernel). set_kernel k s1) (rsrc_release team s1.kernel))

-- SP--; *SP = w, for each word
pub push : List ℕ → ℕ → (ℕ → ℕ) → (ℕ → ℕ) × ℕ
push [] sp memory = (memory, sp)
push (w ∷ ws) sp memory = push ws (sp - 4) (update memory (sp - 4) w)

-- SEL_KDATA, SEL_KCODE, and SEL_UDATA and SEL_UCODE with the ring 3
abbrev pub data_selector : Bool → ℕ
data_selector kernel = if kernel then 16 else 43

abbrev pub code_selector : Bool → ℕ
code_selector kernel = if kernel then 8 else 35

-- What the first switch to a task pops, the last word first.
abbrev pub first_frame : ℕ → ℕ → ℕ → Bool → List ℕ
first_frame boot ip sp kernel =
    data_selector kernel
    ∷ (sp + (2 ^ 32 - 4 * 5)) % 2 ^ 32
    ∷ 0x3202
    ∷ code_selector kernel
    ∷ ip
    ∷ boot
    ∷ 0x3002
    ∷ 0
    ∷ 0
    ∷ 0
    ∷ 0
    ∷ []

abbrev pub prepared : ℕ → Ptr → Ptr → ℕ → ℕ → Bool → KernelSpace × ℕ → System → System
prepared boot t team ip sp kernel r s =
    let d = s.team team in
    let top = r.1 + 4092 in
    let stack = push (first_frame boot ip sp kernel) top s.memory in
    record s {
      kernel =
          set_task t
            (record (s.kernel.task t) {
              waiting_on = null;
              flags = TaskFlags.ready;
              scount = 0;
              team = team;
            })
            s.kernel;
      vm = record (s.vm) { space = r.0 };
      team = update s.team team (record d { refcount = d.refcount +ℤ pos 1 });
      thread = update s.thread t (record {
        irq = 0;
        esp = stack.1;
        esp0 = top;
        cr3 = (s.vm.aspace d.aspace).pdirphys;
        kstack = r.1;
        ustack = (s.thread t).ustack;
        stack_area = null;
      });
      memory = stack.0;
    }

-- task_create, with the new object `t`.
pub task_create : ℕ → Ptr → Ptr → ℕ → ℕ → Bool → System → Option System
task_create boot t team ip sp kernel s =
    Option.map (λ (r : KernelSpace × ℕ). prepared boot t team ip sp kernel r s)
      (kgetpages 1 s.vm.space)

-- The area of a task's stack goes with the task.
abbrev pub destroy_stack : Ptr → Ptr → System → Option System
destroy_stack t team s =
    let area = (s.thread t).stack_area in
    let destroyed =
      Option.map (λ (r : Kernel × Vm × ℤ). record s { kernel = r.0; vm = r.1 })
        (area_destroy (s.team team).aspace (s.kernel.rsrc area).id s.vm s.kernel) in
    if area == null then some s else destroyed

-- team->refcount--, and the end of a team without tasks
abbrev pub leave_team : Ptr → System → Option System
leave_team team s =
    let d = s.team team in
    let s1 = set_team team (record d { refcount = d.refcount -ℤ pos 1 }) s in
    let destroyed = team_destroy team s1 in
    if eq_ℤ (d.refcount -ℤ pos 1) (pos 0) then destroyed else some s1

abbrev pub free_kstack : Ptr → System → System
free_kstack t s = record s {
  vm = record (s.vm) { space = kfreepage (s.thread t).kstack s.vm.space };
}

pub task_destroy : Ptr → System → Option System
task_destroy t s =
    let team = (s.kernel.rsrc t).owner in
    let destroyed = Option.bind (destroy_stack t team s) (λ (s1 : System).
      let s2 = free_kstack t s1 in
      Option.bind (rsrc_release t s2.kernel) (λ (k : Kernel). leave_team team (set_kernel k s2))) in
    if t == s.kernel.current then none else destroyed

-- thr_wait of the task that rsrc_find_task gave. The caller returns ERR_NONE when it is current again.
pub wait_found : Kernel → Option Ptr → Call
wait_found k none = returns err_resource k
wait_found k (some task) = blocking (wait_on task k)

pub thr_wait : ℕ → Kernel → Call
unfolding wait_found
thr_wait thr_id k = wait_found k (rsrc_find rsrc_task thr_id k)
