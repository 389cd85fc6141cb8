-- ===== src/Kernel/Team/Threads.antt =====
-- thr_spawn of kernel/task.c, and new_thread and brk of kernel/kernel.c.
use mathlib.Core.Option
use openblt.Prelude.{
  ℕ, zero, suc, ◌+◌, ◌-◌, ◌*◌, ◌%◌, ◌^◌, ◌==◌, Bool, false, Option, none, some, List, if◌then◌else◌,
  ℤ, pos, negsuc, eq_ℤ,
}
use openblt.Kernel.State.{
  Ptr, null, Kernel, RsrcType, rsrc_task, rsrc_area, TaskFlags, set_task, err_memory,
}
use openblt.Kernel.Queue.{rsrc_enqueue}
use openblt.Kernel.Resource.{rsrc_find, rsrc_bind, rsrc_set_owner, rsrc_set_name}
use openblt.Kernel.Aspace.{Vm, ptab_of}
use openblt.Kernel.Aspace.Calls.{Outcome, area_create, area_clone, area_resize}
use openblt.Kernel.Team.{System, set_kernel, set_team, set_thread, team_create, task_create}

-- rsrc_find of an int that a call returned; a negative one is beyond the map.
abbrev pub find_id : RsrcType → ℤ → Kernel → Option Ptr
find_id type (pos id) k = rsrc_find type id k
find_id type (negsuc n) k = none

-- if(area = rsrc_find_area(id)) rsrc_set_owner(&area->rsrc, team)
abbrev pub give_to : Ptr → Option Ptr → Kernel → Kernel
give_to team none k = k
give_to team (some area) k = rsrc_set_owner area team k

-- A clone of the area for the team, and its id.
pub clone_for : Ptr → Ptr → ℕ → ℕ → System → Option (System × ℤ)
clone_for copy team area vaddr s =
    Option.map
      (λ (o : Outcome). (
        record s { kernel = give_to team (find_id rsrc_area o.value o.kernel) o.kernel; vm = o.vm },
        o.value,
      ))
      (area_clone copy (s.team team).aspace area vaddr 0 s.vm s.kernel)

-- The task is named, ready and counted; with its id.
abbrev pub start_spawned : Ptr → Ptr → Option (List ℕ) → System → System × ℕ
start_spawned task team name s =
    let k1 = rsrc_set_name team name (rsrc_set_name task name s.kernel) in
    let k2 = rsrc_enqueue k1.run_queue task k1 in
    (set_kernel (record k2 { live_tasks = k2.live_tasks + 1 }) s, (k2.rsrc task).id)

-- thr_spawn, with the new objects `team`, `a`, `task`, `copy0` and `copy1`.
pub thr_spawn :
    ℕ
    → ℕ
    → Ptr
    → Ptr
    → Ptr
    → Ptr
    → Ptr
    → ℕ
    → ℕ
    → ℕ
    → ℕ
    → ℕ
    → ℕ
    → Option (List ℕ)
    → System
    → Option (System × ℕ)
thr_spawn boot cr3 team a task copy0 copy1 ip sp area0 vaddr0 area1 vaddr1 name s =
    Option.bind (team_create team a cr3 s) (λ (s1 : System).
      Option.bind (task_create boot task team ip sp false s1) (λ (s2 : System).
        let s3 = set_thread task (record (s2.thread task) { ustack = 0 }) s2 in
        Option.bind (rsrc_bind task rsrc_task team s3.kernel) (λ (k : Kernel).
          Option.bind (clone_for copy0 team area0 vaddr0 (set_kernel k s3)) (λ (r0 : System × ℤ).
            let s4 = set_team team (record ((r0.0).team team) { heap_id = r0.1 }) r0.0 in
            Option.map (λ (r1 : System × ℤ). start_spawned task team name r1.0)
              (clone_for copy1 team area1 vaddr1 s4)))))

-- for(i=1023;i>0;i--), from `i` on
pub highest_free : ℕ → (ℕ → ℕ) → ℕ
highest_free zero t = 0
highest_free (suc i) t = let rest = highest_free i t in if t (suc i) == 0 then suc i else rest

abbrev found_or_null : Option Ptr → Ptr
found_or_null none = null
found_or_null (some p) = p

-- The task of new_thread gets its stack and its id, and is ready where it is a user's.
abbrev pub start_thread : Ptr → Ptr → ℕ → ℤ → Bool → System → Option System
start_thread t team i stack kernel s =
    let d = s.thread t in
    let s1 =
      set_thread t
        (record d {
          ustack = i * 4096;
          stack_area = found_or_null (find_id rsrc_area stack s.kernel);
        })
        s in
    Option.map
      (λ (k : Kernel).
        let d = k.task t in
        let k1 = set_task t (record d { flags = TaskFlags.ready }) k in
        let k2 = rsrc_enqueue k1.run_queue t k1 in
        set_kernel (if kernel then k1 else record k2 { live_tasks = k2.live_tasks + 1 }) s1)
      (rsrc_bind t rsrc_task team s1.kernel)

-- new_thread, with the new objects `t`, `pg` and `area`.
pub new_thread : ℕ → Ptr → Ptr → Ptr → Ptr → ℕ → Bool → System → Option System
unfolding highest_free
new_thread boot t pg area team ip kernel s =
    let a = (s.team team).aspace in
    let i = highest_free 1023 (ptab_of a s.vm) in
    Option.bind (area_create pg area a 4096 (i * 4096) 0 0 s.vm s.kernel) (λ (o : Outcome).
      let s1 = record s { kernel = o.kernel; vm = o.vm } in
      let made =
        Option.bind (task_create boot t team ip (i * 4096 + 4092) kernel s1)
          (start_thread t team i o.value kernel) in
      if eq_ℤ o.value (pos 0) then none else made)

-- An id as an unsigned number; only one that was found is used.
abbrev pub id_of : ℤ → ℕ
id_of (pos n) = n
id_of (negsuc n) = 0

-- 0x1000 + ((addr - area->virt_addr) & 0xFFFFF000)
abbrev pub heap_size : ℕ → ℕ → ℕ
heap_size addr virt_addr =
    let above = (addr + (2 ^ 32 - virt_addr)) % 2 ^ 32 in (4096 + (above - above % 4096)) % 2 ^ 32

-- brk of the heap that rsrc_find_area gave.
unfoldable pub brk_found : ℕ → System → Option Ptr → Option (System × ℤ)
brk_found addr s none = some (s, err_memory)
brk_found addr s (some area) =
    let team = s.team (s.kernel.rsrc s.kernel.current).owner in
    let size = heap_size addr (s.vm.area area).virt_addr in
    Option.map (λ (r : Vm × ℤ). (record s { vm = r.0 }, r.1))
      (area_resize team.aspace (id_of team.heap_id) size s.vm s.kernel)

unfoldable pub brk : ℕ → System → Option (System × ℤ)
brk addr s =
    brk_found addr s
      (find_id rsrc_area (s.team (s.kernel.rsrc s.kernel.current).owner).heap_id s.kernel)
