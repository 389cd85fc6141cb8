-- ===== src/Kernel/Sem.antt =====
-- kernel/sem.c: counting semaphores. A negative count is the number of tasks that wait.
pub mod Counting
use mathlib.Core.Option
use openblt.Prelude.{
  ℕ, zero, suc, ◌+◌, ◌==◌, Bool, true, false, Option, none, some, List, [], ◌∷◌, if◌then◌else◌,
  update, ℤ, pos, negsuc, ◌+ℤ◌, ◌-ℤ◌, ltb_ℤ,
}
use openblt.Kernel.State.{Ptr, err_none, err_resource, rsrc_sem, Kernel}
use openblt.Kernel.Call.{Call, returns, blocks, stops, blocking}
use openblt.Kernel.Queue.{rsrc_dequeue, preempt, wait_on}
use openblt.Kernel.Resource.{rsrc_find, rsrc_bind, rsrc_release, rsrc_set_name}

abbrev pub set_count : Ptr → ℤ → Kernel → Kernel
set_count s c k = record k { sem_count = update k.sem_count s c }

-- The semaphore that kmalloc returned is `s`; the id of the new semaphore.
pub sem_create : Ptr → ℤ → Option (List ℕ) → Kernel → Option (Kernel × ℕ)
sem_create s count name k =
    let k1 = set_count s count k in
    Option.map (λ (k2 : Kernel). (rsrc_set_name s name k2, (k2.rsrc s).id))
      (rsrc_bind s rsrc_sem (k1.rsrc k1.current).owner k1)

pub sem_destroy : ℕ → Kernel → Call
sem_destroy id k = elim (rsrc_find rsrc_sem id k) [
  | none ↦ returns err_resource k
  | some s ↦ elim (rsrc_release s k) [ none ↦ stops | some k' ↦ returns err_none k' ]
]

abbrev acquire : Ptr → Kernel → Call
acquire s k =
    let taken = set_count s (k.sem_count s -ℤ pos 1) k in
    if ltb_ℤ (pos 0) (k.sem_count s) then returns err_none taken else blocking (wait_on s taken)

pub sem_acquire : ℕ → Kernel → Call
sem_acquire id k = elim (rsrc_find rsrc_sem id k) [
  | none ↦ returns err_resource k
  | some s ↦ acquire s k
]

abbrev release_to : Kernel × Option Ptr → Kernel
release_to (k, none) = k
release_to (k, some t) = preempt t err_none k

-- The value goes to the caller; where a task waited, that task is current now, and the caller gets its
-- value when it runs again.
pub sem_release : ℕ → Kernel → ℤ × Kernel
sem_release id k = elim (rsrc_find rsrc_sem id k) [
  | none ↦ (err_resource, k)
  | some s ↦
      let k1 = set_count s (k.sem_count s +ℤ pos 1) k in (err_none, release_to (rsrc_dequeue s k1))
]
