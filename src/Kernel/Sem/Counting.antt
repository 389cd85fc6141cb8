-- ===== src/Kernel/Sem/Counting.antt =====
-- The count of a semaphore and its queue.
use openblt.Prelude.{
  ℕ, zero, suc, ◌+◌, ◌-◌, ◌==◌, ◌≡◌, ◌≢◌, refl, true, false, Option, some, List, [], ◌∷◌, ◌++◌,
  if◌then◌else◌, ℤ, pos, negsuc, ◌+ℤ◌, ◌-ℤ◌, ltb_ℤ, neg_part, length, length-append, arith, ==_refl,
  Bool-cases, inl, inr,
}
use openblt.Kernel.State.{Ptr, null, err_none, rsrc_sem, Kernel}
use openblt.Kernel.Queue.Invariant.{IsQueued-frame}
use openblt.Kernel.Queue.Scheduling.{IsScheduled, CanIdle, Parked, wait_on-Parked}
use openblt.Kernel.Queue.Waking.{dequeue-IsFree, dequeue-nil}
use openblt.Kernel.Queue.Handover.{dequeue_preempt-HeadPreempts}
use openblt.Kernel.Resource.{rsrc_find}
use openblt.Kernel.Call.{Call, returns, blocks, After}
use openblt.Kernel.Sem.{set_count, sem_acquire, sem_release, release_to, rsrc_dequeue, preempt}

-- A count below zero counts the tasks that wait, and otherwise nobody waits.
abbrev pub IsCounted : Kernel → Ptr → Type 0
IsCounted k s = neg_part (k.sem_count s) ≡ length (k.rsrc s).queue

dec_parts :
    (c : ℤ) → neg_part (c -ℤ pos 1) ≡ (if ltb_ℤ (pos 0) c then neg_part c else neg_part c + 1)
dec_parts (pos zero) = refl
dec_parts (pos (suc n)) = ground arith
dec_parts (negsuc n) = ground arith

inc_parts : (c : ℤ) → neg_part (c +ℤ pos 1) ≡ neg_part c - 1
inc_parts (pos n) = ground arith
inc_parts (negsuc n) = ground arith

counted-IsScheduled : (s : Ptr) (c : ℤ) (k : Kernel) → IsScheduled k → IsScheduled (set_count s c k)
counted-IsScheduled s c k v = record {
  queued = IsQueued-frame k (set_count s c k) (λ r. refl) (λ t. refl) v.queued;
  current_loose = v.current_loose;
  idle_loose = v.idle_loose;
  run_real = v.run_real;
}

-- sem_acquire of a semaphore with a positive count takes one and returns; of another, it takes one and
-- parks the caller behind the tasks that wait.
pub data Acquired (s : Ptr) (k : Kernel) : Call → Type 0 where
  took :
      {k' : Kernel}
      → k' ≡ set_count s (k.sem_count s -ℤ pos 1) k
      → ltb_ℤ (pos 0) (k.sem_count s) ≡ true
      → Acquired s k (returns err_none k')
  waits :
      {k' : Kernel}
      → Parked s (set_count s (k.sem_count s -ℤ pos 1) k) k'
      → ltb_ℤ (pos 0) (k.sem_count s) ≡ false
      → Acquired s k (blocks k')

pub record IsSound (s : Ptr) (k : Kernel) : Type 0 where
  pub counted : IsCounted k s
  pub scheduled : IsScheduled k

Acquired-IsSound :
    (s : Ptr) (k : Kernel) (c : Call) → Acquired s k c → IsSound s k → After (IsSound s) c
Acquired-IsSound s k c (took {k'} e h) v = rw e (record {
  counted = ground (arith, ==_refl s, dec_parts (k.sem_count s), h, v.counted);
  scheduled = counted-IsScheduled s _ k v.scheduled;
})
Acquired-IsSound s k c (waits {k'} w h) v = record {
  counted = ground (
    arith,
    w.same.sems,
    ==_refl s,
    dec_parts (k.sem_count s),
    h,
    v.counted,
    w.parked,
    length-append (k.rsrc s).queue (k.current ∷ []),
  );
  scheduled = w.scheduled;
}

-- sem_release of a semaphore that nobody waits for adds one; of another, the first that waits runs at
-- once, with ERR_NONE, and the caller is ready.
pub record HandedOver (s t : Ptr) (ts : List Ptr) (k k' : Kernel) : Type 0 where
  pub current : k'.current ≡ t
  pub delivered : (k'.task t).status ≡ err_none
  pub left : (k'.rsrc s).queue ≡ ts
  pub requeued :
      (k'.rsrc k.run_queue).queue
      ≡ (k.rsrc k.run_queue).queue ++ (if k.current == k.idle_task then [] else k.current ∷ [])
  pub count : k'.sem_count s ≡ k.sem_count s +ℤ pos 1
  pub scheduled : IsScheduled k'

release_to-some :
    (p : Kernel × Option Ptr) (t : Ptr) → p.1 ≡ some t → release_to p ≡ preempt t err_none p.0
release_to-some p t e = ground arith

module _ (id : ℕ) (s : Ptr) (k : Kernel) (found : rsrc_find rsrc_sem id k ≡ some s)
    (v : IsSound s k) (real : s ≢ null) (other : (s == k.run_queue) ≡ false) where
  -- sem_acquire of a semaphore that is found, is not the run queue and whose count agrees with its
  -- queue, by a task that may wait, takes one from the count; it returns ERR_NONE at once where the
  -- count was positive, and otherwise parks the caller behind the tasks that wait.
  pub sem_acquire-Acquired :
      CanIdle k → (k.current == k.idle_task) ≡ false → Acquired s k (sem_acquire id k)
  unfolding sem_acquire
  sem_acquire-Acquired c busy =
      rw (found, sem_acquire)
        (elim (Bool-cases (ltb_ℤ (pos 0) (k.sem_count s))) [
          | inl more ↦ rw more (took refl more)
          | inr less ↦
              let taken = set_count s (k.sem_count s -ℤ pos 1) k in
              let (k', e, w) =
                wait_on-Parked s taken (counted-IsScheduled s _ k v.scheduled)
                  (record { live = c.live; idle_alive = c.idle_alive }) real other busy in
              rw (less, e) (waits w less)
        ])

  -- After sem_acquire of a sound semaphore by a task that may wait, whether it returns or blocks, a
  -- count below zero is the number of tasks that wait on it and the scheduler's invariant holds.
  pub sem_acquire-IsSound :
      CanIdle k → (k.current == k.idle_task) ≡ false → After (IsSound s) (sem_acquire id k)
  sem_acquire-IsSound c busy = Acquired-IsSound s k _ (sem_acquire-Acquired c busy) v

  abbrev added : Kernel
  added = set_count s (k.sem_count s +ℤ pos 1) k

  released : sem_release id k ≡ (err_none, release_to (rsrc_dequeue s added))
  unfolding sem_release
  released = rw (found, sem_release)

  pub sem_release-nobody : (k.rsrc s).queue ≡ [] → sem_release id k ≡ (err_none, added)
  sem_release-nobody e = rw (released, dequeue-nil s added e)

  -- sem_release of a sound semaphore on which tasks wait adds one to the count and returns
  -- ERR_NONE; the first task that waits is current, with ERR_NONE, and the caller is at the tail of
  -- the run queue unless it is the idle task.
  pub sem_release-HandedOver :
      (t : Ptr) (ts : List Ptr)
      → (k.rsrc s).queue ≡ t ∷ ts
      → ((sem_release id k).0 ≡ err_none) × HandedOver s t ts k (sem_release id k).1
  sem_release-HandedOver t ts e =
      let sound = counted-IsScheduled s _ k v.scheduled in
      let free = dequeue-IsFree s added t ts sound e in
      let w = dequeue_preempt-HeadPreempts s t ts err_none added sound e other in
      rw (released, release_to-some (rsrc_dequeue s added) t free.0)
        (
          refl,
          record {
            current = w.current;
            delivered = w.delivered;
            left = w.left;
            requeued = w.requeued;
            count = ground (arith, w.same.sems, ==_refl s);
            scheduled = w.scheduled;
          },
        )

  -- After sem_release of a sound semaphore that is not the run queue, whether a task waits or not,
  -- a count below zero is the number of tasks that wait on it and the scheduler's invariant holds.
  pub sem_release-IsSound : IsSound s (sem_release id k).1
  sem_release-IsSound = after_release (k.rsrc s).queue refl
    where
      after_release : (q : List Ptr) → (k.rsrc s).queue ≡ q → IsSound s (sem_release id k).1
      after_release [] e = rw (sem_release-nobody e) (record {
        counted = ground (arith, ==_refl s, inc_parts (k.sem_count s), v.counted, e);
        scheduled = counted-IsScheduled s _ k v.scheduled;
      })
      after_release (t ∷ ts) e =
          let w = (sem_release-HandedOver t ts e).1 in
          record {
            counted = ground (arith, w.count, w.left, inc_parts (k.sem_count s), v.counted, e);
            scheduled = w.scheduled;
          }
