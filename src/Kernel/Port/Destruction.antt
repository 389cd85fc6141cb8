-- ===== src/Kernel/Port/Destruction.antt =====
-- port_destroy of kernel/port.c.
use mathlib.Core.Path.{subst}
use openblt.Prelude.{
  sym, ℕ, ◌==◌, ◌≡◌, false, none, List, ◌∷◌, pos, arith, ◌∙◌, Bool-cases, inl, inr,
}
use openblt.Kernel.Call.{returns}
use openblt.Kernel.State.{Ptr, err_none, rsrc_port, rsrc_queue, Kernel, Port}
use openblt.Kernel.Queue.Scheduling.{IsScheduled}
use openblt.Kernel.Resource.{rsrc_find}
use openblt.Kernel.Resource.Table.{IsTable, Found, Found-find, find-Found}
use openblt.Kernel.Resource.Release.{Released, rsrc_release-Released}
use openblt.Kernel.Port.{port_destroy}

-- Neither the port nor its queue is found any more, both ids are free, and no port has changed: a
-- master still counts a slave that is gone.
pub record Destroyed (k : Kernel) (id qid : ℕ) (free : List ℕ) (k' : Kernel) : Type 0 where
  pub port_gone : rsrc_find rsrc_port id k' ≡ none
  pub queue_gone : rsrc_find rsrc_queue qid k' ≡ none
  pub table : IsTable k' (qid ∷ id ∷ free)
  pub scheduled : IsScheduled k'
  pub ports : k'.port ≡ k.port

module _ (k : Kernel) (p : Ptr) (id qid : ℕ) (free : List ℕ) (t : IsTable k free)
    (f : Found k rsrc_port id p) (g : Found k rsrc_queue qid (k.port p).sendqueue)
    (n : (p == k.run_queue) ≡ false) (m : ((k.port p).sendqueue == k.run_queue) ≡ false)
    (s : IsScheduled k) where
  apart : (qid == id) ≡ false
  apart = elim (Bool-cases (qid == id)) [
    | inl e ↦ absurd (ground (arith, e, f.mapped, g.mapped, f.typed, g.typed))
    | inr e ↦ e
  ]

  queue_left :
      (k1 : Kernel) → Released k p id free k1 → Found k1 rsrc_queue qid (k1.port p).sendqueue
  queue_left k1 r =
      subst (λ (d : Ptr → Port). Found k1 rsrc_queue qid (d p).sendqueue) (sym r.ports)
        (find-Found k1 (id ∷ free) rsrc_queue qid (k.port p).sendqueue r.table (ground arith) (
          r.others rsrc_queue qid apart g.in_range
          ∙ Found-find k rsrc_queue qid (k.port p).sendqueue g))

  both-Destroyed :
      (k1 k2 : Kernel)
      → Released k p id free k1
      → Released k1 (k1.port p).sendqueue qid (id ∷ free) k2
      → Destroyed k id qid free k2
  both-Destroyed k1 k2 r q = record {
    port_gone =
        q.others rsrc_port id (ground (arith, apart)) (rw r.size f.in_range)
        ∙ r.gone rsrc_port (ground arith);
    queue_gone = q.gone rsrc_queue (ground arith);
    table = q.table;
    scheduled = q.scheduled;
    ports = q.ports ∙ r.ports;
  }

  -- In a well formed table, and where the scheduler's invariant holds, port_destroy of a port whose
  -- reference count is 1, with its send queue bound and neither of them the run queue, returns
  -- ERR_NONE; neither the port nor its queue is found any more, both ids are free, and the fields
  -- of every port, the reference count of a master included, are as before.
  pub port_destroy-Destroyed :
      (k.port p).refcount ≡ pos 1
      → (k' : Kernel) × (port_destroy id k ≡ returns err_none k') × Destroyed k id qid free k'
  unfolding port_destroy
  port_destroy-Destroyed last =
      let (k1, e, r) = rsrc_release-Released k p rsrc_port id free t f n s in
      let (k2, d, q) =
        rsrc_release-Released k1 (k1.port p).sendqueue rsrc_queue qid (id ∷ free) r.table
          (queue_left k1 r) (ground (arith, r.ports, r.run, m)) r.scheduled in
      (k2, rw (Found-find k rsrc_port id p f, port_destroy, last, e, d), both-Destroyed k1 k2 r q)
