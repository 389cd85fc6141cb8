-- ===== src/Kernel/Frame.antt =====
-- What an operation leaves alone: the table of resources, and the objects behind it.
use openblt.Prelude.{◌≡◌, refl, ◌∙◌, arith, List}
use openblt.Kernel.State.{Ptr, Kernel, set_queue, set_task, Task}

-- What the table reads of a kernel.
pub record SameTable (k k' : Kernel) : Type 0 where
  pub resources : k'.rmap_resource ≡ k.rmap_resource
  pub nexts : k'.rmap_next ≡ k.rmap_next
  pub size : k'.rmax ≡ k.rmax
  pub first : k'.rfree ≡ k.rfree
  pub types : (p : Ptr) → (k'.rsrc p).type ≡ (k.rsrc p).type
  pub ids : (p : Ptr) → (k'.rsrc p).id ≡ (k.rsrc p).id

-- The table, the owners and the objects are the same; only queues and tasks may differ.
pub record SameObjects (k k' : Kernel) : Type 0 where
  pub table : SameTable k k'
  pub owners : (p : Ptr) → (k'.rsrc p).owner ≡ (k.rsrc p).owner
  pub sems : k'.sem_count ≡ k.sem_count
  pub ports : k'.port ≡ k.port
  pub run : k'.run_queue ≡ k.run_queue
  pub idle : k'.idle_task ≡ k.idle_task
  pub live : k'.live_tasks ≡ k.live_tasks

pub SameTable-trans : {a b c : Kernel} → SameTable a b → SameTable b c → SameTable a c
SameTable-trans s t = record {
  resources = t.resources ∙ s.resources;
  nexts = t.nexts ∙ s.nexts;
  size = t.size ∙ s.size;
  first = t.first ∙ s.first;
  types = λ p. t.types p ∙ s.types p;
  ids = λ p. t.ids p ∙ s.ids p;
}

pub SameObjects-trans : {a b c : Kernel} → SameObjects a b → SameObjects b c → SameObjects a c
SameObjects-trans s t = record {
  table = SameTable-trans s.table t.table;
  owners = λ p. t.owners p ∙ s.owners p;
  sems = t.sems ∙ s.sems;
  ports = t.ports ∙ s.ports;
  run = t.run ∙ s.run;
  idle = t.idle ∙ s.idle;
  live = t.live ∙ s.live;
}

pub SameObjects-refl : (k : Kernel) → SameObjects k k
SameObjects-refl k = record {
  table = record {
    resources = refl;
    nexts = refl;
    size = refl;
    first = refl;
    types = λ p. refl;
    ids = λ p. refl;
  };
  owners = λ p. refl;
  sems = refl;
  ports = refl;
  run = refl;
  idle = refl;
  live = refl;
}

-- A change of one queue or of the tasks is of this kind.
pub set_queue-SameObjects : (p : Ptr) (q : List Ptr) (k : Kernel) → SameObjects k (set_queue p q k)
set_queue-SameObjects p q k = record {
  table = record {
    resources = refl;
    nexts = refl;
    size = refl;
    first = refl;
    types = λ r. ground arith;
    ids = λ r. ground arith;
  };
  owners = λ r. ground arith;
  sems = refl;
  ports = refl;
  run = refl;
  idle = refl;
  live = refl;
}

pub set_task-SameObjects : (t : Ptr) (d : Task) (k : Kernel) → SameObjects k (set_task t d k)
set_task-SameObjects t d k = record {
  table = record {
    resources = refl;
    nexts = refl;
    size = refl;
    first = refl;
    types = λ p. refl;
    ids = λ p. refl;
  };
  owners = λ p. refl;
  sems = refl;
  ports = refl;
  run = refl;
  idle = refl;
  live = refl;
}

-- So is a change of the current task.
pub run-SameObjects :
    (t : Ptr) (f : Ptr → Task) (k : Kernel) → SameObjects k (record k { current = t; task = f })
run-SameObjects t f k = record {
  table = record {
    resources = refl;
    nexts = refl;
    size = refl;
    first = refl;
    types = λ p. refl;
    ids = λ p. refl;
  };
  owners = λ p. refl;
  sems = refl;
  ports = refl;
  run = refl;
  idle = refl;
  live = refl;
}
