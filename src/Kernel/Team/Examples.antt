-- ===== src/Kernel/Team/Examples.antt =====
-- The theorems on teams and tasks at a small kernel whose team 0 has one area for its heap.
use openblt.Prelude.{◌*◌, ◌≡◌, refl, false, some, [], ◌∷◌, arith, pos}
use openblt.Kernel.Memory.Virtual.{KernelSpace, kgetpages}
use openblt.Kernel.Aspace.Examples.{one_area, housed, three_pages-IsFree, kernel_space}
use openblt.Kernel.Memory.Virtual.Backing.{kfreepage-kgetpage, kgetpages-one}
use openblt.Kernel.Team.{System, task_create}
use openblt.Kernel.Team.Creation.{Prepared, task_create-Prepared}

abbrev one_team : System
one_team = record {
  kernel = housed;
  vm = one_area;
  team = λ t. record { refcount = pos 1; aspace = 1; heap_id = pos 1; text_area = pos 0 };
  thread =
      λ t. record { irq = 0; esp = 0; esp0 = 0; cr3 = 0; kstack = 0; ustack = 0; stack_area = 0 };
  memory = λ a. 0;
}

given_page : (r : KernelSpace) × (kgetpages 1 kernel_space ≡ some (r, 0x803fb000))
given_page =
    let g =
      kfreepage-kgetpage kernel_space 5 (6 ∷ 7 ∷ []) three_pages-IsFree (omega arith) (omega arith)
        refl in
    (g.0, kgetpages-one kernel_space g.0 0x803fb000 (5 * 4096) g.1)

task_create-Prepared_example :
    (u : System) × (task_create 700 8 0 0x1074 0x5000 false one_team ≡ some u)
    × Prepared 700 8 0 0x1074 0x5000 0x803fb000 false one_team u
task_create-Prepared_example =
    task_create-Prepared 700 8 0 0x1074 0x5000 0x803fb000 false one_team given_page.0 given_page.1
