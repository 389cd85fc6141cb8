-- ===== src/Kernel/Aspace/Examples.antt =====
-- The theorems on address spaces at a space with no mappings, three free pages, and a small kernel.
use openblt.Prelude.{ℕ, ◌+◌, ◌*◌, ◌==◌, ◌≡◌, refl, some, [], ◌∷◌, if◌then◌else◌, arith, List, none}
use openblt.Kernel.State.{Kernel, rsrc_area, err_memory, err_none, rsrc_aspace}
use openblt.Kernel.Examples.{small, resource_at}
use openblt.Kernel.Queue.Scheduling.{IsScheduled}
use openblt.Kernel.Resource.{rsrc_find}
use openblt.Kernel.Resource.Table.{IsTable, Found, Found-find}
use openblt.Kernel.Resource.Release.{Released}
use openblt.Kernel.Memory.{PageList}
use openblt.Kernel.Memory.Pages.{IsFree}
use openblt.Kernel.Memory.Virtual.{KernelSpace}
use openblt.Kernel.Aspace.{Vm, ptab_of, locate_span, find_span, attach}
use openblt.Kernel.Aspace.Calls.{aspace_destroy, area_destroy, area_resize}
use openblt.Kernel.Aspace.Span.{Span, locate_span-Span}
use openblt.Kernel.Aspace.Roundtrip.{Attached, attach-Attached}
use openblt.Kernel.Aspace.Lifetime.{area_destroy-create}
use openblt.Kernel.Aspace.Ending.{CanEnd, aspace_destroy-Ended}
use openblt.Kernel.Aspace.Resizing.{area_resize-short}

abbrev pub three_pages : PageList
three_pages = record {
  pagelist = λ i. if i == 5 then 6 else if i == 6 then 7 else 0;
  freepage = 5;
  used_pages = 3;
  total_pages = 6;
}

pub three_pages-IsFree : IsFree three_pages (5 ∷ 6 ∷ 7 ∷ [])
three_pages-IsFree = record { chain = ground arith; distinct = ground arith }

abbrev pub kernel_space : KernelSpace
kernel_space = record { pages = three_pages; high = λ i. 0; nextmem = 0x803fc000; freevpages = [] }

-- One area of the page 9, at the page 512 of the space.
abbrev pub one_area : Vm
one_area = record {
  space = kernel_space;
  table = λ a i. if i == 512 then 9 * 4096 + 7 else 0;
  aspace = λ a. record { areas = 5 ∷ []; pdir = 100; ptab = 101; pdirphys = 8192 };
  area = λ a. record { pgroup = 21; virt_addr = 512; length = 1; maxlength = 1 };
  group = λ g. record { size = 1; refcount = 1; flags = 0; areas = 5 ∷ []; pages = 9 ∷ [] };
}

-- The semaphore of the small kernel as an area.
abbrev pub housed : Kernel
housed = record small {
  rsrc = λ p. if p == 5 then record (resource_at 5) { type = rsrc_area } else resource_at p;
}

housed-IsTable : IsTable housed (4 ∷ 5 ∷ [])
housed-IsTable = record {
  chain = ground arith;
  distinct = ground arith;
  vacant = λ i h. ground arith;
  complete = λ i lt ne e. ground arith;
  reserved = refl;
  null_type = refl;
  bound = λ i lt ne. ground arith;
}

housed-IsScheduled : IsScheduled housed
housed-IsScheduled = record {
  queued = record {
    member = λ r t h. ground arith;
    waits = λ t h. ground arith;
    distinct = λ r. ground arith;
    nowhere = refl;
  };
  current_loose = λ r. ground arith;
  idle_loose = λ r. ground arith;
  run_real = ground arith;
}

area_Found : Found housed rsrc_area 1 5
area_Found = record {
  in_range = ground arith;
  mapped = refl;
  real = ground arith;
  typed = refl;
  named = refl;
}

pub area_found : rsrc_find rsrc_area 1 housed ≡ some 5
area_found = Found-find housed rsrc_area 1 5 area_Found

locate_span-Span_example : Span (ptab_of 1 one_area) 512 2 (locate_span (ptab_of 1 one_area) 512 2)
locate_span-Span_example = locate_span-Span (ptab_of 1 one_area) 512 2 (omega arith)

-- The space without its area, and with a new one of two pages.
abbrev no_area : Vm
no_area = record one_area {
  table = λ a i. 0;
  aspace = λ a. record { areas = []; pdir = 100; ptab = 101; pdirphys = 8192 };
}

new_area :
    (u : Vm) × (attach 1 21 5 2 0 0 512 no_area ≡ some u)
    × Attached 1 21 5 0 512 (5 ∷ 6 ∷ []) (7 ∷ []) no_area u
new_area = attach-Attached 1 21 5 0 512 (5 ∷ 6 ∷ []) (7 ∷ []) no_area refl three_pages-IsFree

area_destroy-create_example :
    (k' : Kernel) × (v : Vm) × (area_destroy 1 1 new_area.0 housed ≡ some (k', v, err_none))
    × Released housed 5 1 (4 ∷ 5 ∷ []) k'
    × IsFree v.space.pages (6 ∷ 5 ∷ 7 ∷ [])
    × ((j : ℕ) → ptab_of 1 v j ≡ 0)
    × ((v.aspace 1).areas ≡ [])
    × ((v.group 21).pages ≡ [])
area_destroy-create_example =
    area_destroy-create housed no_area new_area.0 1 21 5 1 0 512 (5 ∷ 6 ∷ []) (7 ∷ []) (4 ∷ 5 ∷ [])
      housed-IsTable housed-IsScheduled area_found refl refl three_pages-IsFree new_area.2
      (λ i l. refl) refl

area_resize-short_example : area_resize 1 1 5000 one_area housed ≡ some (one_area, err_memory)
area_resize-short_example =
    area_resize-short housed one_area 1 5 1 5000 area_found (omega arith) (ground arith)
      (omega arith) (omega arith)

-- The area at the page 1.
abbrev pub low_area : Vm
low_area = record one_area {
  area = λ a. record { pgroup = 21; virt_addr = 1; length = 1; maxlength = 1 };
}

pub low_span : locate_span (ptab_of 1 low_area) 2 1 ≡ 2
unfolding locate_span find_span
low_span = refl

-- The small kernel with the semaphore as an area and the port as an address space.
abbrev spaced : Kernel
spaced = record housed {
  rsrc = λ p. if p == 6 then record (resource_at 6) { type = rsrc_aspace } else housed.rsrc p;
}

spaced-CanEnd : CanEnd spaced (4 ∷ 5 ∷ []) (5 ∷ [])
spaced-CanEnd = record {
  table = record {
    chain = ground arith;
    distinct = ground arith;
    vacant = λ i h. ground arith;
    complete = λ i lt ne e. ground arith;
    reserved = refl;
    null_type = refl;
    bound = λ i lt ne. ground arith;
  };
  scheduled = record {
    queued = record {
      member = λ r t h. ground arith;
      waits = λ t h. ground arith;
      distinct = λ r. ground arith;
      nowhere = refl;
    };
    current_loose = λ r. ground arith;
    idle_loose = λ r. ground arith;
    run_real = ground arith;
  };
  found = λ p h. (1, ground (arith, h, Found-find spaced rsrc_area 1 5 spaced_area));
  not_run = refl;
  distinct = (refl, tt);
}
  where
    spaced_area : Found spaced rsrc_area 1 5
    spaced_area = record {
      in_range = ground arith;
      mapped = refl;
      real = ground arith;
      typed = refl;
      named = refl;
    }

space_Found : Found spaced rsrc_aspace 2 6
space_Found = record {
  in_range = ground arith;
  mapped = refl;
  real = ground arith;
  typed = refl;
  named = refl;
}

aspace_destroy-Ended_example :
    (k' : Kernel) × (u : Vm) × (freed : List ℕ) × (aspace_destroy 6 one_area spaced ≡ some (k', u))
    × (rsrc_find rsrc_aspace 2 k' ≡ none)
    × ((u.aspace 6).areas ≡ [])
    × IsTable k' freed
    × IsScheduled k'
aspace_destroy-Ended_example =
    aspace_destroy-Ended 6 2 (4 ∷ 5 ∷ []) one_area spaced spaced-CanEnd
      (Found-find spaced rsrc_aspace 2 6 space_Found) refl
