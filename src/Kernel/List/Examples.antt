-- ===== src/Kernel/List/Examples.antt =====
-- The theorems on lists at one in memory: the list 1 with the items 40 and 50 in the nodes 2 and 3, and
-- the empty list 7.
use openblt.Prelude.{◌==◌, refl, true, [], ◌∷◌, if◌then◌else◌, arith}
use openblt.Kernel.List.{Heap, list_detach_head, list_attach_tail}
use openblt.Kernel.List.Sequence.{Holds}
use openblt.Kernel.List.Separation.{requeue}

abbrev two : Heap
two = record {
  next = λ p. if p == 1 then 2 else if p == 2 then 3 else if p == 3 then 1 else p;
  prev = λ p. if p == 1 then 3 else if p == 3 then 2 else if p == 2 then 1 else p;
  content = λ p. if p == 2 then 40 else 50;
  count = λ p. if p == 1 then 2 else 0;
  used = λ p. true;
}

two-Holds : Holds two 1 (2 ∷ 3 ∷ []) (40 ∷ 50 ∷ [])
two-Holds = record {
  ring = record { links = ground arith; distinct = ground arith; count = ground arith };
  contents = refl;
}

none-Holds : Holds two 7 [] []
none-Holds = record {
  ring = record { links = ground arith; distinct = ground arith; count = ground arith };
  contents = refl;
}

requeue_example :
    let after = list_attach_tail 7 2 (list_detach_head 1 two).0 in
    Holds after 1 (3 ∷ []) (50 ∷ []) × Holds after 7 (2 ∷ []) (40 ∷ [])
requeue_example =
    requeue two 1 2 (3 ∷ []) 40 (50 ∷ []) two-Holds 7 [] [] none-Holds (λ p m. ground arith)
