-- ===== src/Kernel/Resource/Start.antt =====
-- rsrc_init of kernel/resource.c: the table that it makes.
use openblt.Prelude.{ℕ, zero, suc, ◌+◌, ◌<◌, ◌/◌, ◌≡◌, arith}
use openblt.Kernel.FreeList.{Chain, range, has-range, range-Distinct}
use openblt.Kernel.State.{Kernel}
use openblt.Kernel.Resource.{rsrc_init, rtab_size}
use openblt.Kernel.Resource.Table.{IsTable}

-- The free ids are chained in their order up to the last.
init-Chain :
    (size : ℕ) (k : Kernel) (a n : ℕ)
    → 0 < a
    → a + suc n ≡ size / rtab_size
    → Chain (rsrc_init size k).rmap_next a (range a (suc n))
unfolding rsrc_init
init-Chain size k a zero h e = ground (arith, h, e)
init-Chain size k a (suc n) h e =
    let rest = init-Chain size k (a + 1) n (omega arith) (omega (arith, e)) in
    ground (arith, h, e, rest)

-- rsrc_init of a map with room for n + 2 entries makes a well formed table, in which the ids from 1
-- to n + 1 are free, in that order.
pub rsrc_init-IsTable :
    (size : ℕ) (k : Kernel) (n : ℕ)
    → size / rtab_size ≡ n + 2
    → IsTable (rsrc_init size k) (range 1 (suc n))
unfolding rsrc_init
rsrc_init-IsTable size k n e = record {
  chain = init-Chain size k 1 n (omega arith) (omega (arith, e));
  distinct = range-Distinct 1 (suc n);
  vacant = λ i h. ground (arith, h, has-range i 1 (suc n), e);
  complete = λ i lt ne z. ground (arith, lt, ne, has-range i 1 (suc n), e);
  reserved = ground (arith, e);
  null_type = ground arith;
  bound = λ i lt ne. absurd (ne (ground (arith, lt)));
}
