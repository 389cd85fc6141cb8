-- ===== src/Kernel/Memory/Examples.antt =====
-- The theorems on memory at a small pool.
use openblt.Prelude.{ℕ, ◌≡◌, refl, some, [], ◌∷◌, arith}
use openblt.Kernel.Memory.{Heap, Pool, kmalloc_p, pos}
use openblt.Kernel.Memory.Pools.{IsPool, Allocated, kmalloc_p-Allocated}

-- A pool of blocks of 16 bytes, with one in use, one free and two fresh.
abbrev pool_of_16 : Pool
pool_of_16 = record {
  size = 16;
  used_count = pos 1;
  fresh_count = pos 2;
  free_count = pos 1;
  free_chain = 4096;
  fresh_chain = 4128;
}

abbrev pools : Heap
pools = record { km_map = λ c. pool_of_16; next = λ b. 0 }

pools-IsPool : IsPool (λ b. 0) pool_of_16 (4112 ∷ []) (4096 ∷ [])
pools-IsPool = record {
  sized = ground arith;
  small = ground arith;
  chain = ground arith;
  free_distinct = ground arith;
  apart = λ b h. ground arith;
  blocks = λ a b h g. ground arith;
  left = 1;
  count = refl;
  fresh = λ b h. ground arith;
  real = λ b h. ground arith;
  fresh_real = ground arith;
}

kmalloc_p-Allocated_example :
    (m' : Heap) × (block : ℕ) × (kmalloc_p 0 pools ≡ some (m', block))
    × Allocated pools 0 (4112 ∷ []) m' block
kmalloc_p-Allocated_example =
    kmalloc_p-Allocated pools 0 (4112 ∷ []) (ground arith) (4096 ∷ []) pools-IsPool (ground arith)
