-- ===== src/Kernel/Memory/Sizes.antt =====
-- The sizes of the pools of kernel/memory.c, and the pool that a request is given.
use openblt.Prelude.{ℕ, ◌≤◌, ◌<◌, ◌≡◌, some, arith}
use openblt.Kernel.Memory.{size_map, pool_size, block_pool}

-- The pool that kmallocB takes for a size below 256 has blocks of at least that size, and every
-- pool before it has smaller ones.
pub block_pool-smallest :
    (size : ℕ)
    → size < 256
    → (pool : ℕ) × (block_pool size ≡ some pool)
      × (size ≤ pool_size pool)
      × ((smaller : ℕ) → smaller < pool → pool_size smaller < size)
unfolding block_pool size_map pool_size
block_pool-smallest size h =
    (size_map size, ground (arith, h), ground (arith, h), λ smaller s. ground (arith, s))
