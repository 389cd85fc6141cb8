-- ===== src/Kernel/Memory/Pools.antt =====
-- kmallocP and kfreeP of kernel/memory.c, and which blocks are in use.
use openblt.Prelude.{
  update, not, ◌-ℤ◌, ap, ◌+ℤ◌, zero, ℕ, suc, ◌+◌, ◌*◌, ◌≤◌, ◌<◌, ◌==◌, ◌≡◌, ◌≢◌, Bool, true, false,
  ◌||◌, List, ◌∷◌, leb, arith, has, Distinct, pos, [], refl, ◌&&◌, some, ltb, ==_refl, length,
}
use openblt.Kernel.FreeList.{Chain, Chain-update}
use openblt.Kernel.Memory.{recycle, shave, Pool, Heap, kmmax, kmalloc_p, kfree_p, give_back}

abbrev pub held : List ℕ → List ℕ → ℕ → Bool
held used free b = has b used || has b free

-- Two blocks of `size` bytes are the same or do not overlap.
abbrev pub clear : ℕ → ℕ → ℕ → Bool
clear size a b = (a == b) || leb (a + size) b || leb (b + size) a

-- The blocks of a pool that are in use and those that are free. The free ones are chained through
-- their first words, and none overlaps another or the fresh part of the page.
pub record IsPool (next : ℕ → ℕ) (km : Pool) (used free : List ℕ) : Type 0 where
  pub sized : 0 < km.size
  pub small : km.size ≤ 4096
  pub chain : Chain next km.free_chain free
  pub free_distinct : Distinct free
  pub apart : (b : ℕ) → has b used ≡ true → has b free ≡ false
  pub blocks :
      (a b : ℕ) → held used free a ≡ true → held used free b ≡ true → clear km.size a b ≡ true
  pub left : ℕ
  pub count : km.fresh_count ≡ pos (suc left)
  pub fresh :
      (b : ℕ)
      → held used free b ≡ true
      → (leb (b + km.size) km.fresh_chain || leb (km.fresh_chain + suc left * km.size) b) ≡ true
  pub real : (b : ℕ) → held used free b ≡ true → b ≢ 0
  pub fresh_real : km.fresh_chain ≢ 0

more_than_one : (l size : ℕ) → suc (suc l) * size ≡ size + suc l * size
more_than_one l size = grind arith

-- A block of a run of fresh blocks is the first of them or starts in the rest.
run_first : (n size : ℕ) → size ≤ suc n * size
run_first n size = grind arith

module _ (next : ℕ → ℕ) (km : Pool) (used : List ℕ) where
  recycle-IsPool :
      (b : ℕ) (free : List ℕ)
      → IsPool next km used (b ∷ free)
      → IsPool next (recycle next km) (b ∷ used) free
  recycle-IsPool b free v = record {
    sized = v.sized;
    small = v.small;
    chain = ground (arith, v.chain);
    free_distinct = v.free_distinct.1;
    apart = λ x h. ground (arith, v.apart x, h, v.free_distinct);
    blocks = λ x y h g. v.blocks x y (ground (arith, h)) (ground (arith, g));
    left = v.left;
    count = v.count;
    fresh = λ x h. v.fresh x (ground (arith, h));
    real = λ x h. v.real x (ground (arith, h));
    fresh_real = v.fresh_real;
  }

  -- The next fresh block is not in use.
  pub fresh_unused : IsPool next km used [] → has km.fresh_chain used ≡ false
  fresh_unused v = ground (arith, v.fresh km.fresh_chain, v.sized, run_first v.left km.size)

  module _ (v : IsPool next km used []) where
    abbrev b : ℕ
    b = km.fresh_chain

    fresh_clear : (x : ℕ) → held (b ∷ used) [] x ≡ true → clear km.size x b ≡ true
    fresh_clear x h = ground (arith, v.fresh x, h, run_first v.left km.size)

    shaved_blocks :
        (x y : ℕ)
        → held (b ∷ used) [] x ≡ true
        → held (b ∷ used) [] y ≡ true
        → clear km.size x y ≡ true
    shaved_blocks x y h g = ground (arith, v.blocks x y, fresh_clear x h, fresh_clear y g, h, g)

    bumped : ℕ → Pool
    bumped l = record km {
      used_count = km.used_count +ℤ pos 1;
      fresh_count = pos (suc l);
      fresh_chain = km.fresh_chain + km.size;
    }

    bumped-IsPool : (l : ℕ) → v.left ≡ suc l → IsPool next (bumped l) (b ∷ used) []
    unfolding bumped
    bumped-IsPool l e = record {
      sized = v.sized;
      small = v.small;
      chain = v.chain;
      free_distinct = tt;
      apart = λ x h. refl;
      blocks = shaved_blocks;
      left = l;
      count = refl;
      fresh = λ x h. ground (arith, h, v.fresh x, e, more_than_one l km.size);
      real = λ x h. ground (arith, v.real x, v.fresh_real, h);
      fresh_real = ground (arith, v.fresh_real);
    }

    -- With more than one fresh block no page is needed.
    shave-IsPool : 0 < v.left → (d : Pool) × (shave km ≡ some d) × IsPool next d (b ∷ used) []
    unfolding bumped
    shave-IsPool more = by_left v.left refl more
      where
        by_left :
            (l : ℕ)
            → v.left ≡ l
            → 0 < l
            → (d : Pool) × (shave km ≡ some d) × IsPool next d (b ∷ used) []
        by_left zero e h = absurd (omega (arith, h))
        by_left (suc l) e h =
            let left : km.fresh_count -ℤ pos 1 ≡ pos (suc l) = ground (arith, v.count, e) in
            (bumped l, rw left refl, bumped-IsPool l e)

-- A block of the pool `c`, not in use before, and the pool with it in use.
pub record Allocated (m : Heap) (c : ℕ) (used : List ℕ) (m' : Heap) (block : ℕ) : Type 0 where
  pub unused : has block used ≡ false
  pub free : List ℕ
  pub pool : IsPool m'.next (m'.km_map c) (block ∷ used) free
  pub others : (d : ℕ) → (d == c) ≡ false → m'.km_map d ≡ m.km_map d

module _ (m : Heap) (c : ℕ) (used : List ℕ) (known : c < kmmax) where
  -- kmallocP of a pool below KMMAX, where its blocks in use, its free blocks and its fresh blocks
  -- do not overlap and it has a free block or more than one fresh block, so that it takes no page,
  -- returns a block that was not in use; the pool is well formed with that block in use, and no
  -- other pool changes.
  pub kmalloc_p-Allocated :
      (free : List ℕ) (v : IsPool m.next (m.km_map c) used free)
      → 0 < length free + v.left
      → (m' : Heap) × (block : ℕ) × (kmalloc_p c m ≡ some (m', block)) × Allocated m c used m' block
  unfolding kmalloc_p
  kmalloc_p-Allocated [] v more =
      let km = m.km_map c in
      let none_free : (km.free_chain == 0) ≡ true = ground (arith, v.chain) in
      let in_range : leb kmmax c ≡ false = ground (arith, known) in
      let (d, e, w) = shave-IsPool m.next km used v (omega (arith, more)) in
      (
        record m { km_map = update m.km_map c d },
        km.fresh_chain,
        rw (in_range, none_free, e) refl,
        record {
          unused = fresh_unused m.next km used v;
          free = [];
          pool = rw (==_refl c) w;
          others = λ d n. ground (arith, n);
        },
      )
  kmalloc_p-Allocated (b ∷ free) v more =
      let km = m.km_map c in
      let some_free : (km.free_chain == 0) ≡ false = ground (arith, v.chain) in
      let in_range : leb kmmax c ≡ false = ground (arith, known) in
      (
        record m { km_map = update m.km_map c (recycle m.next km) },
        b,
        rw (in_range, some_free)
            (ap (λ (x : ℕ). some (record m { km_map = update m.km_map c (recycle m.next km) }, x))
              v.chain.0),
        record {
          unused = ground (arith, v.apart b, ==_refl b);
          free = free;
          pool = rw (==_refl c) (recycle-IsPool m.next km used b free v);
          others = λ d n. ground (arith, n);
        },
      )

  -- kfreeP of a block that is in use in a well formed pool below KMMAX succeeds, and leaves a well
  -- formed pool in which that block is the first free one and no longer in use.
  pub kfree_p-IsPool :
      (free : List ℕ) (b : ℕ) (rest : List ℕ)
      → IsPool m.next (m.km_map c) used free
      → has b used ≡ true
      → ((x : ℕ) → has x rest ≡ (has x used && not (b == x)))
      → (m' : Heap) × (kfree_p c b m ≡ some m') × IsPool m'.next (m'.km_map c) rest (b ∷ free)
  unfolding kfree_p
  kfree_p-IsPool free b rest v h r =
      let km = m.km_map c in
      let in_range : ltb kmmax c ≡ false = ground (arith, known) in
      (
        record m {
          km_map = update m.km_map c (give_back b km);
          next = update m.next b km.free_chain;
        },
        rw in_range,
        rw (==_refl c) (record {
          sized = v.sized;
          small = v.small;
          chain = (
            refl,
            v.real b (ground (arith, h)),
            ground (
              arith,
              ==_refl b,
              Chain-update m.next b km.free_chain km.free_chain free (v.apart b h) v.chain,
            ),
          );
          free_distinct = (v.apart b h, v.free_distinct);
          apart = λ x g. ground (arith, r x, v.apart x, g);
          blocks = λ x y g i. v.blocks x y (ground (arith, r x, g, h)) (ground (arith, r y, i, h));
          left = v.left;
          count = v.count;
          fresh = λ x g. v.fresh x (ground (arith, r x, g, h));
          real = λ x g. v.real x (ground (arith, r x, g, h));
          fresh_real = v.fresh_real;
        }),
      )
