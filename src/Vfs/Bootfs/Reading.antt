-- ===== src/Vfs/Bootfs/Reading.antt =====
-- Reading a file of srv/vfs/bootfs.c.
use openblt.Prelude.{
  ℕ, ◌+◌, ◌-◌, ◌*◌, ◌≤◌, ◌<◌, ◌≡◌, refl, ap, ◌∙◌, true, false, List, [], ◌∷◌, ◌++◌, leb,
  if◌then◌else◌, zero, suc, length, arith,
}
use openblt.Vfs.Bootfs.{BootfsInode, bytes_at, read_inode}

pub length-bytes_at : (mem : ℕ → ℕ) (a n : ℕ) → length (bytes_at mem a n) ≡ n
unfolding bytes_at
length-bytes_at mem a zero = refl
length-bytes_at mem a (suc n) = omega (arith, length-bytes_at mem (a + 1) n)

bytes_at-append :
    (mem : ℕ → ℕ) (a m n : ℕ) → bytes_at mem a m ++ bytes_at mem (a + m) n ≡ bytes_at mem a (m + n)
unfolding bytes_at
bytes_at-append mem a zero n =
    let here : a + 0 ≡ a = omega arith in let all : 0 + n ≡ n = omega arith in rw (here, all) refl
bytes_at-append mem a (suc m) n =
    let next : a + suc m ≡ a + 1 + m = omega arith in
    let all : suc m + n ≡ suc (m + n) = omega arith in
    rw (next, all) (ap (λ (bs : List ℕ). mem a ∷ bs) (bytes_at-append mem (a + 1) m n))

-- The bytes of a file from a position on.
pub content : (ℕ → ℕ) → ℕ → BootfsInode → ℕ → List ℕ
unfolding bytes_at
content mem bootdir i pos = bytes_at mem (bootdir + i.i_offset * 4096 + pos) (i.i_size - pos)

-- Nothing is read at the end or beyond.
pub read_inode-end :
    (mem : ℕ → ℕ) (bootdir : ℕ) (i : BootfsInode) (count pos : ℕ)
    → i.i_size ≤ pos
    → (read_inode mem bootdir i count pos ≡ []) × (content mem bootdir i pos ≡ [])
unfolding read_inode content bytes_at
read_inode-end mem bootdir i count pos h =
    let over : leb i.i_size pos ≡ true = ground (arith, h) in
    let rest : i.i_size - pos ≡ 0 = omega (arith, h) in (rw (over) refl, rw (rest) refl)

-- The number of bytes that are read.
abbrev portion : BootfsInode → ℕ → ℕ → ℕ
portion i count pos = if leb count (i.i_size - pos) then count else i.i_size - pos

portion_lem :
    (i : BootfsInode) (count pos : ℕ)
    → pos < i.i_size
    → 0 < count
    → (0 < portion i count pos) × (portion i count pos + pos ≤ i.i_size)
portion_lem i count pos h some_room = (ground (arith, h, some_room), ground (arith, h))

read_inode-portion :
    (mem : ℕ → ℕ) (bootdir : ℕ) (i : BootfsInode) (count pos : ℕ)
    → pos < i.i_size
    → read_inode mem bootdir i count pos
      ≡ bytes_at mem (bootdir + i.i_offset * 4096 + pos) (portion i count pos)
unfolding read_inode
read_inode-portion mem bootdir i count pos h =
    let under : leb i.i_size pos ≡ false = ground (arith, h) in rw (under) refl

content-join :
    (mem : ℕ → ℕ) (bootdir : ℕ) (i : BootfsInode) (n pos : ℕ)
    → n + pos ≤ i.i_size
    → bytes_at mem (bootdir + i.i_offset * 4096 + pos) n ++ content mem bootdir i (pos + n)
      ≡ content mem bootdir i pos
unfolding content
content-join mem bootdir i n pos h =
    let a = bootdir + i.i_offset * 4096 in
    let next : a + (pos + n) ≡ a + pos + n = omega arith in
    let all : n + (i.i_size - (pos + n)) ≡ i.i_size - pos = omega (arith, h) in
    ap (λ (b : ℕ). bytes_at mem (a + pos) n ++ bytes_at mem b (i.i_size - (pos + n))) next
    ∙ bytes_at-append mem (a + pos) n (i.i_size - (pos + n))
    ∙ ap (bytes_at mem (a + pos)) all

-- What is read before the end: some bytes, and no more than there are; with the rest of the file behind them they
-- are the file from the position on.
pub read_inode-content :
    (mem : ℕ → ℕ) (bootdir : ℕ) (i : BootfsInode) (count pos : ℕ)
    → pos < i.i_size
    → 0 < count
    → (n : ℕ) × (0 < n)
      × (n + pos ≤ i.i_size)
      × (length (read_inode mem bootdir i count pos) ≡ n)
      × (read_inode mem bootdir i count pos ++ content mem bootdir i (pos + n)
          ≡ content mem bootdir i pos)
read_inode-content mem bootdir i count pos h some_room =
    let n = portion i count pos in
    let (real, fits) = portion_lem i count pos h some_room in
    let read = read_inode-portion mem bootdir i count pos h in
    (
      n,
      real,
      fits,
      ap length read ∙ length-bytes_at mem (bootdir + i.i_offset * 4096 + pos) n,
      ap (λ (bs : List ℕ). bs ++ content mem bootdir i (pos + n)) read
          ∙ content-join mem bootdir i n pos fits,
    )
