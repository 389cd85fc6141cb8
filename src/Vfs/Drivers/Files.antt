-- ===== src/Vfs/Drivers/Files.antt =====
-- A client's reads of a boot file, through srv/vfs/vfs.c and bootfs.c.
use mathlib.Core.Option
use openblt.Prelude.{
  ℕ, ◌+◌, ◌-◌, ◌<◌, ◌==◌, ◌≡◌, refl, ap, true, false, List, [], ◌++◌, Option, none, some, ltb, leb,
  if◌then◌else◌, zero, suc, length, arith, Bool-cases, inl, inr, update_self,
}
use openblt.Vfs.Bootfs.{BootfsInode, read_inode, bootfs_read, data_inode}
use openblt.Vfs.Bootfs.Reading.{content, read_inode-end, read_inode-content}
use openblt.Vfs.Server.{Vfs, Client, Ofile, VfsRes, max_fds}
use openblt.Vfs.Server.Calls.{vfs_read, advanced, install}
use openblt.Vfs.Drivers.{World, read_boot}

abbrev pub append_read : VfsRes × List ℕ × Client → Option (List ℕ) → Option (List ℕ)
append_read (res, bytes, client) rest =
    if length bytes == 0 then some [] else Option.map (λ (bs : List ℕ). bytes ++ bs) rest

-- The reads of a client up to the end of the file, at most `count` bytes in each; `none` also says that the fuel ran out.
pub read_all : ℕ → ℕ → ℕ → Vfs World → Client → Option (List ℕ)
unfolding Option.bind
read_all zero fd count v client = none
read_all (suc k) fd count v client =
    Option.bind (vfs_read fd count v client)
      (λ (r : VfsRes × List ℕ × Client). append_read r (read_all k fd count v r.2))

-- The descriptor is that of a boot file that is `i`, at the position `pos`.
pub record IsReading (mem : ℕ → ℕ) (fd : ℕ) (i : BootfsInode) (bootdir pos : ℕ) (v : Vfs World)
    (client : Client) : Type 0 where
  pub opened : Ofile
  pub in_range : fd < max_fds
  pub found : client.ofile fd ≡ some opened
  pub position : opened.o_pos ≡ some pos
  pub driver : (v.supers opened.o_vnode.v_sb).sb_vops.read ≡ some (read_boot mem)
  pub inode : data_inode opened.o_vnode v.world.boot ≡ some i
  pub area : (v.world.boot.sb_data opened.o_vnode.v_sb).d_bootdir ≡ bootdir

module _ (mem : ℕ → ℕ) (fd count : ℕ) (i : BootfsInode) (bootdir : ℕ) (v : Vfs World) where
  -- The client after a read of `n` bytes.
  abbrev after : Ofile → ℕ → ℕ → Client → Client
  after o pos n client = install fd (some (record o { o_pos = some (pos + n) })) client

  vfs_read-boot :
      (pos : ℕ) (client : Client) (h : IsReading mem fd i bootdir pos v client)
      → vfs_read fd count v client
        ≡ some (advanced fd h.opened pos client (0, read_inode mem bootdir i count pos))
  unfolding vfs_read Option.bind bootfs_read
  vfs_read-boot pos client h =
      let range : ltb fd max_fds ≡ true = ground (arith, h.in_range) in
      rw (range, h.found, h.driver, h.position, h.inode, h.area) refl

  after-IsReading :
      (pos n : ℕ) (client : Client) (h : IsReading mem fd i bootdir pos v client)
      → IsReading mem fd i bootdir (pos + n) v (after h.opened pos n client)
  after-IsReading pos n client h = record {
    opened = record h.opened { o_pos = some (pos + n) };
    in_range = h.in_range;
    found = update_self client.ofile fd _;
    position = refl;
    driver = h.driver;
    inode = h.inode;
    area = h.area;
  }

  -- The reads of a client from a descriptor of a boot file, of at most a count above 0 each, come
  -- to the end of the file within one more of them than it has bytes left, and give together the
  -- bytes of the file from the position on, in order and each once.
  pub read_all-content :
      (fuel pos : ℕ) (client : Client)
      → IsReading mem fd i bootdir pos v client
      → 0 < count
      → i.i_size - pos < fuel
      → read_all fuel fd count v client ≡ some (content mem bootdir i pos)
  unfolding read_all Option.bind
  read_all-content zero pos client h real enough = absurd (omega (arith, enough))
  read_all-content (suc fuel) pos client h real enough = elim (Bool-cases (leb i.i_size pos)) [
    | inl e ↦
        let (nothing, all) = read_inode-end mem bootdir i count pos (ground (arith, e)) in
        rw (vfs_read-boot pos client h, nothing, all) refl
    | inr e ↦
        let (n, some_bytes, fits, size, join) =
          read_inode-content mem bootdir i count pos (ground (arith, e)) real in
        let more : (length (read_inode mem bootdir i count pos) == 0) ≡ false =
          ground (arith, size, some_bytes) in
        let rest =
          read_all-content fuel (pos + n) (after h.opened pos n client)
            (after-IsReading pos n client h) real (omega (arith, enough, some_bytes, fits)) in
        rw (vfs_read-boot pos client h, more, size, rest) (ap some join)
  ]
