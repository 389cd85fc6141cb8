-- ===== src/Posix.antt =====
-- lib/libposix/fdl.c: the table of the file descriptors of a program.
--
-- `none` says that the code follows NULL or looks beyond the table. The table's lock is not modelled.
pub mod Descriptors
mod Examples
use mathlib.Core.Option
use openblt.Prelude.{
  ℕ, zero, suc, ◌+◌, ◌==◌, ℤ, pos, negsuc, Bool, true, false, Option, none, some, List,
  if◌then◌else◌, ltb, update,
}

-- fdl_type, on the state `W` behind the descriptors; `none` in place of a call is NULL.
pub record FdlType (W : Type 0) : Type 0 where
  pub read : Option (ℕ → ℕ → W → ℤ × List ℕ × W)
  pub write : Option (ℕ → List ℕ → W → ℤ × W)
  pub ioctl : Option (ℕ → ℕ → ℕ → W → ℤ × W)
  pub close : Option (ℕ → W → ℤ × W)

-- __filedesc
pub record Filedesc (W : Type 0) : Type 0 where
  pub imp : FdlType W
  pub cookie : ℕ

-- The table, errno and the state behind the descriptors.
pub record Program (W : Type 0) : Type 0 where
  pub fd_table : ℕ → Option (Filedesc W)
  pub errno : ℕ
  pub world : W

abbrev pub max_fds : ℕ
max_fds = 256

abbrev pub enosys : ℕ
enosys = 78

module _ {W : Type 0} where
  abbrev pub libc_init_fdl : Program W → Program W
  libc_init_fdl p = record p { fd_table = λ i. none }

  abbrev pub in_use : Option (Filedesc W) → Bool
  in_use none = false
  in_use (some f) = true

  -- The loop of _fdl_alloc_descriptor from the descriptor `i`, with `n` to go.
  abbrev pub first_free : (ℕ → Option (Filedesc W)) → ℕ → ℕ → Option ℕ
  first_free table zero i = none
  first_free table (suc n) i =
      let next = first_free table n (i + 1) in if in_use (table i) then next else some i

  abbrev pub set_descriptor : Filedesc W → Program W → Option ℕ → ℤ × Program W
  set_descriptor f p none = (negsuc 0, p)
  set_descriptor f p (some i) = (pos i, record p { fd_table = update p.fd_table i (some f) })

  unfoldable pub fdl_alloc_descriptor : FdlType W → ℕ → Program W → ℤ × Program W
  fdl_alloc_descriptor handler cookie p =
      set_descriptor (record { imp = handler; cookie = cookie }) p (first_free p.fd_table max_fds 0)

  abbrev pub fdl_free_descriptor : ℕ → Program W → Program W
  fdl_free_descriptor desc p = record p { fd_table = update p.fd_table desc none }

  -- fd_table[fd]
  abbrev pub descriptor : ℕ → Program W → Option (Filedesc W)
  descriptor fd p = if ltb fd max_fds then p.fd_table fd else none

  abbrev pub not_there : Program W → Program W
  not_there p = record p { errno = enosys }

  abbrev pub read_with :
      ℕ → ℕ → Option (ℕ → ℕ → W → ℤ × List ℕ × W) → Program W → ℤ × List ℕ × Program W
  read_with cookie count none p = (negsuc 0, List.[], not_there p)
  read_with cookie count (some f) p =
      let (res, bytes, w) = f cookie count p.world in (res, bytes, record p { world = w })

  pub read : ℕ → ℕ → Program W → Option (ℤ × List ℕ × Program W)
  read fd count p =
      Option.map (λ (f : Filedesc W). read_with f.cookie count f.imp.read p) (descriptor fd p)

  abbrev pub write_with : ℕ → List ℕ → Option (ℕ → List ℕ → W → ℤ × W) → Program W → ℤ × Program W
  write_with cookie bytes none p = (negsuc 0, not_there p)
  write_with cookie bytes (some f) p =
      let (res, w) = f cookie bytes p.world in (res, record p { world = w })

  pub write : ℕ → List ℕ → Program W → Option (ℤ × Program W)
  write fd bytes p =
      Option.map (λ (f : Filedesc W). write_with f.cookie bytes f.imp.write p) (descriptor fd p)

  abbrev pub ioctl_with : ℕ → ℕ → ℕ → Option (ℕ → ℕ → ℕ → W → ℤ × W) → Program W → ℤ × Program W
  ioctl_with cookie request argp none p = (negsuc 0, not_there p)
  ioctl_with cookie request argp (some f) p =
      let (res, w) = f cookie request argp p.world in (res, record p { world = w })

  pub ioctl : ℕ → ℕ → ℕ → Program W → Option (ℤ × Program W)
  ioctl fd request argp p =
      Option.map (λ (f : Filedesc W). ioctl_with f.cookie request argp f.imp.ioctl p)
        (descriptor fd p)

  -- The descriptor is free after the call, whatever it returns; without a call it stays.
  abbrev pub close_with : ℕ → ℕ → Option (ℕ → W → ℤ × W) → Program W → ℤ × Program W
  close_with fd cookie none p = (negsuc 0, not_there p)
  close_with fd cookie (some f) p =
      let (res, w) = f cookie p.world in
      (res, record p { fd_table = update p.fd_table fd none; world = w })

  unfoldable pub close : ℕ → Program W → Option (ℤ × Program W)
  close fd p =
      Option.map (λ (f : Filedesc W). close_with fd f.cookie f.imp.close p) (descriptor fd p)
