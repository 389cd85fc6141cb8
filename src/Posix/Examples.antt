-- ===== src/Posix/Examples.antt =====
-- The theorems on descriptors at a program with the descriptors 0 and 2, which opens a third.
use openblt.Prelude.{ℕ, ℤ, pos, ◌≡◌, ◌==◌, ◌||◌, refl, none, some, if◌then◌else◌, suc}
use openblt.Posix.{FdlType, Filedesc, Program, fdl_alloc_descriptor, close}
use openblt.Posix.Descriptors.{close-fdl_alloc_descriptor}

-- Closing counts, and returns the cookie.
abbrev counted : ℕ → ℕ → ℤ × ℕ
counted cookie n = (pos cookie, suc n)

abbrev console : FdlType ℕ
console = record { read = none; write = none; ioctl = none; close = some counted }

abbrev opened : Filedesc ℕ
opened = record { imp = console; cookie = 7 }

abbrev running : Program ℕ
running = record {
  fd_table = λ i. if (i == 0) || (i == 2) then some opened else none;
  errno = 0;
  world = 5;
}

close-fdl_alloc_descriptor_example :
    (p' : Program ℕ) × (close 1 (fdl_alloc_descriptor console 9 running).1 ≡ some (pos 9, p'))
    × ((j : ℕ) → p'.fd_table j ≡ running.fd_table j)
unfolding fdl_alloc_descriptor
close-fdl_alloc_descriptor_example =
    close-fdl_alloc_descriptor console 9 running 1 counted refl refl
