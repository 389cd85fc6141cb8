-- ===== src/Posix/Descriptors.antt =====
-- Which descriptor lib/libposix/fdl.c gives, and what closing it does.
use openblt.Prelude.{
  ℕ, zero, suc, ◌+◌, ◌≤◌, ◌<◌, ◌==◌, ◌≡◌, refl, sym, ap, ℤ, pos, negsuc, pos_part, neg_part, true,
  false, Option, none, some, ltb, update, arith, Bool-cases, inl, inr, ==_refl, ==_eq,
}
use openblt.Posix.{
  FdlType, Filedesc, Program, max_fds, in_use, first_free, set_descriptor, fdl_alloc_descriptor,
  close,
}

module _ {W : Type 0} where
  -- The first of the `n` descriptors from `i` on that is free.
  abbrev IsFirst : (ℕ → Option (Filedesc W)) → ℕ → ℕ → Option ℕ → Type 0
  IsFirst table n i none = (j : ℕ) → i ≤ j → j < n + i → in_use (table j) ≡ true
  IsFirst table n i (some k) =
      (i ≤ k)
      × (k < n + i)
      × (in_use (table k) ≡ false)
      × ((j : ℕ) → i ≤ j → j < k → in_use (table j) ≡ true)

  used_next :
      (table : ℕ → Option (Filedesc W)) (n i : ℕ) (m : Option ℕ)
      → in_use (table i) ≡ true
      → IsFirst table n (i + 1) m
      → IsFirst table (suc n) i m
  used_next table n i none e h = λ j l u. elim (Bool-cases (i == j)) [
    | inl s ↦ rw (sym (==_eq i j s)) e
    | inr s ↦ h j (ground (arith, l, s)) (omega (arith, u))
  ]
  used_next table n i (some k) e h = (
    omega (arith, h.0),
    omega (arith, h.1),
    h.2,
    (λ j l u. elim (Bool-cases (i == j)) [
      | inl s ↦ rw (sym (==_eq i j s)) e
      | inr s ↦ h.3 j (ground (arith, l, s)) u
    ]),
  )

  first_free-IsFirst :
      (table : ℕ → Option (Filedesc W)) (n i : ℕ) → IsFirst table n i (first_free table n i)
  first_free-IsFirst table zero i = λ j l u. absurd (omega (arith, l, u))
  first_free-IsFirst table (suc n) i = elim (Bool-cases (in_use (table i))) [
    | inl e ↦
        rw e
          (used_next table n i (first_free table n (i + 1)) e (first_free-IsFirst table n (i + 1)))
    | inr e ↦ rw e (omega arith, omega arith, e, (λ j l u. absurd (omega (arith, l, u))))
  ]

  -- Either all descriptors are in use, or the first that is free is set to the handler and the cookie.
  pub data Allocated (handler : FdlType W) (cookie : ℕ) (p : Program W)
      : ℤ × Program W → Type 0 where
    all_in_use :
        ((j : ℕ) → j < max_fds → in_use (p.fd_table j) ≡ true)
        → Allocated handler cookie p (negsuc 0, p)
    first :
        (fd : ℕ)
        → fd < max_fds
        → in_use (p.fd_table fd) ≡ false
        → ((j : ℕ) → j < fd → in_use (p.fd_table j) ≡ true)
        → Allocated handler cookie p (
          pos fd,
          record p {
            fd_table = update p.fd_table fd (some (record { imp = handler; cookie = cookie }));
          },
        )

  set_descriptor-Allocated :
      (handler : FdlType W) (cookie : ℕ) (p : Program W) (n : ℕ) (m : Option ℕ)
      → n ≡ max_fds
      → IsFirst p.fd_table n 0 m
      → Allocated handler cookie p (set_descriptor (record { imp = handler; cookie = cookie }) p m)
  set_descriptor-Allocated handler cookie p n none e h =
      all_in_use (λ j l. h j (omega arith) (omega (arith, e, l)))
  set_descriptor-Allocated handler cookie p n (some k) e h =
      first k (omega (arith, e, h.1)) h.2 (λ j l. h.3 j (omega arith) l)

  -- _fdl_alloc_descriptor returns -1 and changes nothing where all descriptors are in use, and
  -- otherwise sets the first that is free to the handler and the cookie, returns it and changes no
  -- other.
  pub fdl_alloc_descriptor-Allocated :
      (handler : FdlType W) (cookie : ℕ) (p : Program W)
      → Allocated handler cookie p (fdl_alloc_descriptor handler cookie p)
  unfolding fdl_alloc_descriptor
  fdl_alloc_descriptor-Allocated handler cookie p =
      set_descriptor-Allocated handler cookie p max_fds (first_free p.fd_table max_fds 0) refl
        (first_free-IsFirst p.fd_table max_fds 0)

  no_filedesc : (m : Option (Filedesc W)) → in_use m ≡ false → m ≡ none
  no_filedesc none h = refl
  no_filedesc (some f) h = absurd (ground (arith, h))

  abbrev with_descriptor : ℕ → FdlType W → ℕ → Program W → Program W
  with_descriptor fd handler cookie p = record p {
    fd_table = update p.fd_table fd (some (record { imp = handler; cookie = cookie }));
  }

  abbrev after_close : ℕ → FdlType W → ℕ → W → Program W → Program W
  after_close fd handler cookie w p = record p {
    fd_table = update (with_descriptor fd handler cookie p).fd_table fd none;
    world = w;
  }

  -- The table is as before.
  table_again :
      (handler : FdlType W) (cookie : ℕ) (p : Program W) (fd : ℕ) (w : W)
      → in_use (p.fd_table fd) ≡ false
      → (j : ℕ) → (after_close fd handler cookie w p).fd_table j ≡ p.fd_table j
  table_again handler cookie p fd w free j = elim (Bool-cases (j == fd)) [
    | inl e ↦ rw (e, ==_eq j fd e) (sym (no_filedesc (p.fd_table fd) free))
    | inr e ↦ rw (e) refl
  ]

  close_allocated :
      (handler : FdlType W) (cookie : ℕ) (p : Program W) (fd : ℕ) (f : ℕ → W → ℤ × W)
      → handler.close ≡ some f
      → fd < max_fds
      → in_use (p.fd_table fd) ≡ false
      → (p' : Program W) × (close fd (with_descriptor fd handler cookie p)
          ≡ some ((f cookie p.world).0, p'))
        × ((j : ℕ) → p'.fd_table j ≡ p.fd_table j)
  unfolding close
  close_allocated handler cookie p fd f c l free =
      let range : ltb fd max_fds ≡ true = ground (arith, l) in
      let w = (f cookie p.world).1 in
      (
        after_close fd handler cookie w p,
        rw (range, ==_refl fd, c) refl,
        table_again handler cookie p fd w free,
      )

  close_after :
      (handler : FdlType W) (cookie : ℕ) (p : Program W) (fd : ℕ) (f : ℕ → W → ℤ × W)
      (r : ℤ × Program W)
      → handler.close ≡ some f
      → Allocated handler cookie p r
      → r.0 ≡ pos fd
      → (p' : Program W) × (close fd r.1 ≡ some ((f cookie p.world).0, p'))
        × ((j : ℕ) → p'.fd_table j ≡ p.fd_table j)
  close_after handler cookie p fd f _ c (all_in_use u) e = absurd (omega (arith, ap neg_part e))
  close_after handler cookie p fd f _ c (first i l free u) e =
      let same : i ≡ fd = ap pos_part e in
      rw (sym same) (close_allocated handler cookie p i f c l free)

  -- Where the handler has a close, and _fdl_alloc_descriptor of it has returned a descriptor,
  -- _close of that descriptor returns what the handler's close returns for the cookie, and every
  -- descriptor is as it was before both.
  pub close-fdl_alloc_descriptor :
      (handler : FdlType W) (cookie : ℕ) (p : Program W) (fd : ℕ) (f : ℕ → W → ℤ × W)
      → handler.close ≡ some f
      → (fdl_alloc_descriptor handler cookie p).0 ≡ pos fd
      → (p' : Program W) × (close fd (fdl_alloc_descriptor handler cookie p).1
          ≡ some ((f cookie p.world).0, p'))
        × ((j : ℕ) → p'.fd_table j ≡ p.fd_table j)
  close-fdl_alloc_descriptor handler cookie p fd f c e =
      close_after handler cookie p fd f (fdl_alloc_descriptor handler cookie p) c
        (fdl_alloc_descriptor-Allocated handler cookie p) e
