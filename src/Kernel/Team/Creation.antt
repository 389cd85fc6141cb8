-- ===== src/Kernel/Team/Creation.antt =====
-- task_create of kernel/task.c.
use mathlib.Core.Option
use openblt.Prelude.{
  ℕ, ◌+◌, ◌-◌, ◌*◌, ◌≤◌, ◌%◌, ◌^◌, ◌≡◌, refl, ap, ◌∙◌, Bool, some, [], ◌∷◌, arith, length, ==_refl,
  pos, ◌+ℤ◌, if◌then◌else◌,
}
use openblt.Kernel.State.{TaskFlags}
use openblt.Kernel.Memory.Virtual.{KernelSpace, kgetpages}
use openblt.Kernel.Team.{System, task_create, first_frame, prepared}
use openblt.Kernel.Team.Stack.{words, push-words, push-sp, push-frame}

-- What the system is after a task was created for the team, with its stack in the page `page`.
pub record Prepared (boot t team ip sp page : ℕ) (kernel : Bool) (s u : System) : Type 0 where
  pub popped :
      words 11 (u.thread t).esp u.memory
      ≡ 0
        ∷ 0
        ∷ 0
        ∷ 0
        ∷ 0x3002
        ∷ boot
        ∷ ip
        ∷ (if kernel then 8 else 35)
        ∷ 0x3202
        ∷ (sp + (2 ^ 32 - 20)) % 2 ^ 32
        ∷ (if kernel then 16 else 43)
        ∷ []
  pub bottom : (u.thread t).esp + 44 ≡ page + 4092
  pub elsewhere : (a : ℕ) → page + 4092 ≤ a → u.memory a ≡ s.memory a
  pub space : (u.thread t).cr3 ≡ (s.vm.aspace (s.team team).aspace).pdirphys
  pub ready : (u.kernel.task t).flags ≡ TaskFlags.ready
  pub member : (u.kernel.task t).team ≡ team
  pub counted : (u.team team).refcount ≡ (s.team team).refcount +ℤ pos 1

module _ (boot t team ip sp page : ℕ) (kernel : Bool) (s : System) (r : KernelSpace)
    (given : kgetpages 1 s.vm.space ≡ some (r, page)) where
  abbrev top : ℕ
  top = page + 4092

  -- Where kgetpages gives a page for the kernel stack, task_create makes a ready task of the team,
  -- which has one task more; the words that the first switch to it pops are four zeros and the
  -- flags, thread_bootstrap, and the instruction pointer, code selector (8 for a kernel task, 35
  -- for a user task), flags, stack pointer less 20 and data selector (16 or 43); nothing above the
  -- stack changes.
  pub task_create-Prepared :
      (u : System) × (task_create boot t team ip sp kernel s ≡ some u)
      × Prepared boot t team ip sp page kernel s u
  unfolding task_create Option.map words
  task_create-Prepared =
      let frame = first_frame boot ip sp kernel in
      let fits : 4 * length frame ≤ top = omega arith in
      (
        prepared boot t team ip sp kernel (r, page) s,
        rw given refl,
        record {
          popped = rw (==_refl t) (push-words frame 0 top s.memory fits);
          bottom =
              rw (==_refl t) (ap (λ (x : ℕ). x + 44) (push-sp frame top s.memory) ∙ omega arith);
          elsewhere = λ a h. push-frame frame top s.memory a fits h;
          space = rw (==_refl t) refl;
          ready = rw (==_refl t) refl;
          member = rw (==_refl t) refl;
          counted = rw (==_refl team) refl;
        },
      )
