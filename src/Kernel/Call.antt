-- ===== src/Kernel/Call.antt =====
-- The outcomes of a system call.
use openblt.Prelude.{ℤ, Option, none, some}
use openblt.Kernel.State.{Kernel}

-- What a system call does: it returns a value, or another task runs and the caller goes on when it is
-- current again, or the kernel stops.
pub data Call : Type 0 where
  returns : ℤ → Kernel → Call
  blocks : Kernel → Call
  stops : Call

-- A caller that blocks returns, when it is current again, what wait_on returns to it: `wait_result`.
abbrev pub blocking : Option Kernel → Call
blocking none = stops
blocking (some k) = blocks k

-- What holds of the kernel behind a call that did not stop it.
abbrev pub After : (Kernel → Type 0) → Call → Type 0
After P (returns c k) = P k
After P (blocks k) = P k
After P stops = ⊥
