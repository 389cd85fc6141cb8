-- ===== src/Prelude/Maps.antt =====
-- Memory as a function from addresses, changed at one address at a time.
use Prim.Native.Nat.{ℕ}
use mathlib.Core.Path.{◌≡◌}
use mathlib.Core.Bool.{false}
use native.Mathlib.Omega.{arith}
use openblt.Prelude.Tests.{◌==◌, if◌then◌else◌}

abbrev pub update {ℓ} : {A : Type ℓ} → (ℕ → A) → ℕ → A → ℕ → A
update f p v q = if q == p then v else f q

pub update_self {ℓ} : {A : Type ℓ} (f : ℕ → A) (p : ℕ) (v : A) → update f p v p ≡ v
update_self f p v = ground arith

pub update_ne {ℓ} :
    {A : Type ℓ} (f : ℕ → A) (p q : ℕ) (v : A) → (q == p) ≡ false → update f p v q ≡ f q
update_ne f p q v h = ground arith
