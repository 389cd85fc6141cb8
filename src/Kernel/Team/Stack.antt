-- ===== src/Kernel/Team/Stack.antt =====
-- The stack that task_create of kernel/task.c prepares: words that are pushed are read back in the
-- opposite order.
use mathlib.Core.List.{reverse_aux}
use openblt.Prelude.{
  ℕ, zero, suc, ◌+◌, ◌-◌, ◌*◌, ◌<◌, ◌≤◌, ◌==◌, ◌≡◌, refl, ◌∙◌, false, List, [], ◌∷◌, arith, length,
  update, ==_refl,
}
use openblt.Kernel.Team.{push}

-- The `n` words from `sp` up, as a task pops them.
unfoldable pub words : ℕ → ℕ → (ℕ → ℕ) → List ℕ
words zero sp memory = []
words (suc n) sp memory = memory sp ∷ words n (sp + 4) memory

words-below :
    (n sp a w : ℕ) (memory : ℕ → ℕ) → a < sp → words n sp (update memory a w) ≡ words n sp memory
unfolding words
words-below zero sp a w memory h = refl
words-below (suc n) sp a w memory h =
    let rest = words-below n (sp + 4) a w memory (omega (arith, h)) in
    let other : (sp == a) ≡ false = ground (arith, h) in rw (other, rest) refl

pub push-words :
    (ws : List ℕ) (n sp : ℕ) (memory : ℕ → ℕ)
    → 4 * length ws ≤ sp
    → words (length ws + n) (push ws sp memory).1 (push ws sp memory).0
      ≡ reverse_aux ws (words n sp memory)
unfolding push words
push-words [] n sp memory h = let none : 0 + n ≡ n = omega arith in rw none refl
push-words (w ∷ ws) n sp memory h =
    let memory' = update memory (sp - 4) w in
    let rest = push-words ws (suc n) (sp - 4) memory' (omega (arith, h)) in
    let up : sp - 4 + 4 ≡ sp = omega (arith, h) in
    let count : length ws + suc n ≡ suc (length ws) + n = omega arith in
    let below = words-below n sp (sp - 4) w memory (omega (arith, h)) in
    rw (count, ==_refl (sp - 4), up, below) at rest

pub push-sp : (ws : List ℕ) (sp : ℕ) (memory : ℕ → ℕ) → (push ws sp memory).1 ≡ sp - 4 * length ws
unfolding push
push-sp [] sp memory = omega arith
push-sp (w ∷ ws) sp memory = push-sp ws (sp - 4) (update memory (sp - 4) w) ∙ omega arith

-- No other word changes.
pub push-frame :
    (ws : List ℕ) (sp : ℕ) (memory : ℕ → ℕ) (a : ℕ)
    → 4 * length ws ≤ sp
    → sp ≤ a
    → (push ws sp memory).0 a ≡ memory a
unfolding push
push-frame [] sp memory a f h = refl
push-frame (w ∷ ws) sp memory a f h =
    push-frame ws (sp - 4) (update memory (sp - 4) w) a (omega (arith, f)) (omega (arith, h))
    ∙ ground (arith, f, h)
