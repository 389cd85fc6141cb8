-- ===== src/Console/Examples.antt =====
-- The theorems on the console at a screen of 2 rows and 4 columns.
use openblt.Prelude.{ℕ, refl, List, [], ◌∷◌, arith}
use openblt.Console.Screen.{Screen, init_virtscreen}
use openblt.Console.Interpreter.{write_text}
use openblt.Console.Bounds.{IsScreen, init_virtscreen-IsScreen}
use openblt.Console.Writing.{Written, write_text-Written}

abbrev little : Screen
little = init_virtscreen 2 4 (λ i. 0)

little-IsScreen : IsScreen little
little-IsScreen = init_virtscreen-IsScreen 2 4 (λ i. 0) (ground arith) (ground arith)

-- ESC [ 2 J, a line feed and a letter
abbrev cleared : List ℕ
cleared = 27 ∷ b'[' ∷ b'2' ∷ b'J' ∷ 10 ∷ b'a' ∷ []

write_text-Written_example : Written little cleared (write_text little cleared)
write_text-Written_example = write_text-Written cleared little little-IsScreen refl
