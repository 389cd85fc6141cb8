-- ===== src/Console/Safety.antt =====
-- The interpreter of srv/console2/vt100.c on any text.
use openblt.Prelude.{
  ℕ, zero, suc, ◌≤◌, ◌<◌, ◌≡◌, refl, Bool, true, false, leb, arith, ◌==◌, length-append, suc, ℤ,
  ◌∷◌, [], ◌+◌, ◌*◌, ◌-◌, Option, ltb, ◌&&◌, ◌||◌, none, ap, sym, ◌∙◌,
}
use openblt.Console.Screen.{
  Screen, Handler, scroll_virtscreen, set_scroll_region, scroll_virt_up_at_cursor, position_console,
}
use openblt.Console.Interpreter.{
  special_reading_ansi, scroll_lines, end_number, second_or, ansi_final, first_or,
  special_ansi_charset, char_to_virtscreen, send_char, int_limit, reach,
}
use openblt.Console.Scrolling.{delete_chars_in_line-Keeps, self-Keeps, scroll_up-Keeps}
use openblt.Console.Bounds.{
  IsScreen, Keeps, clear_virtscreen-Keeps, position_console-Keeps, clear_to_eol-Keeps,
}
use openblt.Console.Step.{
  Safe, by_test, safe, Keeps-trans, notes-Keeps, sent-Keeps, std_interpret_char-Safe,
  std_interpret_ansi-Safe,
}

scroll_lines-Keeps : (n : ℕ) (dir : Bool) (s : Screen) → IsScreen s → Keeps s (scroll_lines n dir s)
unfolding scroll_lines
scroll_lines-Keeps zero dir s v = self-Keeps s v
scroll_lines-Keeps (suc n) dir s v =
    let k = scroll_up-Keeps s v dir in
    Keeps-trans k (scroll_lines-Keeps n dir (scroll_virt_up_at_cursor dir s) k.well)

region-Keeps :
    (low high : ℕ) (s : Screen)
    → IsScreen s
    → low ≤ high
    → 0 < high
    → low ≤ s.rows
    → Keeps s (set_scroll_region low high s)
unfolding set_scroll_region
region-Keeps low high s v a b c = record {
  well = record {
    column = v.column;
    row = v.row;
    region = ground (arith, v.row, a, b, c);
    bottom = ground arith;
    numbers = v.numbers;
  };
  confined = record { rows = refl; columns = refl; outside = λ i g. refl };
}

-- The scroll region that ESC [ low ; high r asks for is not empty, and begins on the screen.
abbrev pub ProperRegion : Screen → Type 0
ProperRegion s = (0 < second_or s.rows s.elements) × (first_or 1 s.elements ≤ s.rows)

ansi_final-Keeps :
    (ch : ℕ) (s : Screen)
    → IsScreen s
    → ((ch == b'r') ≡ true → ProperRegion s)
    → Keeps s (ansi_final ch s)
unfolding ansi_final
ansi_final-Keeps ch s v r =
    let place : (y x : ℤ) (rel : Bool) → Keeps s (position_console y x rel s) =
      position_console-Keeps s v in
    by_test (Keeps s) (ch == b'D') (λ e. place _ _ true)
      (λ e.
        by_test (Keeps s) (ch == b'a' || ch == b'C') (λ e. place _ _ true)
          (λ e.
            by_test (Keeps s) (ch == b'A') (λ e. place _ _ true)
              (λ e.
                by_test (Keeps s) (ch == b'e' || ch == b'B') (λ e. place _ _ true)
                  (λ e.
                    by_test (Keeps s) (ch == b'`' || ch == b'G') (λ e. place _ _ false)
                      (λ e.
                        by_test (Keeps s) (ch == b'E') (λ e. place _ _ false)
                          (λ e.
                            by_test (Keeps s) (ch == b'F') (λ e. place _ _ false)
                              (λ e.
                                by_test (Keeps s) (ch == b'd') (λ e. place _ _ false)
                                  (λ e.
                                    by_test (Keeps s) (ch == b'f' || ch == b'H')
                                      (λ e. place _ _ false)
                                      (λ e.
                                        by_test (Keeps s) (ch == b'J')
                                          (λ e. clear_virtscreen-Keeps s v _)
                                          (λ e.
                                            by_test (Keeps s) (ch == b'L')
                                              (λ e.
                                                scroll_lines-Keeps (first_or 1 s.elements) false s
                                                  v)
                                              (λ e.
                                                by_test (Keeps s) (ch == b'M')
                                                  (λ e.
                                                    scroll_lines-Keeps (first_or 1 s.elements) true
                                                      s v)
                                                  (λ e.
                                                    by_test (Keeps s) (ch == b'P')
                                                      (λ e. delete_chars_in_line-Keeps s v _)
                                                      (λ e.
                                                        by_test (Keeps s) (ch == b'K')
                                                          (λ e. clear_to_eol-Keeps s v _)
                                                          (λ e.
                                                            by_test (Keeps s) (ch == b's')
                                                            (λ e. notes-Keeps v v.numbers)
                                                            (λ e.
                                                            by_test (Keeps s) (ch == b'u')
                                                            (λ e. place _ _ false)
                                                            (λ e.
                                                            by_test (Keeps s) (ch == b'r')
                                                            (λ e.
                                                            by_test (Keeps s)
                                                            (leb (first_or 1 s.elements)
                                                            (second_or s.rows s.elements))
                                                            (λ f.
                                                            region-Keeps _ _ s v (ground (arith, f))
                                                            (r e).0 (r e).1)
                                                            (λ f. self-Keeps s v))
                                                            (λ e.
                                                            by_test (Keeps s) (ch == b'm')
                                                            (λ e. notes-Keeps v v.numbers)
                                                            (λ e. self-Keeps s v))))))))))))))))))

end_number-Keeps : (ch : ℕ) (s : Screen) → IsScreen s → Keeps s (end_number ch s)
end_number-Keeps ch s v =
    by_test (Keeps s) (s.ansi_reading_number || ch == b';')
      (λ e.
        notes-Keeps v
          (ground (arith, v.numbers, length-append s.elements (s.cur_ansi_number ∷ []))))
      (λ e. notes-Keeps v v.numbers)

ltb_no : (m n : ℕ) → ltb m n ≡ false → n ≤ m
ltb_no m n h = ground (arith, h)

-- Where the code leaves an int: a digit that makes the number 2^31 or more, or a final character that adds the first number
-- (1 where there is none) to the column (a, C, P) or to the row (e, B, E), where the sum is 2^31 or more.
pub data Overflow (s : Screen) (ch : ℕ) : Type 0 where
  number : b'0' ≤ ch → ch ≤ b'9' → 2147483648 ≤ s.cur_ansi_number * 10 + (ch - b'0') → Overflow s ch
  column :
      (ch == b'a' || ch == b'C' || ch == b'P') ≡ true
      → 2147483648 ≤ s.xpos + first_or 1 (end_number ch s).elements
      → Overflow s ch
  row :
      (ch == b'e' || ch == b'B' || ch == b'E') ≡ true
      → 2147483648 ≤ s.ypos + first_or 1 (end_number ch s).elements
      → Overflow s ch

-- A character leads to a safe screen, or is read in a sequence and overflows.
pub data Taken (s : Screen) (ch : ℕ) : Option Screen → Type 0 where
  taken :
      {o : Option Screen}
      → (s.next_char_send ≡ Handler.special_reading_ansi → ¬ Overflow s ch)
      → Safe s o
      → Taken s ch o
  overflows : s.next_char_send ≡ Handler.special_reading_ansi → Overflow s ch → Taken s ch none

reach-Overflow : (s : Screen) (ch : ℕ) → int_limit ≤ reach ch (end_number ch s) → Overflow s ch
reach-Overflow s ch =
    by_test (λ (m : ℕ). int_limit ≤ m → Overflow s ch) (ch == b'a' || ch == b'C' || ch == b'P')
      (λ e h. column e (ground (arith, h)))
      (λ e.
        by_test (λ (m : ℕ). int_limit ≤ m → Overflow s ch) (ch == b'e' || ch == b'B' || ch == b'E')
          (λ e h. row e (ground (arith, h))) (λ e h. absurd (omega (arith, h))))

-- A digit that fits.
digit_fits :
    (s : Screen) (ch : ℕ)
    → (leb b'0' ch && leb ch b'9') ≡ true
    → ltb (s.cur_ansi_number * 10 + (ch - b'0')) int_limit ≡ true
    → ¬ Overflow s ch
digit_fits s ch d f (number l h o) = ground (arith, f, o)
digit_fits s ch d f (column c o) = ground (arith, d, c)
digit_fits s ch d f (row c o) = ground (arith, d, c)

-- A question mark or a semicolon adds nothing.
separator_fits :
    (s : Screen) (ch : ℕ)
    → (leb b'0' ch && leb ch b'9') ≡ false
    → (ch == b'?' || ch == b';') ≡ true
    → ¬ Overflow s ch
separator_fits s ch d f (number l h o) = ground (arith, d, l, h)
separator_fits s ch d f (column c o) = ground (arith, f, c)
separator_fits s ch d f (row c o) = ground (arith, f, c)

final_fits :
    (s : Screen) (ch : ℕ)
    → (leb b'0' ch && leb ch b'9') ≡ false
    → ltb (reach ch (end_number ch s)) int_limit ≡ true
    → ¬ Overflow s ch
final_fits s ch d f (number l h o) = ground (arith, d, l, h)
final_fits s ch d f (column c o) = ground (arith, rw c at f, o)
final_fits s ch d f (row c o) =
    let other : (ch == b'a' || ch == b'C' || ch == b'P') ≡ false = ground (arith, c) in
    ground (arith, rw (other, c) at f, o)

special_reading_ansi-Taken :
    (s : Screen) (ch : ℕ)
    → s.next_char_send ≡ Handler.special_reading_ansi
    → IsScreen s
    → ((ch == b'r') ≡ true → ProperRegion (end_number ch s))
    → Taken s ch (special_reading_ansi s ch)
unfolding special_reading_ansi
special_reading_ansi-Taken s ch reading v r =
    let t = end_number ch s in
    let k = end_number-Keeps ch s v in
    let n = s.cur_ansi_number * 10 + (ch - b'0') in
    by_test (Taken s ch) (leb b'0' ch && leb ch b'9')
      (λ e.
        by_test (Taken s ch) (ltb n int_limit)
          (λ f. taken (λ _. digit_fits s ch e f) (safe (notes-Keeps v v.numbers)))
          (λ f.
            overflows reading (number (ground (arith, e)) (ground (arith, e)) (ground (arith, f)))))
      (λ e.
        by_test (Taken s ch) (ch == b'?' || ch == b';')
          (λ g. taken (λ _. separator_fits s ch e g) (safe k))
          (λ g.
            by_test (Taken s ch) (ltb (reach ch t) int_limit)
              (λ f.
                taken (λ _. final_fits s ch e f)
                  (safe (sent-Keeps (Keeps-trans k (ansi_final-Keeps ch t k.well r)))))
              (λ f. overflows reading (reach-Overflow s ch (ltb_no (reach ch t) int_limit f)))))

special_ansi_charset-Keeps :
    (s : Screen) (ch : ℕ) → IsScreen s → Keeps s (special_ansi_charset s ch)
unfolding special_ansi_charset
special_ansi_charset-Keeps s ch v = sent-Keeps (self-Keeps s v)

-- What the character asks for, where it ends a sequence that sets the scroll region.
abbrev pub MayTake : Screen → ℕ → Type 0
MayTake s ch =
    s.next_char_send ≡ Handler.special_reading_ansi
    → (ch == b'r') ≡ true
    → ProperRegion (end_number ch s)

abbrev is_reading : Handler → Bool
is_reading Handler.std_interpret_char = false
is_reading Handler.std_interpret_ansi = false
is_reading Handler.special_reading_ansi = true
is_reading Handler.special_ansi_charset_0 = false
is_reading Handler.special_ansi_charset_1 = false

module _ (s : Screen) (ch : ℕ) (v : IsScreen s) (r : MayTake s ch) where
  other :
      {h : Handler}
      → s.next_char_send ≡ h
      → is_reading h ≡ false
      → s.next_char_send ≡ Handler.special_reading_ansi
      → ⊥
  other e n r = ground (arith, n, ap is_reading (sym e ∙ r))

  by_handler : (h : Handler) → s.next_char_send ≡ h → Taken s ch (send_char h s ch)
  unfolding send_char
  by_handler Handler.std_interpret_char e =
      taken (λ r. absurd (other e refl r)) (std_interpret_char-Safe s ch v)
  by_handler Handler.std_interpret_ansi e =
      taken (λ r. absurd (other e refl r)) (std_interpret_ansi-Safe s ch v)
  by_handler Handler.special_reading_ansi e = special_reading_ansi-Taken s ch e v (r e)
  by_handler Handler.special_ansi_charset_0 e =
      taken (λ r. absurd (other e refl r)) (safe (special_ansi_charset-Keeps s ch v))
  by_handler Handler.special_ansi_charset_1 e =
      taken (λ r. absurd (other e refl r)) (safe (special_ansi_charset-Keeps s ch v))

  -- A character sent to a well formed screen, which does not end a sequence for a scroll region
  -- that is empty or begins below the screen, gives a screen that is well formed, with the cursor
  -- on it, its size the same and no cell beyond it changed, or overflows an int.
  pub char_to_virtscreen-Taken : Taken s ch (char_to_virtscreen s ch)
  unfolding char_to_virtscreen
  char_to_virtscreen-Taken = by_handler s.next_char_send refl

-- On a screen with a row, after set_scroll_region with the last row 0, whatever the first row,
-- scroll_virtscreen calls memmove with a length below zero.
pub empty_region-none :
    (low : ℕ) (s : Screen) → 0 < s.rows → scroll_virtscreen (set_scroll_region low 0 s) ≡ none
unfolding scroll_virtscreen set_scroll_region
empty_region-none low s h = ground (arith, h)
