-- ===== src/Console/Interpreter.antt =====
-- srv/console2/vt100.c, the interpreter: what each character does, by the state of the escape sequence.
use mathlib.Core.Option
use Prim.Native.Nat.{bit_and, bit_or}
use openblt.Prelude.{
  ℕ, zero, suc, ◌+◌, ◌-◌, ◌*◌, ◌%◌, ◌==◌, Bool, true, false, ◌&&◌, ◌||◌, Option, none, some, List,
  [], ◌∷◌, ◌++◌, if◌then◌else◌, ltb, leb, length, ℤ, pos, ◌-ℤ◌,
}
use openblt.Console.Screen.{
  Screen, Handler, max_ansi_elements, clear_virtscreen, clear_to_eol, position_console,
  delete_chars_in_line, scroll_virt_up_at_cursor, scroll_virtscreen, set_scroll_region,
  change_attribute, change_character,
}

abbrev pub send_next : Handler → Screen → Screen
send_next h s = record s { next_char_send = h }

abbrev pub at_row : ℕ → Screen → Screen
at_row y s = record s { ypos = y }

abbrev pub at_column : ℕ → Screen → Screen
at_column x s = record s { xpos = x }

-- ypos++; if (ypos >= bottom_scroll) { scroll_virtscreen; ypos--; }
abbrev pub index_down : Screen → Option Screen
index_down s =
    if leb s.bottom_scroll (s.ypos + 1)
    then Option.map (at_row s.ypos) (scroll_virtscreen (at_row (s.ypos + 1) s))
    else some (at_row (s.ypos + 1) s)

-- ypos--; if (ypos < top_scroll) { ypos++; scroll_virt_up_at_cursor(0); }
abbrev pub index_up : Screen → Screen
index_up s =
    if ltb s.ypos (s.top_scroll + 1)
    then scroll_virt_up_at_cursor false s
    else at_row (s.ypos - 1) s

unfoldable pub std_interpret_ansi : Screen → ℕ → Option Screen
std_interpret_ansi s ch =
    if ch == b'('
    then some (send_next Handler.special_ansi_charset_0 s)
    else if ch == b')'
    then some (send_next Handler.special_ansi_charset_1 s)
    else if ch == b'['
    then some (record s {
      cur_ansi_number = 0;
      elements = [];
      ansi_reading_number = false;
      next_char_send = Handler.special_reading_ansi;
    })
    else let done =
        send_next (if ch == 27 then Handler.std_interpret_ansi else Handler.std_interpret_char) in
      if ch == b'7'
      then some (done (record s { old_attrib = s.attrib; old_xpos = s.xpos; old_ypos = s.ypos }))
      else if ch == b'8'
      then some (
          done (position_console (pos s.ypos) (pos s.xpos) false (change_attribute s.old_attrib s)))
      else if ch == b'E'
      then Option.map done (index_down (at_column 0 s))
      else if ch == b'D'
      then Option.map done (index_down s)
      else if ch == b'M'
      then some (done (index_up s))
      else some (done s)

-- The line feed: at the bottom of the scroll region it scrolls, and below it stays where it is.
abbrev pub line_feed : Screen → Option Screen
line_feed s =
    if leb s.bottom_scroll (s.ypos + 1)
    then if s.ypos + 1 == s.bottom_scroll
      then Option.map (at_row s.ypos) (scroll_virtscreen (at_row (s.ypos + 1) s))
      else some s
    else some (at_row (s.ypos + 1) s)

-- With STRICT_VT100 the cursor stays in the last column.
abbrev pub put_character : Screen → ℕ → Screen
put_character s ch =
    let t = change_character ch s in
    if leb t.columns (t.xpos + 1) then at_column (t.columns - 1) t else at_column (t.xpos + 1) t

unfoldable pub std_interpret_char : Screen → ℕ → Option Screen
std_interpret_char s ch =
    if ch == 27
    then some (send_next Handler.std_interpret_ansi s)
    else if ch == 12
    then some (clear_virtscreen 2 s)
    else if ch == 13
    then some (at_column 0 s)
    else if ch == 10
    then Option.map (at_column 0) (line_feed s)
    else if ch == 9
    then some (position_console (pos s.ypos) (pos (s.xpos + (8 - s.xpos % 8))) false s)
    else if ch == 8
    then some (at_column (if s.xpos == 0 then s.columns - 1 else s.xpos - 1) s)
    else if ch == 0
    then some s
    else some (put_character s ch)

-- while (lines>0) { scroll_virt_up_at_cursor; lines--; }
unfoldable pub scroll_lines : ℕ → Bool → Screen → Screen
scroll_lines zero dir s = s
scroll_lines (suc lines) dir s = scroll_lines lines dir (scroll_virt_up_at_cursor dir s)

-- One number of ESC [ ... m, as an attribute.
unfoldable pub rendition : ℕ → ℕ → ℕ
rendition cthing attrib =
    if cthing == 0 || cthing == 27
    then 0x07
    else if cthing == 1
    then bit_or attrib 0x08
    else if cthing == 5
    then bit_or attrib 0x80
    else if cthing == 7
    then 0x70
    else if cthing == 21 || cthing == 22
    then bit_and attrib 0xf7
    else if cthing == 25
    then bit_and attrib 0x7f
    else if leb 30 cthing && leb cthing 37
    then bit_or (bit_and attrib 0xf8) (cthing - 30)
    else if leb 40 cthing && leb cthing 47
    then bit_or (bit_and attrib 0x8f) ((cthing - 40) * 16)
    else attrib

unfoldable pub renditions : List ℕ → ℕ → ℕ
unfolding rendition
renditions [] attrib = attrib
renditions (c ∷ cs) attrib = renditions cs (rendition c attrib)

-- The first and the second number of the sequence, or what stands for a missing one.
abbrev pub first_or : ℕ → List ℕ → ℕ
first_or d [] = d
first_or d (n ∷ ns) = n

abbrev pub second_or : ℕ → List ℕ → ℕ
second_or d [] = d
second_or d (n ∷ ns) = first_or d ns

abbrev pub negative : ℕ → ℤ
negative n = pos 0 -ℤ pos n

abbrev pub has_elements : List ℕ → Bool
has_elements [] = false
has_elements (n ∷ ns) = true

-- The final character of a sequence acts on the screen.
unfoldable pub ansi_final : ℕ → Screen → Screen
unfolding scroll_lines renditions
ansi_final ch s =
    let n = first_or 1 s.elements in
    if ch == b'D'
    then position_console (pos 0) (negative n) true s
    else if ch == b'a' || ch == b'C'
    then position_console (pos 0) (pos n) true s
    else if ch == b'A'
    then position_console (negative n) (pos 0) true s
    else if ch == b'e' || ch == b'B'
    then position_console (pos n) (pos 0) true s
    else if ch == b'`' || ch == b'G'
    then position_console (pos s.ypos) (pos (n - 1)) false s
    else if ch == b'E'
    then position_console (pos (s.ypos + n)) (pos 0) false s
    else if ch == b'F'
    then position_console (pos s.ypos -ℤ pos n) (pos 0) false s
    else if ch == b'd'
    then position_console (pos (n - 1)) (pos s.xpos) false s
    else if ch == b'f' || ch == b'H'
    then position_console (pos (n - 1)) (pos (second_or 1 s.elements - 1)) false s
    else if ch == b'J'
    then clear_virtscreen (first_or 0 s.elements) s
    else if ch == b'L'
    then scroll_lines n false s
    else if ch == b'M'
    then scroll_lines n true s
    else if ch == b'P'
    then delete_chars_in_line n s
    else if ch == b'K'
    then clear_to_eol (first_or 0 s.elements) s
    else if ch == b's'
    then record s { old_xpos = s.xpos; old_ypos = s.ypos }
    else if ch == b'u'
    then position_console (pos s.old_ypos) (pos s.old_xpos) false s
    else if ch == b'r'
    then if leb n (second_or s.rows s.elements)
      then set_scroll_region n (second_or s.rows s.elements) s
      else s
    else if ch == b'm'
    then change_attribute
        (renditions s.elements (if has_elements s.elements then s.attrib else 0x07)) s
    else s

-- if ((cur->ansi_reading_number) || (ch == ';')) ... cur_ansi_number = 0
abbrev pub end_number : ℕ → Screen → Screen
end_number ch s =
    if s.ansi_reading_number || ch == b';'
    then record s {
      elements =
          if ltb (length s.elements) max_ansi_elements
          then s.elements ++ s.cur_ansi_number ∷ []
          else s.elements;
      ansi_reading_number = false;
      cur_ansi_number = 0;
    }
    else record s { cur_ansi_number = 0 }

-- 2^31, which an int stays below.
abbrev pub int_limit : ℕ
int_limit = 2147483648

-- What the code adds to the column or to the row for a final character.
abbrev pub reach : ℕ → Screen → ℕ
reach ch s =
    let n = first_or 1 s.elements in
    if ch == b'a' || ch == b'C' || ch == b'P'
    then s.xpos + n
    else if ch == b'e' || ch == b'B' || ch == b'E'
    then s.ypos + n
    else 0

-- The number with one more digit; `none` says that it leaves int.
abbrev pub read_digit : ℕ → Screen → Option Screen
read_digit n s =
    if ltb n int_limit
    then some (record s { cur_ansi_number = n; ansi_reading_number = true })
    else none

-- `none`: a number, or its sum with the column or the row, leaves int.
unfoldable pub special_reading_ansi : Screen → ℕ → Option Screen
unfolding ansi_final
special_reading_ansi s ch =
    if leb b'0' ch && leb ch b'9'
    then read_digit (s.cur_ansi_number * 10 + (ch - b'0')) s
    else let t = end_number ch s in
      if ch == b'?' || ch == b';'
      then some t
      else if ltb (reach ch t) int_limit
      then some (send_next Handler.std_interpret_char (ansi_final ch t))
      else none

-- special_ansi_charset_0 and special_ansi_charset_1 swallow the character.
unfoldable pub special_ansi_charset : Screen → ℕ → Screen
special_ansi_charset s ch = send_next Handler.std_interpret_char s

-- The function that `next_char_send` names.
unfoldable pub send_char : Handler → Screen → ℕ → Option Screen
unfolding std_interpret_char std_interpret_ansi special_reading_ansi special_ansi_charset
send_char Handler.std_interpret_char s ch = std_interpret_char s ch
send_char Handler.std_interpret_ansi s ch = std_interpret_ansi s ch
send_char Handler.special_reading_ansi s ch = special_reading_ansi s ch
send_char Handler.special_ansi_charset_0 s ch = some (special_ansi_charset s ch)
send_char Handler.special_ansi_charset_1 s ch = some (special_ansi_charset s ch)

unfoldable pub char_to_virtscreen : Screen → ℕ → Option Screen
unfolding send_char
char_to_virtscreen s ch = send_char s.next_char_send s ch

-- The characters of a text, in their order.
unfoldable pub write_text : Screen → List ℕ → Option Screen
write_text s [] = some s
write_text s (ch ∷ chs) = elim (char_to_virtscreen s ch) [ none ↦ none | some t ↦ write_text t chs ]
