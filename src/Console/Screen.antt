-- ===== src/Console/Screen.antt =====
-- srv/console2/vt100.c, the screen: its cells, the cursor, and the operations on regions of it.
--
-- A cell is a number at an offset from `data`. The ints of `struct virtscreen` that are never negative
-- at rest are natural numbers. `none` is a memmove whose length, a difference of pointers as an
-- unsigned int, has wrapped round. Overflow of an int is not modelled.
use Prim.Native.Nat.{bit_or}
use openblt.Prelude.{
  ℕ, zero, suc, ◌+◌, ◌-◌, ◌*◌, ◌%◌, ◌==◌, Bool, false, not, ◌&&◌, Option, none, some, List, [],
  if◌then◌else◌, ltb, leb, update, ℤ, pos, ◌+ℤ◌, ltb_ℤ, pos_part,
}

-- `next_char_send`: the function that the next character goes to.
pub data Handler : Type 0 where
  std_interpret_char std_interpret_ansi special_reading_ansi : Handler
  special_ansi_charset_0 special_ansi_charset_1 : Handler

-- `elements` is `ansi_element` up to `ansi_elements`.
pub record Screen : Type 0 where
  pub rows : ℕ
  pub columns : ℕ
  pub cells : ℕ → ℕ
  pub xpos : ℕ
  pub ypos : ℕ
  pub top_scroll : ℕ
  pub bottom_scroll : ℕ
  pub attrib : ℕ
  pub old_attrib : ℕ
  pub old_xpos : ℕ
  pub old_ypos : ℕ
  pub cur_ansi_number : ℕ
  pub ansi_reading_number : Bool
  pub elements : List ℕ
  pub next_char_send : Handler

abbrev pub max_ansi_elements : ℕ
max_ansi_elements = 16

-- loc_in_virtscreen, as an offset
abbrev pub loc : Screen → ℕ → ℕ → ℕ
loc s y x = y * s.columns + x

-- A cell is an unsigned short.
abbrev pub cell : ℕ → ℕ → ℕ
cell ch attrib = bit_or ch (attrib * 256) % 65536

-- `n` rounds of *p++ = v
unfoldable pub fill : ℕ → ℕ → ℕ → (ℕ → ℕ) → ℕ → ℕ
fill zero p v c = c
fill (suc n) p v c = fill n (p + 1) v (update c p v)

-- memmove of `n` cells
abbrev pub move : ℕ → ℕ → ℕ → (ℕ → ℕ) → ℕ → ℕ
move dst src n c i = if leb dst i && ltb i (dst + n) then c (src + (i - dst)) else c i

-- `n` rounds of *p++ = *q++
unfoldable pub copy : ℕ → ℕ → ℕ → (ℕ → ℕ) → ℕ → ℕ
copy zero p q c = c
copy (suc n) p q c = copy n (p + 1) (q + 1) (update c p (c q))

unfoldable pub clear_region : ℕ → ℕ → ℕ → ℕ → ℕ → Screen → Screen
unfolding fill
clear_region y1 x1 y2 x2 atrb s = record s {
  cells = fill (loc s y2 x2 + 1 - loc s y1 x1) (loc s y1 x1) (cell 0x20 atrb) s.cells;
}

unfoldable pub clear_virtscreen : ℕ → Screen → Screen
unfolding clear_region
clear_virtscreen mode s =
    if mode == 0
    then clear_region s.ypos s.xpos (s.rows - 1) (s.columns - 1) s.attrib s
    else if mode == 1
    then clear_region 0 0 s.ypos s.xpos s.attrib s
    else let t = clear_region 0 0 (s.rows - 1) (s.columns - 1) s.attrib s in
      record t { xpos = 0; ypos = 0 }

unfoldable pub clear_to_eol : ℕ → Screen → Screen
unfolding clear_region
clear_to_eol mode s =
    if mode == 0
    then clear_region s.ypos s.xpos s.ypos (s.columns - 1) s.attrib s
    else if mode == 1
    then clear_region s.ypos 0 s.ypos s.xpos s.attrib s
    else clear_region s.ypos 0 s.ypos (s.columns - 1) s.attrib s

-- if (x < 0) x = 0; if (x >= size) x = size-1;
unfoldable pub clamp : ℤ → ℕ → ℕ
clamp x size = if ltb_ℤ x (pos 0) then 0 else if leb size (pos_part x) then size - 1 else pos_part x

-- `rel`: relative to the cursor. move_cursor, which moves the cursor of the hardware, is left out.
unfoldable pub position_console : ℤ → ℤ → Bool → Screen → Screen
unfolding clamp
position_console ypos xpos rel s = record s {
  xpos = clamp (if rel then pos s.xpos +ℤ xpos else xpos) s.columns;
  ypos = clamp (if rel then pos s.ypos +ℤ ypos else ypos) s.rows;
}

-- xpos + char_move is an int, and char_move not negative, as special_reading_ansi calls it.
unfoldable pub delete_chars_in_line : ℕ → Screen → Screen
unfolding fill copy
delete_chars_in_line char_move s =
    let clr_with = cell 0x20 s.attrib in
    let start = loc s s.ypos s.xpos in
    let n = s.columns - (s.xpos + char_move) in
    record s {
      cells =
          fill (s.columns - s.xpos - n) (start + n) clr_with
            (copy n start (loc s s.ypos (s.xpos + char_move)) s.cells);
    }

-- dir: the lines below the cursor move up; else they move down, and the cursor's line is cleared.
unfoldable pub scroll_virt_up_at_cursor : Bool → Screen → Screen
unfolding fill
scroll_virt_up_at_cursor dir s =
    if not (leb s.top_scroll s.ypos && ltb s.ypos s.bottom_scroll)
    then s
    else let clr_with = cell 0x20 s.attrib in
      let begin_scr = loc s s.ypos 0 in
      let last_line = loc s (s.bottom_scroll - 1) 0 in
      let next_line = begin_scr + s.columns in
      let n = last_line - begin_scr in
      record s {
        cells =
            if dir
            then fill s.columns last_line clr_with (move begin_scr next_line n s.cells)
            else fill s.columns begin_scr clr_with (move next_line begin_scr n s.cells);
      }

-- The length wraps round where the bottom of the scroll region is not below its top.
unfoldable pub scroll_virtscreen : Screen → Option Screen
unfolding fill
scroll_virtscreen s =
    let clr_with = cell 0x20 s.attrib in
    let begin_scr = loc s s.top_scroll 0 in
    let last_line = loc s (s.bottom_scroll - 1) 0 in
    let next_line = begin_scr + s.columns in
    if leb s.bottom_scroll s.top_scroll
    then none
    else some (record s {
      cells =
          fill s.columns last_line clr_with
            (move begin_scr next_line (last_line - begin_scr) s.cells);
    })

-- low--, which is then at least 0, and high at most `rows`
unfoldable pub set_scroll_region : ℕ → ℕ → Screen → Screen
set_scroll_region low high s = record s {
  top_scroll = low - 1;
  bottom_scroll = if leb s.rows high then s.rows else high;
}

abbrev pub change_attribute : ℕ → Screen → Screen
change_attribute attrib s = record s { attrib = attrib }

unfoldable pub change_character : ℕ → Screen → Screen
change_character ch s = record s { cells = update s.cells (loc s s.ypos s.xpos) (cell ch s.attrib) }

-- init_virtscreen, on the cells that malloc returned. The cursor of a screen whose memory was zero is
-- at the origin.
unfoldable pub init_virtscreen : ℕ → ℕ → (ℕ → ℕ) → Screen
unfolding clear_region
init_virtscreen rows columns cells = clear_region 0 0 (rows - 1) (columns - 1) 0x07 (record {
  rows = rows;
  columns = columns;
  cells = cells;
  xpos = 0;
  ypos = 0;
  top_scroll = 0;
  bottom_scroll = rows;
  attrib = 0x07;
  old_attrib = 0x07;
  old_xpos = 0;
  old_ypos = 0;
  cur_ansi_number = 0;
  ansi_reading_number = false;
  elements = [];
  next_char_send = std_interpret_char;
})
