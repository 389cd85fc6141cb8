-- ===== src/Console/Bounds.antt =====
-- The bounds of the screen of srv/console2/vt100.c, and of the operations that clear it or move the cursor.
use openblt.Prelude.{
  ℕ, zero, suc, ◌+◌, ◌-◌, ◌*◌, ◌≤◌, ◌<◌, ◌==◌, ◌≡◌, refl, Bool, update, length, ℤ, arith,
  Bool-cases, inl, inr, if◌then◌else◌, pos, ◌+ℤ◌,
}
use openblt.Console.Screen.{
  Screen, loc, max_ansi_elements, fill, copy, move, clear_region, clear_virtscreen, clear_to_eol,
  clamp, position_console, change_character, cell, init_virtscreen,
}

-- The cursor is on the screen, the scroll region is a range of its rows, and the numbers of a sequence
-- fit their array.
pub record IsScreen (s : Screen) : Type 0 where
  pub column : s.xpos < s.columns
  pub row : s.ypos < s.rows
  pub region : s.top_scroll < s.bottom_scroll
  pub bottom : s.bottom_scroll ≤ s.rows
  pub numbers : length s.elements ≤ max_ansi_elements

-- Only cells of the screen differ, and its size is the same.
pub record Confined (s t : Screen) : Type 0 where
  pub rows : t.rows ≡ s.rows
  pub columns : t.columns ≡ s.columns
  pub outside : (i : ℕ) → s.rows * s.columns ≤ i → t.cells i ≡ s.cells i

pub record Keeps (s t : Screen) : Type 0 where
  pub well : IsScreen t
  pub confined : Confined s t

pub fill_above : (n p v : ℕ) (c : ℕ → ℕ) (i : ℕ) → p + n ≤ i → fill n p v c i ≡ c i
unfolding fill
fill_above zero p v c i h = refl
fill_above (suc n) p v c i h = ground (arith, fill_above n (p + 1) v (update c p v) i (omega arith))

pub copy_above : (n p q : ℕ) (c : ℕ → ℕ) (i : ℕ) → p + n ≤ i → copy n p q c i ≡ c i
unfolding copy
copy_above zero p q c i h = refl
copy_above (suc n) p q c i h =
    ground (arith, copy_above n (p + 1) (q + 1) (update c p (c q)) i (omega arith))

pub move_above : (p q n : ℕ) (c : ℕ → ℕ) (i : ℕ) → p + n ≤ i → move p q n c i ≡ c i
move_above p q n c i h = ground arith

-- A cell in a row and a column of the screen.
pub in_screen : (y x h w : ℕ) → y < h → x < w → y * w + x + 1 ≤ h * w
in_screen y x h w p q = grind arith

pub row_end : (y h w : ℕ) → y ≤ h → y * w ≤ h * w
row_end y h w p = grind arith

pub row_span : (y h w : ℕ) → y < h → y * w + w ≤ h * w
row_span y h w p = grind arith

pub with_cells : (s : Screen) (c : ℕ → ℕ) → IsScreen s → IsScreen (record s { cells = c })
with_cells s c v = record {
  column = v.column;
  row = v.row;
  region = v.region;
  bottom = v.bottom;
  numbers = v.numbers;
}

pub same_cells : (s : Screen) → Confined s s
same_cells s = record { rows = refl; columns = refl; outside = λ i h. refl }

pub clear_region-Keeps :
    (y1 x1 y2 x2 atrb : ℕ) (s : Screen)
    → IsScreen s
    → y2 < s.rows
    → x2 < s.columns
    → y1 * s.columns + x1 ≤ y2 * s.columns + x2 + 1
    → Keeps s (clear_region y1 x1 y2 x2 atrb s)
unfolding clear_region
clear_region-Keeps y1 x1 y2 x2 atrb s v py px order = record {
  well = with_cells s _ v;
  confined = record {
    rows = refl;
    columns = refl;
    outside = λ i h.
        fill_above (loc s y2 x2 + 1 - loc s y1 x1) (loc s y1 x1) (cell 0x20 atrb) s.cells i
          (omega (arith, in_screen y2 x2 s.rows s.columns py px, order, h));
  };
}

module _ (s : Screen) (v : IsScreen s) where
  -- Any part of the screen up to a cell of it.
  pub part : (y x : ℕ) → y < s.rows → x < s.columns → loc s y x + 1 ≤ s.rows * s.columns
  part y x = in_screen y x s.rows s.columns

  pub last_row : s.rows - 1 < s.rows
  last_row = ground (arith, v.row)

  pub last_column : s.columns - 1 < s.columns
  last_column = ground (arith, v.column)

  from_cursor : s.ypos * s.columns + s.xpos ≤ (s.rows - 1) * s.columns + (s.columns - 1) + 1
  from_cursor =
      let below = row_end s.ypos (s.rows - 1) s.columns (ground (arith, v.row)) in
      ground (arith, below, v.column)

  homed-Keeps : (t : Screen) → Keeps s t → Keeps s (record t { xpos = 0; ypos = 0 })
  homed-Keeps t k = record {
    well = record {
      column = ground (arith, k.well.column);
      row = ground (arith, k.well.row);
      region = k.well.region;
      bottom = k.well.bottom;
      numbers = k.well.numbers;
    };
    confined = record {
      rows = k.confined.rows;
      columns = k.confined.columns;
      outside = k.confined.outside;
    };
  }

  pub clear_virtscreen-Keeps : (mode : ℕ) → Keeps s (clear_virtscreen mode s)
  unfolding clear_virtscreen
  clear_virtscreen-Keeps mode = elim (Bool-cases (mode == 0)) [
    | inl a ↦ rw a (
        clear_region-Keeps s.ypos s.xpos (s.rows - 1) (s.columns - 1) s.attrib s v last_row
          last_column from_cursor)
    | inr a ↦ elim (Bool-cases (mode == 1)) [
      | inl b ↦
          rw (a, b)
            (clear_region-Keeps 0 0 s.ypos s.xpos s.attrib s v v.row v.column (ground arith))
      | inr b ↦
          rw (a, b)
            (homed-Keeps _ (
              clear_region-Keeps 0 0 (s.rows - 1) (s.columns - 1) s.attrib s v last_row last_column
                (ground arith)))
    ]
  ]

  pub clear_to_eol-Keeps : (mode : ℕ) → Keeps s (clear_to_eol mode s)
  unfolding clear_to_eol
  clear_to_eol-Keeps mode = elim (Bool-cases (mode == 0)) [
    | inl a ↦ rw a (
        clear_region-Keeps s.ypos s.xpos s.ypos (s.columns - 1) s.attrib s v v.row last_column
          (ground (arith, v.column)))
    | inr a ↦ elim (Bool-cases (mode == 1)) [
      | inl b ↦
          rw (a, b)
            (clear_region-Keeps s.ypos 0 s.ypos s.xpos s.attrib s v v.row v.column (ground arith))
      | inr b ↦
          rw (a, b)
            (clear_region-Keeps s.ypos 0 s.ypos (s.columns - 1) s.attrib s v v.row last_column
              (ground arith))
    ]
  ]

  clamp-lt : (x : ℤ) (size : ℕ) → 0 < size → clamp x size < size
  unfolding clamp
  clamp-lt x size h = ground arith

  pub position_console-Keeps : (y x : ℤ) (rel : Bool) → Keeps s (position_console y x rel s)
  unfolding position_console
  position_console-Keeps y x rel = record {
    well = record {
      column = clamp-lt (if rel then pos s.xpos +ℤ x else x) s.columns (omega arith);
      row = clamp-lt (if rel then pos s.ypos +ℤ y else y) s.rows (omega arith);
      region = v.region;
      bottom = v.bottom;
      numbers = v.numbers;
    };
    confined = record { rows = refl; columns = refl; outside = λ i h. refl };
  }

  pub change_character-Keeps : (ch : ℕ) → Keeps s (change_character ch s)
  unfolding change_character
  change_character-Keeps ch = record {
    well = with_cells s _ v;
    confined = record {
      rows = refl;
      columns = refl;
      outside = λ i h. ground (arith, part s.ypos s.xpos v.row v.column, h);
    };
  }

-- A new screen is well formed.
pub init_virtscreen-IsScreen :
    (rows columns : ℕ) (cells : ℕ → ℕ)
    → 0 < rows
    → 0 < columns
    → IsScreen (init_virtscreen rows columns cells)
unfolding init_virtscreen clear_region
init_virtscreen-IsScreen rows columns cells h w = record {
  column = w;
  row = h;
  region = h;
  bottom = omega arith;
  numbers = omega arith;
}
