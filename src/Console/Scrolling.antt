-- ===== src/Console/Scrolling.antt =====
-- Deleting characters and scrolling in srv/console2/vt100.c, and the bounds of the screen.
use openblt.Prelude.{
  ℕ, ◌+◌, ◌-◌, ◌*◌, ◌≤◌, ◌<◌, ◌≡◌, refl, Bool, arith, Bool-cases, inl, inr, ◌∙◌, leb, some, false,
  ◌&&◌, ltb,
}
use openblt.Console.Screen.{
  Screen, loc, fill, copy, move, delete_chars_in_line, cell, scroll_virt_up_at_cursor,
  scroll_virtscreen,
}
use openblt.Console.Bounds.{
  IsScreen, Keeps, fill_above, copy_above, move_above, row_end, row_span, with_cells, same_cells,
  part, last_column,
}

module _ (s : Screen) (v : IsScreen s) where
  line_above :
      (n p q c : ℕ) (f : ℕ → ℕ) (w i : ℕ)
      → p + w ≤ s.rows * s.columns
      → n ≤ w
      → s.rows * s.columns ≤ i
      → fill (w - n) (p + n) c (copy n p q f) i ≡ f i
  line_above n p q c f w i h l g =
      fill_above (w - n) (p + n) c (copy n p q f) i (omega (arith, h, l, g))
      ∙ copy_above n p q f i (omega (arith, h, l, g))

  pub delete_chars_in_line-Keeps : (n : ℕ) → Keeps s (delete_chars_in_line n s)
  unfolding delete_chars_in_line
  delete_chars_in_line-Keeps n = record {
    well = with_cells s _ v;
    confined = record {
      rows = refl;
      columns = refl;
      outside = λ i h.
          line_above (s.columns - (s.xpos + n)) (loc s s.ypos s.xpos) (loc s s.ypos (s.xpos + n))
            (cell 0x20 s.attrib) s.cells (s.columns - s.xpos) i
            (ground (arith, part s v s.ypos (s.columns - 1) v.row (last_column s v), v.column))
            (omega arith) h;
    };
  }

  -- A row of the scroll region, and the last of them.
  scrolled_above :
      (dst src n p c : ℕ) (i : ℕ)
      → dst + n ≤ s.rows * s.columns
      → p + s.columns ≤ s.rows * s.columns
      → s.rows * s.columns ≤ i
      → fill s.columns p c (move dst src n s.cells) i ≡ s.cells i
  scrolled_above dst src n p c i a b h =
      fill_above s.columns p c (move dst src n s.cells) i (omega (arith, b, h))
      ∙ move_above dst src n s.cells i (omega (arith, a, h))

  region_order : s.ypos < s.bottom_scroll → s.ypos * s.columns ≤ (s.bottom_scroll - 1) * s.columns
  region_order h = row_end s.ypos (s.bottom_scroll - 1) s.columns (omega arith)

  last_line_fits : (s.bottom_scroll - 1) * s.columns + s.columns ≤ s.rows * s.columns
  last_line_fits =
      row_span (s.bottom_scroll - 1) s.rows s.columns (omega (arith, v.bottom, v.region))

  cells-Keeps :
      (c : ℕ → ℕ)
      → ((i : ℕ) → s.rows * s.columns ≤ i → c i ≡ s.cells i)
      → Keeps s (record s { cells = c })
  cells-Keeps c h = record {
    well = with_cells s c v;
    confined = record { rows = refl; columns = refl; outside = h };
  }

  pub self-Keeps : Keeps s s
  self-Keeps = record { well = v; confined = same_cells s }

  -- A full row of the screen.
  fits : s.ypos * s.columns + s.columns ≤ s.rows * s.columns
  fits = row_span s.ypos s.rows s.columns v.row

  pub scroll_up-Keeps : (dir : Bool) → Keeps s (scroll_virt_up_at_cursor dir s)
  unfolding scroll_virt_up_at_cursor
  scroll_up-Keeps dir = elim (Bool-cases (leb s.top_scroll s.ypos && ltb s.ypos s.bottom_scroll)) [
    | inr out ↦ rw out self-Keeps
    | inl inside ↦
        let order = region_order (ground (arith, inside)) in
        let begin_scr = loc s s.ypos 0 in
        let last_line = loc s (s.bottom_scroll - 1) 0 in
        let next_line = begin_scr + s.columns in
        let n = last_line - begin_scr in
        elim (Bool-cases dir) [
          | inl d ↦
              rw (inside, d)
                (cells-Keeps _ (λ i h.
                  scrolled_above begin_scr next_line n last_line (cell 0x20 s.attrib) i
                    (omega (arith, order, last_line_fits)) (omega (arith, last_line_fits)) h))
          | inr d ↦
              rw (inside, d)
                (cells-Keeps _ (λ i h.
                  scrolled_above next_line begin_scr n begin_scr (cell 0x20 s.attrib) i
                    (omega (arith, order, last_line_fits)) (omega (arith, fits)) h))
        ]
  ]

  pub scroll_virtscreen-Keeps : (t : Screen) × (scroll_virtscreen s ≡ some t) × Keeps s t
  unfolding scroll_virtscreen
  scroll_virtscreen-Keeps =
      let order = row_end s.top_scroll (s.bottom_scroll - 1) s.columns (omega (arith, v.region)) in
      let begin_scr = loc s s.top_scroll 0 in
      let last_line = loc s (s.bottom_scroll - 1) 0 in
      let next_line = begin_scr + s.columns in
      let n = last_line - begin_scr in
      let proper : leb s.bottom_scroll s.top_scroll ≡ false = ground (arith, v.region) in
      (
        record s {
          cells =
              fill s.columns last_line (cell 0x20 s.attrib) (move begin_scr next_line n s.cells);
        },
        rw proper,
        cells-Keeps _ (λ i h.
            scrolled_above begin_scr next_line n last_line (cell 0x20 s.attrib) i
              (omega (arith, order, last_line_fits)) (omega (arith, last_line_fits)) h),
      )
