-- ===== src/Console/Step.antt =====
-- A character of srv/console2/vt100.c outside a sequence, and the one that follows an escape.
use mathlib.Core.Option
use openblt.Prelude.{
  ℕ, ◌+◌, ◌-◌, ◌≤◌, ◌<◌, ◌≡◌, refl, Bool, true, false, Option, some, List, if◌then◌else◌, leb,
  length, arith, Bool-cases, inl, inr, ◌∙◌, ◌==◌, pos, ltb,
}
use openblt.Console.Screen.{
  Screen, Handler, max_ansi_elements, scroll_virtscreen, change_character, change_attribute,
}
use openblt.Console.Interpreter.{
  send_next, at_row, at_column, index_down, index_up, line_feed, put_character, std_interpret_char,
  std_interpret_ansi,
}
use openblt.Console.Scrolling.{self-Keeps, scroll_up-Keeps, scroll_virtscreen-Keeps}
use openblt.Console.Bounds.{
  IsScreen, Keeps, clear_virtscreen-Keeps, position_console-Keeps, change_character-Keeps,
}

-- A step that ends, on the screen.
pub record Safe (s : Screen) (o : Option Screen) : Type 0 where
  pub after : Screen
  pub ends : o ≡ some after
  pub keeps : Keeps s after

pub by_test :
    {A : Type 0} (P : A → Type 0) (b : Bool) {x y : A}
    → (b ≡ true → P x)
    → (b ≡ false → P y)
    → P (if b then x else y)
by_test P b {x} {y} p q = elim (Bool-cases b) [ inl e ↦ rw e (p e) | inr e ↦ rw e (q e) ]

pub safe : {s t : Screen} → Keeps s t → Safe s (some t)
safe {s} {t} k = record { after = t; ends = refl; keeps = k }

pub Keeps-trans : {s t u : Screen} → Keeps s t → Keeps t u → Keeps s u
Keeps-trans {s} {t} {u} k l = record {
  well = l.well;
  confined = record {
    rows = l.confined.rows ∙ k.confined.rows;
    columns = l.confined.columns ∙ k.confined.columns;
    outside = λ i h.
        l.confined.outside i (rw (k.confined.rows, k.confined.columns) h) ∙ k.confined.outside i h;
  };
}

-- What is neither a cell nor the cursor nor the region.
pub notes-Keeps :
    {s : Screen} {a oa ox oy n : ℕ} {r : Bool} {es : List ℕ} {h : Handler}
    → IsScreen s
    → length es ≤ max_ansi_elements
    → Keeps s (record s {
      attrib = a;
      old_attrib = oa;
      old_xpos = ox;
      old_ypos = oy;
      cur_ansi_number = n;
      ansi_reading_number = r;
      elements = es;
      next_char_send = h;
    })
notes-Keeps v e = record {
  well = record {
    column = v.column;
    row = v.row;
    region = v.region;
    bottom = v.bottom;
    numbers = e;
  };
  confined = record { rows = refl; columns = refl; outside = λ i h. refl };
}

pub sent-Keeps : {s t : Screen} {h : Handler} → Keeps s t → Keeps s (send_next h t)
sent-Keeps k = Keeps-trans k (notes-Keeps k.well k.well.numbers)

row-Keeps : {s : Screen} (y : ℕ) → IsScreen s → y < s.rows → Keeps s (at_row y s)
row-Keeps y v h = record {
  well = record {
    column = v.column;
    row = h;
    region = v.region;
    bottom = v.bottom;
    numbers = v.numbers;
  };
  confined = record { rows = refl; columns = refl; outside = λ i g. refl };
}

column-Keeps : {s : Screen} (x : ℕ) → IsScreen s → x < s.columns → Keeps s (at_column x s)
column-Keeps x v h = record {
  well = record {
    column = h;
    row = v.row;
    region = v.region;
    bottom = v.bottom;
    numbers = v.numbers;
  };
  confined = record { rows = refl; columns = refl; outside = λ i g. refl };
}

pub map-Safe :
    {s : Screen} {o : Option Screen} (f : Screen → Screen)
    → ((t : Screen) → Keeps s t → Keeps s (f t))
    → Safe s o
    → Safe s (Option.map f o)
map-Safe f g r = rw r.ends (safe (g r.after r.keeps))

-- scroll_virtscreen does not read the cursor, so it may be called with the cursor below the screen.
scrolled_there :
    (s : Screen) (y : ℕ)
    → IsScreen s
    → Option.map (at_row s.ypos) (scroll_virtscreen (at_row y s)) ≡ scroll_virtscreen s
unfolding scroll_virtscreen
scrolled_there s y v =
    let proper : leb s.bottom_scroll s.top_scroll ≡ false = ground (arith, v.region) in rw proper

scrolled-Safe :
    (s : Screen) (y : ℕ)
    → IsScreen s
    → Safe s (Option.map (at_row s.ypos) (scroll_virtscreen (at_row y s)))
scrolled-Safe s y v =
    let (t, e, k) = scroll_virtscreen-Keeps s v in
    record { after = t; ends = scrolled_there s y v ∙ e; keeps = k }

down-Safe :
    (s : Screen) → IsScreen s → s.ypos + 1 < s.bottom_scroll → Safe s (some (at_row (s.ypos + 1) s))
down-Safe s v h = safe (row-Keeps (s.ypos + 1) v (omega (arith, h, v.bottom)))

index_down-Safe : (s : Screen) → IsScreen s → Safe s (index_down s)
index_down-Safe s v =
    by_test (Safe s) (leb s.bottom_scroll (s.ypos + 1)) (λ e. scrolled-Safe s (s.ypos + 1) v)
      (λ e. down-Safe s v (ground (arith, e)))

at_left-Safe : (s : Screen) → IsScreen s → Safe s (index_down (at_column 0 s))
at_left-Safe s v =
    let k = column-Keeps 0 v (ground (arith, v.column)) in
    let r = index_down-Safe (at_column 0 s) k.well in
    record { after = r.after; ends = r.ends; keeps = Keeps-trans k r.keeps }

line_feed-Safe : (s : Screen) → IsScreen s → Safe s (line_feed s)
line_feed-Safe s v =
    by_test (Safe s) (leb s.bottom_scroll (s.ypos + 1))
      (λ e.
        by_test (Safe s) (s.ypos + 1 == s.bottom_scroll) (λ f. scrolled-Safe s (s.ypos + 1) v)
          (λ f. safe (self-Keeps s v)))
      (λ e. down-Safe s v (ground (arith, e)))

index_up-Keeps : (s : Screen) → IsScreen s → Keeps s (index_up s)
index_up-Keeps s v =
    by_test (Keeps s) (ltb s.ypos (s.top_scroll + 1)) (λ e. scroll_up-Keeps s v false)
      (λ e. row-Keeps (s.ypos - 1) v (ground (arith, v.row)))

put_character-Keeps : (s : Screen) (ch : ℕ) → IsScreen s → Keeps s (put_character s ch)
put_character-Keeps s ch v =
    let k = change_character-Keeps s v ch in
    Keeps-trans k (
      by_test (Keeps (change_character ch s))
        (leb (change_character ch s).columns ((change_character ch s).xpos + 1))
        (λ e.
          column-Keeps ((change_character ch s).columns - 1) k.well (ground (arith, k.well.column)))
        (λ e. column-Keeps ((change_character ch s).xpos + 1) k.well (ground (arith, e))))

pub std_interpret_char-Safe : (s : Screen) (ch : ℕ) → IsScreen s → Safe s (std_interpret_char s ch)
unfolding std_interpret_char
std_interpret_char-Safe s ch v =
    by_test (Safe s) (ch == 27) (λ e. safe (sent-Keeps (self-Keeps s v)))
      (λ e.
        by_test (Safe s) (ch == 12) (λ e. safe (clear_virtscreen-Keeps s v 2))
          (λ e.
            by_test (Safe s) (ch == 13) (λ e. safe (column-Keeps 0 v (ground (arith, v.column))))
              (λ e.
                by_test (Safe s) (ch == 10)
                  (λ e.
                    map-Safe (at_column 0)
                      (λ t k. Keeps-trans k (column-Keeps 0 k.well (ground (arith, k.well.column))))
                      (line_feed-Safe s v))
                  (λ e.
                    by_test (Safe s) (ch == 9) (λ e. safe (position_console-Keeps s v _ _ false))
                      (λ e.
                        by_test (Safe s) (ch == 8)
                          (λ e. safe (
                            column-Keeps (if s.xpos == 0 then s.columns - 1 else s.xpos - 1) v
                              (ground (arith, v.column))))
                          (λ e.
                            by_test (Safe s) (ch == 0) (λ e. safe (self-Keeps s v))
                              (λ e. safe (put_character-Keeps s ch v))))))))

pub std_interpret_ansi-Safe : (s : Screen) (ch : ℕ) → IsScreen s → Safe s (std_interpret_ansi s ch)
unfolding std_interpret_ansi
std_interpret_ansi-Safe s ch v =
    let done =
      send_next (if ch == 27 then Handler.std_interpret_ansi else Handler.std_interpret_char) in
    let sent : (t : Screen) → Keeps s t → Keeps s (done t) = λ t k. sent-Keeps k in
    by_test (Safe s) (ch == b'(') (λ e. safe (sent-Keeps (self-Keeps s v)))
      (λ e.
        by_test (Safe s) (ch == b')') (λ e. safe (sent-Keeps (self-Keeps s v)))
          (λ e.
            by_test (Safe s) (ch == b'[') (λ e. safe (notes-Keeps v (ground arith)))
              (λ e.
                by_test (Safe s) (ch == b'7') (λ e. safe (notes-Keeps v v.numbers))
                  (λ e.
                    by_test (Safe s) (ch == b'8')
                      (λ e. safe (
                        sent-Keeps (
                          Keeps-trans (notes-Keeps v v.numbers) (
                            position_console-Keeps (change_attribute s.old_attrib s)
                              (notes-Keeps v v.numbers).well (pos s.ypos) (pos s.xpos) false))))
                      (λ e.
                        by_test (Safe s) (ch == b'E') (λ e. map-Safe _ sent (at_left-Safe s v))
                          (λ e.
                            by_test (Safe s) (ch == b'D')
                              (λ e. map-Safe _ sent (index_down-Safe s v))
                              (λ e.
                                by_test (Safe s) (ch == b'M')
                                  (λ e. safe (sent _ (index_up-Keeps s v)))
                                  (λ e. safe (sent-Keeps (self-Keeps s v))))))))))
