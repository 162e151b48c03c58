-- ===== src/Vga/Screen.antt =====
-- The cursor stays on the screen, and what is written stays off the status bar.
use native.Mathlib.Nat.{mul_comm, mul-le-mul_left, mul-add, mul-one}
use lboot.Base.{
  ℕ, zero, suc, ◌+◌, ◌-◌, ◌*◌, ◌≤◌, ◌<◌, ◌≡◌, ◌∙◌, ap, ap₂, sym, refl, List, [], ◌∷◌, ◌++◌, ◌==◌,
  leb, take, drop, set, replicate, length, arith, Bool-cases, inl, inr, length-set, length-append,
  length-take, length-drop, length-replicate, drop_past,
}
use lboot.Vga.{Vga, vchar, place_char, scroll, advance, wrap_row, wrap_screen, putchar, write}

-- A screen of at least one cell, and less than 255 either way, whose cursor is on it.
pub record IsValid (s : Vga) : Type 0 where
  pub wide : s.pos_x < s.res_x
  pub high : s.pos_y < s.res_y
  pub narrow : s.res_x < 255
  pub low : s.res_y < 255
  pub cells : s.res_x * s.res_y ≤ length s.vidmem

-- The cells after those of the screen.
abbrev pub bar : Vga → List ℕ
bar s = drop (s.res_x * s.res_y) s.vidmem

-- A step keeps the size of the screen and of the memory, and the cells after those of the screen.
pub record Keeps (s t : Vga) : Type 0 where
  pub res_x : t.res_x ≡ s.res_x
  pub res_y : t.res_y ≡ s.res_y
  pub size : length t.vidmem ≡ length s.vidmem
  pub off_screen : bar t ≡ bar s

drop-set : (xs : List ℕ) (n i v : ℕ) → i < n → drop n (set xs i v) ≡ drop n xs
drop-set xs zero i v h = absurd (omega arith)
drop-set [] (suc n) i v h = refl
drop-set (x ∷ xs) (suc n) zero v h = refl
drop-set (x ∷ xs) (suc n) (suc i) v h = drop-set xs n i v (omega arith)

on_screen : (x y w h : ℕ) → x < w → y < h → y * w + x < w * h
on_screen x y w h lx ly =
    let rows = mul-le-mul_left w (ly) in omega (arith, rows, lx, mul_comm y w, mul-add w y 1)

Keeps-trans : {s t u : Vga} → Keeps s t → Keeps t u → Keeps s u
Keeps-trans p q = record {
  res_x = q.res_x ∙ p.res_x;
  res_y = q.res_y ∙ p.res_y;
  size = q.size ∙ p.size;
  off_screen = q.off_screen ∙ p.off_screen;
}

-- The cursor after a character: past the end of a row, or past the last row, but not both.
record Advanced (s t : Vga) : Type 0 where
  keeps : Keeps s t
  x_le : t.pos_x ≤ s.res_x
  y_le : t.pos_y ≤ s.res_y
  not_both : t.pos_x ≡ s.res_x → t.pos_y < s.res_y

advance-Advanced : (ch : ℕ) (s : Vga) → IsValid s → Advanced s (advance ch s)
unfolding advance place_char
advance-Advanced ch s v = elim (Bool-cases (ch == 10)) [
  | inl e ↦ rw e (record {
    keeps = record { res_x = refl; res_y = refl; size = refl; off_screen = refl };
    x_le = omega arith;
    y_le = omega (arith, v.high);
    not_both = λ h. absurd (omega (arith, v.wide, h));
  })
  | inr e ↦
      let at = s.pos_y * s.res_x + s.pos_x in
      let cell = vchar ch s.color_fg s.color_bg in
      rw e (record {
        keeps = record {
          res_x = refl;
          res_y = refl;
          size = length-set s.vidmem at cell;
          off_screen =
              drop-set s.vidmem (s.res_x * s.res_y) at cell
                (on_screen s.pos_x s.pos_y s.res_x s.res_y v.wide v.high);
        };
        x_le = omega (arith, v.wide, v.narrow);
        y_le = omega (arith, v.high);
        not_both = λ h. v.high;
      })
]

-- The cursor after the end of a row: in a row, perhaps the one after the last.
record Wrapped (s t : Vga) : Type 0 where
  keeps : Keeps s t
  x_lt : t.pos_x < s.res_x
  y_le : t.pos_y ≤ s.res_y

wrap_row-Wrapped : (s t : Vga) → IsValid s → Advanced s t → Wrapped s (wrap_row t)
unfolding wrap_row
wrap_row-Wrapped s t v a = elim (Bool-cases (leb t.res_x t.pos_x)) [
  | inl e ↦
      let at_end : t.pos_x ≡ s.res_x = ground (arith, a.keeps.res_x, a.x_le) in
      let in_rows = a.not_both at_end in
      rw e (record {
        keeps = record {
          res_x = a.keeps.res_x;
          res_y = a.keeps.res_y;
          size = a.keeps.size;
          off_screen = a.keeps.off_screen;
        };
        x_lt = omega (arith, v.wide);
        y_le = omega (arith, in_rows, v.low);
      })
  | inr e ↦ rw e (record { keeps = a.keeps; x_lt = ground (arith, a.keeps.res_x); y_le = a.y_le })
]

-- Scrolling `r` cells up by a row of `w` keeps the number of cells, and those after the screen.
module _ (w r : ℕ) (cells : List ℕ) (room : r + w ≤ length cells) where
  abbrev moved : List ℕ
  moved = take r (drop w cells) ++ (replicate w 0 ++ drop (r + w) cells)

  length-moved_rows : length (take r (drop w cells)) ≡ r
  length-moved_rows = length-take r (drop w cells) ∙ omega (arith, length-drop w cells, room)

  length-moved : length moved ≡ length cells
  length-moved =
      let a = length-append (take r (drop w cells)) (replicate w 0 ++ drop (r + w) cells) in
      let b = length-append (replicate w 0) (drop (r + w) cells) in
      let c = length-replicate w zero in
      let d = length-drop (r + w) cells in omega (arith, a, b, c, d, length-moved_rows, room)

  drop-moved : drop (r + w) moved ≡ drop (r + w) cells
  drop-moved =
      let c = length-replicate w zero in
      let rest = replicate w 0 ++ drop (r + w) cells in
      let one : r + w - length (take r (drop w cells)) ≡ w = omega (arith, length-moved_rows) in
      let two : w - length (replicate w zero) ≡ 0 = omega (arith, c) in
      drop_past (take r (drop w cells)) rest (r + w) (omega (arith, length-moved_rows))
      ∙ ap (λ t. drop t rest) one
      ∙ drop_past (replicate w 0) (drop (r + w) cells) w (omega (arith, c))
      ∙ ap (λ t. drop t (drop (r + w) cells)) two

rows_split : (w h : ℕ) → 0 < h → w * (h - 1) + w ≡ w * h
rows_split w h pos =
    let last : h ≡ h - 1 + 1 = omega (arith, pos) in
    sym (ap (λ t. w * t) last ∙ mul-add w (h - 1) 1 ∙ ap (λ t. w * (h - 1) + t) (mul-one w))

wrap_screen-IsValid :
    (s t : Vga) → IsValid s → Wrapped s t → IsValid (wrap_screen t) × Keeps s (wrap_screen t)
unfolding wrap_screen scroll
wrap_screen-IsValid s t v a =
    let k = a.keeps in
    let room : t.res_x * t.res_y ≤ length t.vidmem =
      omega (arith, v.cells, k.size, ap₂ ◌*◌ k.res_x k.res_y) in
    elim (Bool-cases (leb t.res_y t.pos_y)) [
      | inl e ↦
          let pos : 0 < t.res_y = omega (arith, k.res_y, v.high) in
          let split = rows_split t.res_x t.res_y pos in
          let enough : t.res_x * (t.res_y - 1) + t.res_x ≤ length t.vidmem =
            omega (arith, split, room) in
          let r = t.res_x * (t.res_y - 1) in
          let size = length-moved t.res_x r t.vidmem enough in
          let kept =
            ap (λ n. drop n (moved t.res_x r t.vidmem enough)) (sym split)
            ∙ drop-moved t.res_x r t.vidmem enough
            ∙ ap (λ n. drop n t.vidmem) split in
          rw e (
            record {
              wide = omega (arith, a.x_lt, k.res_x);
              high = omega (arith, pos);
              narrow = omega (arith, v.narrow, k.res_x);
              low = omega (arith, v.low, k.res_y);
              cells = omega (arith, room, size);
            },
            record {
              res_x = k.res_x;
              res_y = k.res_y;
              size = size ∙ k.size;
              off_screen = kept ∙ k.off_screen;
            },
          )
      | inr e ↦ rw e (
        record {
          wide = omega (arith, a.x_lt, k.res_x);
          high = ground arith;
          narrow = omega (arith, v.narrow, k.res_x);
          low = omega (arith, v.low, k.res_y);
          cells = room;
        },
        k,
      )
    ]

-- Writing any text to a valid screen leaves it valid, with the cursor on the screen, and changes
-- neither the size of the screen, nor that of the memory, nor any cell after those of the screen,
-- however often it scrolls.
pub write-IsValid :
    (text : List ℕ) (s : Vga) → IsValid s → IsValid (write text s) × Keeps s (write text s)
unfolding write putchar
write-IsValid [] s v = (v, record { res_x = refl; res_y = refl; size = refl; off_screen = refl })
write-IsValid (ch ∷ chs) s v =
    let a = advance-Advanced ch s v in
    let w = wrap_row-Wrapped s (advance ch s) v a in
    let (v1, k1) = wrap_screen-IsValid s (wrap_row (advance ch s)) v w in
    let (v2, k2) = write-IsValid chs (putchar ch s) v1 in (v2, Keeps-trans k1 k2)
