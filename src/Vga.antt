-- ===== src/Vga.antt =====
-- src/io/vga.c: the text screen. The video memory is the list of its 16-bit cells, with the row of
-- the status bar, where there is one, after the rows of the screen.
use lboot.Base.{
  ℕ, zero, suc, ◌+◌, ◌-◌, ◌*◌, ◌%◌, ◌^◌, List, [], ◌∷◌, ◌++◌, ◌==◌, ltb, leb, if◌then◌else◌, take,
  drop, set, replicate, length, u8, u16, bit_or, ◌<<<◌,
}
pub mod Screen
mod Tests

pub record Vga : Type 0 where
  pub vidmem : List ℕ
  pub color_fg : ℕ
  pub color_bg : ℕ
  pub res_x : ℕ
  pub res_y : ℕ
  pub pos_x : ℕ
  pub pos_y : ℕ

-- A byte read as a `char`, which is signed, and cast to 16 bits
unfoldable pub signed_char : ℕ → ℕ
signed_char ch = if leb 128 ch then ch + 0xFF00 else ch

-- The `VCHAR` macro; a shift of a `uint16_t` is one of an `int`.
unfoldable pub vchar : ℕ → ℕ → ℕ → ℕ
vchar ch fg bg = u16 (bit_or (bit_or (u16 (signed_char ch)) (u16 fg <<< 8)) (u16 bg <<< 12))

-- `_vga_clear` sets `res_x * 2 * res_y` bytes to 0.
unfoldable pub clear : Vga → Vga
clear s = record s { vidmem = replicate (s.res_x * s.res_y) 0 ++ drop (s.res_x * s.res_y) s.vidmem }

unfoldable pub place_char : ℕ → ℕ → ℕ → Vga → Vga
place_char x y ch s = record s {
  vidmem = set s.vidmem (y * s.res_x + x) (vchar ch s.color_fg s.color_bg);
}

-- The rows but the first move up by one, and the last is cleared.
unfoldable pub scroll : Vga → Vga
scroll s =
    let rows = s.res_x * (s.res_y - 1) in
    record s {
      vidmem =
          take rows (drop s.res_x s.vidmem)
          ++ (replicate s.res_x 0 ++ drop (rows + s.res_x) s.vidmem);
    }

-- The `switch` of `_vga_putchar`.
unfoldable pub advance : ℕ → Vga → Vga
unfolding place_char
advance ch s =
    if ch == 10
    then record s { pos_x = 0; pos_y = u8 (s.pos_y + 1) }
    else record (place_char s.pos_x s.pos_y ch s) { pos_x = u8 (s.pos_x + 1) }

-- The end of a row goes on in the next.
unfoldable pub wrap_row : Vga → Vga
wrap_row s = if leb s.res_x s.pos_x then record s { pos_x = 0; pos_y = u8 (s.pos_y + 1) } else s

-- The end of the screen scrolls.
unfoldable pub wrap_screen : Vga → Vga
unfolding scroll
wrap_screen s = if leb s.res_y s.pos_y then scroll (record s { pos_y = s.res_y - 1 }) else s

unfoldable pub putchar : ℕ → Vga → Vga
putchar ch s = wrap_screen (wrap_row (advance ch s))

unfoldable pub write : List ℕ → Vga → Vga
write [] s = s
write (ch ∷ chs) s = write chs (putchar ch s)

-- `_vga_status`: the text of the status bar from its third cell on, padded to the end of the row;
-- `n` cells are left.
unfoldable pub status_loop : ℕ → ℕ → List ℕ → List ℕ → List ℕ
status_loop zero pos str vidmem = vidmem
status_loop (suc n) pos [] vidmem = status_loop n (suc pos) [] (set vidmem pos (vchar 32 0 7))
status_loop (suc n) pos (ch ∷ chs) vidmem =
    status_loop n (suc pos) chs (set vidmem pos (vchar ch 0 7))

unfoldable pub status : List ℕ → Vga → Vga
status str s =
    let bar = s.res_x * s.res_y in
    record s {
      vidmem = status_loop (s.res_x - 2) (bar + 2) str (set s.vidmem (bar + 1) (vchar 32 0 7));
    }
