-- ===== src/Vga/Tests.antt =====
-- A screen of two cells by two, with a status bar.
use lboot.Base.{arith, [], ◌∷◌}
use lboot.Vga.{Vga, write}
use lboot.Vga.Screen.{IsValid, Keeps, write-IsValid}

abbrev tiny : Vga
tiny = record {
  vidmem = 1 ∷ 2 ∷ 3 ∷ 4 ∷ 5 ∷ 6 ∷ [];
  color_fg = 7;
  color_bg = 0;
  res_x = 2;
  res_y = 2;
  pos_x = 1;
  pos_y = 1;
}

tiny-IsValid : IsValid tiny
tiny-IsValid = record {
  wide = omega arith;
  high = omega arith;
  narrow = omega arith;
  low = omega arith;
  cells = omega arith;
}

write-IsValid_example :
    IsValid (write (65 ∷ 66 ∷ 10 ∷ []) tiny) × Keeps tiny (write (65 ∷ 66 ∷ 10 ∷ []) tiny)
write-IsValid_example = write-IsValid (65 ∷ 66 ∷ 10 ∷ []) tiny tiny-IsValid
