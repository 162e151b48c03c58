-- ===== src/Output/Sink.antt =====
-- src/io/output.c and inc/io/output.h: the selected output device and what is printed to it, with
-- CONFIG_STATUSBAR and CONFIG_WORKINGSTATUS set. A device's functions take its state to its state.
use lboot.Base.{ℕ, zero, suc, List, [], ◌∷◌, ◌++◌, ◌==◌, if◌then◌else◌, Option, some, none, length}
use lboot.Output.Format.{print}

-- `working_status_e`
pub data WorkingStatus : Type 0 where
  not_working working has_error : WorkingStatus

-- `output_hand_t`; a function that may be NULL is an Option.
pub record OutputHand (D : Type 0) : Type 0 where
  pub write : D → List ℕ → D
  pub status : Option (D → List ℕ → D)
  pub working : Option (D → WorkingStatus → D)

-- `_current_output`, and the state of the device behind it
pub record Console (D : Type 0) : Type 0 where
  pub current : Option (OutputHand D)
  pub device : D

-- a C string: the bytes before the first NUL
unfoldable pub c_string : List ℕ → List ℕ
c_string [] = []
c_string (c ∷ cs) = if c == 0 then [] else c ∷ c_string cs

module _ {D : Type 0} where
  unfoldable pub output_set : Console D → Option (OutputHand D) → Console D
  output_set con out = record con { current = out }

  -- `write` of the selected device, and nothing without one
  unfoldable pub write_to : Option (OutputHand D) → D → List ℕ → D
  write_to none dev bytes = dev
  write_to (some hand) dev bytes = hand.write dev bytes

  unfoldable pub putchar : Console D → ℕ → Console D
  putchar con ch = record con { device = write_to con.current con.device (ch ∷ []) }

  unfoldable pub puts : Console D → List ℕ → Console D
  puts con str = record con { device = write_to con.current con.device (c_string str) }

  -- the console after `printf`, and the count that it returns
  unfoldable pub printf : (ℕ → List ℕ) → Console D → List ℕ → List ℕ → Console D × ℕ
  printf memory con fmt args = let (text, count) = print memory fmt args in (puts con text, count)

  -- "%02x " on a byte
  unfoldable pub print_hex_byte : Console D → ℕ → Console D
  print_hex_byte con byte = (printf (λ _. []) con (37 ∷ 48 ∷ 50 ∷ 120 ∷ 32 ∷ []) (byte ∷ [])).0

  -- A row of `print_hex`: the places left in it, and the bytes that are left after it.
  unfoldable pub hex_row : Console D → ℕ → List ℕ → Console D × List ℕ
  hex_row con zero bytes = (con, bytes)
  hex_row con (suc places) [] = (con, [])
  hex_row con (suc places) (byte ∷ bytes) = hex_row (print_hex_byte con byte) places bytes

  -- `print_hex`, on fuel for the rows: `PRINTHEX_ROWSZ` bytes and a line feed each.
  unfoldable pub hex_rows : Console D → ℕ → List ℕ → Console D
  hex_rows con zero bytes = con
  hex_rows con (suc fuel) [] = con
  hex_rows con (suc fuel) (byte ∷ bytes) =
      let row = hex_row con 24 (byte ∷ bytes) in
      hex_rows (printf (λ _. []) row.0 (10 ∷ []) []).0 fuel row.1

  pub print_hex : Console D → List ℕ → Console D
  print_hex con bytes = hex_rows con (length bytes) bytes

  -- a device's own handling of a message, which any of the pointers on the way to it may lack
  abbrev status_hand : Console D → Option (D → List ℕ → D)
  status_hand con = elim con.current [ none ↦ none | some hand ↦ hand.status ]

  unfoldable pub print_status : (ℕ → List ℕ) → Console D → List ℕ → List ℕ → Console D
  print_status memory con fmt args =
      let text = (print memory fmt args).0 in
      elim (status_hand con) [
        | none ↦ putchar (puts con text) 10
        | some show ↦ record con { device = show con.device text }
      ]

  abbrev working_hand : Console D → Option (D → WorkingStatus → D)
  working_hand con = elim con.current [ none ↦ none | some hand ↦ hand.working ]

  unfoldable pub status_working : Console D → WorkingStatus → Console D
  status_working con status = elim (working_hand con) [
    | none ↦ elim status [ working ↦ putchar con 46 | _ ↦ con ]
    | some show ↦ record con { device = show con.device status }
  ]

  -- What `_panic` has done when it halts. Interrupts are off by then.
  unfoldable pub panic_text : (ℕ → List ℕ) → Console D → List ℕ → List ℕ → Console D
  panic_text memory con fmt args = status_working (puts con (print memory fmt args).0) has_error

-- A device that keeps what is written to it.
abbrev pub recorder : OutputHand (List ℕ)
recorder = record { write = λ dev bytes. dev ++ bytes; status = none; working = none }

abbrev pub recording : List ℕ → Console (List ℕ)
recording out = record { current = some recorder; device = out }
