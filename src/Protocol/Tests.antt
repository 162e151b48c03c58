-- ===== src/Protocol/Tests.antt =====
-- Runs of `protocol_init`, and the theorem at one.
use lboot.Base.{ℕ, ◌≡◌, refl, ap, arith, List, [], ◌∷◌, ◌++◌, none, some}
use lboot.Stdlib.{first_char, tolower}
use lboot.Stdlib.Compare.{IsString}
use lboot.Protocol.{Proto, protocoltype_none, protocol_init, protocol_file_read, protocol_file_init}
use lboot.Protocol.Schemes.{NoColon}
use lboot.Protocol.Accepts.{InitOutcome, protocol_init-InitOutcome}

abbrev fresh : Proto
fresh = record { type = protocoltype_none; port = none }

-- "XMODEM"
abbrev upper_xmodem : List ℕ
upper_xmodem = 88 ∷ 77 ∷ 79 ∷ 68 ∷ 69 ∷ 77 ∷ []

-- "//COM2"
abbrev second_port : List ℕ
second_port = 47 ∷ 47 ∷ 67 ∷ 79 ∷ 77 ∷ 50 ∷ []

-- A size and an offset whose sum wraps round pass the test of the bounds.
protocol_file_read_wraps : protocol_file_read 2 (7 ∷ 8 ∷ []) 4294967295 1 ≡ some (8 ∷ [])
unfolding protocol_file_read
protocol_file_read_wraps = refl

-- A file of 256 KiB is taken, and none of a byte more.
protocol_file_init_limit :
    (protocol_file_init 262144 ≡ some 262144) × (protocol_file_init 262145 ≡ none)
unfolding protocol_file_init
protocol_file_init_limit = (refl, refl)

protocol_init-InitOutcome_example :
    InitOutcome upper_xmodem
      (upper_xmodem ++ (58 ∷ second_port))
      (protocol_init fresh (upper_xmodem ++ (58 ∷ second_port)))
unfolding NoColon IsString tolower first_char
protocol_init-InitOutcome_example =
    protocol_init-InitOutcome fresh upper_xmodem second_port (ground arith) (ground arith)
      (λ h. (let heads : 120 ≡ 107 = ap first_char h in omega arith))
      (λ h. (let heads : 120 ≡ 121 = ap first_char h in omega arith))
