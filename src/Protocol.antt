-- ===== src/Protocol.antt =====
-- src/storage/protocol/protocol.c: the driver that a URI names, with the serial port that
-- `protocol_xmodem_init` of src/storage/protocol/xmodem.c takes from it.
use lboot.Base.{
  ℕ, zero, suc, ◌+◌, ◌-◌, List, [], ◌∷◌, Bool, true, false, ◌&&◌, ◌==◌, if◌then◌else◌, ltb, Option,
  none, some, length, take, drop, u32,
}
use lboot.Stdlib.{ℤ, pos, negsuc, strlen, strncmp, strncasecmp, strchr, strstr}
pub mod Schemes
pub mod Ports
pub mod Accepts
mod Tests

pub data ProtocolType : Type 0 where
  protocoltype_none protocoltype_kermit protocoltype_xmodem protocoltype_ymodem : ProtocolType

-- `protocol_hand_t`: its type, and the port of its serial devices once they are set up.
pub record Proto : Type 0 where
  pub type : ProtocolType
  pub port : Option ℕ

-- "kermit", "xmodem" and "ymodem"
abbrev pub urischeme_kermit : List ℕ
urischeme_kermit = 107 ∷ 101 ∷ 114 ∷ 109 ∷ 105 ∷ 116 ∷ []

abbrev pub urischeme_xmodem : List ℕ
urischeme_xmodem = 120 ∷ 109 ∷ 111 ∷ 100 ∷ 101 ∷ 109 ∷ []

abbrev pub urischeme_ymodem : List ℕ
urischeme_ymodem = 121 ∷ 109 ∷ 111 ∷ 100 ∷ 101 ∷ 109 ∷ []

-- Whether a comparison returns 0
abbrev pub is_zero : ℤ → Bool
is_zero (pos zero) = true
is_zero (pos (suc n)) = false
is_zero (negsuc n) = false

-- `_check_scheme`; `colon` is the URI from its first ':' on.
unfoldable pub check_scheme : List ℕ → List ℕ → List ℕ → Bool
check_scheme scheme uri colon =
    ((length uri - length colon) == strlen scheme)
    && is_zero (strncasecmp scheme uri (strlen scheme))

-- "COM" and a digit
abbrev pub com_name : ℕ → List ℕ
com_name digit = 67 ∷ 79 ∷ 77 ∷ digit ∷ []

unfoldable pub port_named : List ℕ → Option ℕ
port_named port_str =
    if is_zero (strncmp port_str (com_name 49) 4)
    then some 0
    else if is_zero (strncmp port_str (com_name 50) 4)
    then some 1
    else if is_zero (strncmp port_str (com_name 51) 4)
    then some 2
    else if is_zero (strncmp port_str (com_name 52) 4)
    then some 3
    else none

-- The port behind the separator that is found.
unfoldable pub port_after : List ℕ → Option ℕ → Option ℕ
port_after uri none = none
port_after uri (some sep) = port_named (drop (sep + 2) uri)

-- The port that `protocol_xmodem_init` sets up, or its failure.
unfoldable pub xmodem_port : List ℕ → Option ℕ
xmodem_port uri = port_after uri (strstr uri (47 ∷ 47 ∷ []))

-- The type that the chain of tests sets, with all protocols configured.
unfoldable pub scheme_type : List ℕ → List ℕ → ProtocolType
scheme_type uri colon =
    if check_scheme urischeme_kermit uri colon
    then protocoltype_kermit
    else if check_scheme urischeme_xmodem uri colon
    then protocoltype_xmodem
    else if check_scheme urischeme_ymodem uri colon
    then protocoltype_ymodem
    else protocoltype_none

-- The driver with the port that is found: whether it is set up, and the handle.
unfoldable pub init_xmodem : Option ℕ → Bool × Proto
init_xmodem none = (false, record { type = protocoltype_xmodem; port = none })
init_xmodem (some port) = (true, record { type = protocoltype_xmodem; port = some port })

-- The `switch` on the type.
unfoldable pub init_driver : ProtocolType → List ℕ → Bool × Proto
init_driver protocoltype_xmodem uri = init_xmodem (xmodem_port uri)
init_driver type uri = (false, record { type = type; port = none })

-- The handle once the scheme is found, or NULL for no ':'.
unfoldable pub init_scheme : Proto → List ℕ → Option (List ℕ) → Bool × Proto
init_scheme proto uri none = (false, proto)
init_scheme proto uri (some colon) = init_driver (scheme_type uri colon) uri

-- Whether the return value is 0, and the handle.
unfoldable pub protocol_init : Proto → List ℕ → Bool × Proto
protocol_init proto uri = init_scheme proto uri (strchr uri 58)

-- `_protocol_file_read` of a file of `size` bytes in `buff`: the bytes, or -1. The sum of the
-- size and the offset is a 32-bit number.
unfoldable pub protocol_file_read : ℕ → List ℕ → ℕ → ℕ → Option (List ℕ)
protocol_file_read size buff sz off =
    if ltb size (u32 (sz + off)) then none else some (take sz (drop off buff))

-- `protocol_file_init`: the size of the buffer that is allocated, or -1.
unfoldable pub protocol_file_init : ℕ → Option ℕ
protocol_file_init buff_sz =
    if buff_sz == 0 then some 262144 else if ltb 262144 buff_sz then none else some buff_sz
