-- ===== src/Protocol/Accepts.antt =====
-- src/storage/protocol/protocol.c: which URIs `protocol_init` accepts.
use lboot.Base.{
  ℕ, ◌≡◌, ◌≢◌, ◌↔◌, refl, sym, ap, ◌∙◌, subst, arith, List, ◌∷◌, ◌++◌, map, Bool, true, false,
  if_split, Option, none, some,
}
use lboot.Stdlib.{first_char, tolower}
use lboot.Stdlib.Compare.{IsString}
use lboot.Protocol.{
  Proto, ProtocolType, protocoltype_none, protocoltype_kermit, protocoltype_xmodem,
  protocoltype_ymodem, check_scheme, scheme_type, init_xmodem, init_driver, init_scheme,
  xmodem_port, protocol_init, urischeme_kermit, urischeme_xmodem, urischeme_ymodem,
}
use lboot.Protocol.Schemes.{NoColon, strchr-NoColon, check_scheme_iff}
use lboot.Protocol.Ports.{NamesPort, xmodem_port_iff}

-- The result for a URI with this scheme.
unfoldable pub InitOutcome : List ℕ → List ℕ → Bool × Proto → Type 0
InitOutcome scheme uri (false, handle) =
    ¬ ((map tolower scheme ≡ urischeme_xmodem) × ((port : ℕ) × NamesPort uri port))
InitOutcome scheme uri (true, handle) =
    (map tolower scheme ≡ urischeme_xmodem)
    × (handle.type ≡ protocoltype_xmodem)
    × ((port : ℕ) × (handle.port ≡ some port) × NamesPort uri port)

urischeme_kermit-IsString : IsString urischeme_kermit
unfolding IsString
urischeme_kermit-IsString = ground arith

urischeme_xmodem-IsString : IsString urischeme_xmodem
unfolding IsString
urischeme_xmodem-IsString = ground arith

init_xmodem-InitOutcome :
    (scheme uri : List ℕ) (o : Option ℕ)
    → map tolower scheme ≡ urischeme_xmodem
    → ((port : ℕ) → (o ≡ some port) ↔ NamesPort uri port)
    → InitOutcome scheme uri (init_xmodem o)
unfolding init_xmodem InitOutcome
init_xmodem-InitOutcome scheme uri none same named = λ h. (let found = (named h.1.0).1 h.1.1 in cc)
init_xmodem-InitOutcome scheme uri (some port) same named =
    (same, refl, (port, refl, (named port).0 refl))

lower_kermit : map tolower urischeme_kermit ≡ urischeme_kermit
unfolding tolower
lower_kermit = refl

lower_xmodem : map tolower urischeme_xmodem ≡ urischeme_xmodem
unfolding tolower
lower_xmodem = refl

refused :
    (scheme uri : List ℕ) (type : ProtocolType) (port : Option ℕ)
    → map tolower scheme ≢ urischeme_xmodem
    → InitOutcome scheme uri (false, record { type = type; port = port })
unfolding InitOutcome
refused scheme uri type port other = λ h. other h.0

init_driver-InitOutcome :
    (scheme rest : List ℕ)
    → IsString (scheme ++ (58 ∷ rest))
    → (let uri = scheme ++ (58 ∷ rest) in
        InitOutcome scheme uri (init_driver (scheme_type uri (58 ∷ rest)) uri))
unfolding scheme_type init_driver first_char
init_driver-InitOutcome scheme rest hu =
    let uri = scheme ++ (58 ∷ rest) in
    let kermit =
      check_scheme_iff urischeme_kermit scheme rest urischeme_kermit-IsString hu (omega arith)
        (omega arith) in
    let xmodem =
      check_scheme_iff urischeme_xmodem scheme rest urischeme_xmodem-IsString hu (omega arith)
        (omega arith) in
    if_split (λ t. InitOutcome scheme uri (init_driver t uri))
      (check_scheme urischeme_kermit uri (58 ∷ rest))
      (λ e. refused scheme uri protocoltype_kermit none (λ h.
        (let heads : 120 ≡ 107 = ap first_char (sym h ∙ kermit.0 e ∙ lower_kermit) in omega arith)))
      (λ e.
        if_split (λ t. InitOutcome scheme uri (init_driver t uri))
          (check_scheme urischeme_xmodem uri (58 ∷ rest))
          (λ e'.
            init_xmodem-InitOutcome scheme uri (xmodem_port uri) (xmodem.0 e' ∙ lower_xmodem)
              (λ port. xmodem_port_iff uri port hu))
          (λ e'.
            (let other : map tolower scheme ≢ urischeme_xmodem =
                λ h. (let found = xmodem.1 (h ∙ sym lower_xmodem) in cc) in
              if_split (λ t. InitOutcome scheme uri (init_driver t uri))
                (check_scheme urischeme_ymodem uri (58 ∷ rest))
                (λ e''. refused scheme uri protocoltype_ymodem none other)
                (λ e''. refused scheme uri protocoltype_none none other))))

-- A URI with a scheme other than "kermit" and "ymodem", whose drivers are not there yet, is accepted
-- exactly if the scheme is "xmodem", in either case, and the URI names a serial port, which the handle
-- then holds.
pub protocol_init-InitOutcome :
    (proto : Proto) (scheme rest : List ℕ)
    → NoColon scheme
    → IsString (scheme ++ (58 ∷ rest))
    → map tolower scheme ≢ urischeme_kermit
    → map tolower scheme ≢ urischeme_ymodem
    → InitOutcome scheme (scheme ++ (58 ∷ rest)) (protocol_init proto (scheme ++ (58 ∷ rest)))
unfolding protocol_init init_scheme
protocol_init-InitOutcome proto scheme rest hs hu not_kermit not_ymodem =
    let uri = scheme ++ (58 ∷ rest) in
    subst (λ o. InitOutcome scheme uri (init_scheme proto uri o))
      (sym (strchr-NoColon scheme rest hs)) (init_driver-InitOutcome scheme rest hu)
