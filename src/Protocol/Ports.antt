-- ===== src/Protocol/Ports.antt =====
-- src/storage/protocol/xmodem.c: the serial port that a URI names.
use lboot.Base.{
  ℕ, zero, suc, ◌+◌, ◌<◌, ◌≡◌, ◌≢◌, ◌↔◌, refl, sym, ap, ◌∙◌, subst, arith, List, [], ◌∷◌, Bool,
  true, false, if_split, Option, none, some, length, take, drop,
}
use lboot.Stdlib.{strncmp, strstr}
use lboot.Stdlib.Compare.{IsString, strncmp_iff}
use lboot.Stdlib.Search.{FirstPlace, strstr-FirstPlace}
use lboot.Protocol.{is_zero, com_name, port_named, port_after, xmodem_port}
use lboot.Protocol.Schemes.{is_zero_iff}

drop-IsString : (n : ℕ) (s : List ℕ) → IsString s → IsString (drop n s)
unfolding IsString
drop-IsString zero s h = h
drop-IsString (suc n) [] h = refl
drop-IsString (suc n) (c ∷ cs) h = drop-IsString n cs h.1

com_name-IsString : (digit : ℕ) → 0 < digit → digit < 256 → IsString (com_name digit)
unfolding IsString
com_name-IsString digit some_byte small = (
  (omega arith, omega arith),
  ((omega arith, omega arith), ((omega arith, omega arith), ((some_byte, small), refl))),
)

-- A test of `port_named`.
named_iff :
    (name : List ℕ) (digit : ℕ)
    → IsString name
    → 0 < digit
    → digit < 256
    → (is_zero (strncmp name (com_name digit) 4) ≡ true) ↔ (take 4 name ≡ com_name digit)
named_iff name digit hn some_byte small =
    let zero_iff = is_zero_iff (strncmp name (com_name digit) 4) in
    let same =
      strncmp_iff name (com_name digit) 4 hn (com_name-IsString digit some_byte small) (omega arith)
        (omega arith) in
    (λ h. same.0 (zero_iff.0 h), λ h. zero_iff.1 (same.1 h))

com_name-same : (a b : ℕ) → com_name a ≡ com_name b → a ≡ b
com_name-same a b h = cc

named-hit :
    (name : List ℕ) (k port : ℕ)
    → IsString name
    → k < 4
    → is_zero (strncmp name (com_name (49 + k)) 4) ≡ true
    → some k ≡ some port
    → (port < 4) × (take 4 name ≡ com_name (49 + port))
named-hit name k port hn small e q =
    let same : k ≡ port = cc in
    let front = (named_iff name (49 + k) hn (omega arith) (omega arith)).0 e in
    (omega arith, subst (λ d. take 4 name ≡ com_name (49 + d)) same front)

port_named_sound :
    (name : List ℕ) (port : ℕ)
    → IsString name
    → port_named name ≡ some port
    → (port < 4) × (take 4 name ≡ com_name (49 + port))
unfolding port_named
port_named_sound name port hn =
    let Named = (port < 4) × (take 4 name ≡ com_name (49 + port)) in
    if_split (λ z. z ≡ some port → Named) (is_zero (strncmp name (com_name 49) 4))
      (λ e. named-hit name 0 port hn (omega arith) e)
      (λ e.
        if_split (λ z. z ≡ some port → Named) (is_zero (strncmp name (com_name 50) 4))
          (λ e. named-hit name 1 port hn (omega arith) e)
          (λ e.
            if_split (λ z. z ≡ some port → Named) (is_zero (strncmp name (com_name 51) 4))
              (λ e. named-hit name 2 port hn (omega arith) e)
              (λ e.
                if_split (λ z. z ≡ some port → Named) (is_zero (strncmp name (com_name 52) 4))
                  (λ e. named-hit name 3 port hn (omega arith) e) (λ e q. cc))))

-- The tests before and after the one that the name passes.
named-of :
    (name : List ℕ) (k port : ℕ)
    → IsString name
    → k < 4
    → take 4 name ≡ com_name (49 + port)
    → (is_zero (strncmp name (com_name (49 + k)) 4) ≡ true) ↔ (k ≡ port)
named-of name k port hn small h =
    let test = named_iff name (49 + k) hn (omega arith) (omega arith) in
    (
      λ e. (let same = com_name-same (49 + k) (49 + port) (sym (test.0 e) ∙ h) in omega arith),
      λ e. test.1 (h ∙ ap (λ d. com_name (49 + d)) (sym e)),
    )

missed : (k port : ℕ) (b : Bool) → b ≡ false → (b ≡ true) ↔ (k ≡ port) → k ≢ port
missed k port b f test q = let both = test.1 q in cc

port_named_complete :
    (name : List ℕ) (port : ℕ)
    → IsString name
    → port < 4
    → take 4 name ≡ com_name (49 + port)
    → port_named name ≡ some port
unfolding port_named
port_named_complete name port hn small h =
    let test0 = named-of name 0 port hn (omega arith) h in
    let test1 = named-of name 1 port hn (omega arith) h in
    let test2 = named-of name 2 port hn (omega arith) h in
    let test3 = named-of name 3 port hn (omega arith) h in
    if_split (λ z. z ≡ some port) (is_zero (strncmp name (com_name 49) 4))
      (λ e. ap some (test0.0 e))
      (λ e0.
        if_split (λ z. z ≡ some port) (is_zero (strncmp name (com_name 50) 4))
          (λ e. ap some (test1.0 e))
          (λ e1.
            if_split (λ z. z ≡ some port) (is_zero (strncmp name (com_name 51) 4))
              (λ e. ap some (test2.0 e))
              (λ e2.
                if_split (λ z. z ≡ some port) (is_zero (strncmp name (com_name 52) 4))
                  (λ e. ap some (test3.0 e))
                  (λ e3. absurd (
                    omega (
                      arith,
                      missed 0 port _ e0 test0,
                      missed 1 port _ e1 test1,
                      missed 2 port _ e2 test2,
                      missed 3 port _ e3 test3,
                    ))))))

-- A URI names a serial port by "COM1" to "COM4" behind its first "//".
unfoldable pub NamesPort : List ℕ → ℕ → Type 0
NamesPort uri port =
    (sep : ℕ) × FirstPlace uri (47 ∷ 47 ∷ []) 0 (suc (length uri)) (some sep)
    × (port < 4)
    × (take 4 (drop (sep + 2) uri) ≡ com_name (49 + port))

FirstPlace-same :
    (uri needle : List ℕ) (places i j : ℕ)
    → FirstPlace uri needle 0 places (some i)
    → FirstPlace uri needle 0 places (some j)
    → i ≡ j
unfolding FirstPlace
FirstPlace-same uri needle places i j (x, at_x, in_x, here_x, first_x)
      (y, at_y, in_y, here_y, first_y) =
    let not_before : ¬ (x < y) = λ lt. first_y x lt here_x in
    let not_after : ¬ (y < x) = λ lt. first_x y lt here_y in omega arith

port_after_sound :
    (uri : List ℕ) (port : ℕ) (o : Option ℕ)
    → IsString uri
    → FirstPlace uri (47 ∷ 47 ∷ []) 0 (suc (length uri)) o
    → port_after uri o ≡ some port
    → NamesPort uri port
unfolding port_after NamesPort
port_after_sound uri port none hu place h = cc
port_after_sound uri port (some sep) hu place h =
    let named = port_named_sound (drop (sep + 2) uri) port (drop-IsString (sep + 2) uri hu) h in
    (sep, place, named.0, named.1)

port_after_complete :
    (uri : List ℕ) (port : ℕ) (o : Option ℕ)
    → IsString uri
    → FirstPlace uri (47 ∷ 47 ∷ []) 0 (suc (length uri)) o
    → NamesPort uri port
    → port_after uri o ≡ some port
unfolding port_after NamesPort FirstPlace
port_after_complete uri port none hu place (sep, there, small, named) =
    absurd (place there.0 there.2 there.3)
port_after_complete uri port (some i) hu place (sep, there, small, named) =
    let same = FirstPlace-same uri (47 ∷ 47 ∷ []) (suc (length uri)) sep i there place in
    port_named_complete (drop (i + 2) uri) port (drop-IsString (i + 2) uri hu) small
      (subst (λ k. take 4 (drop (k + 2) uri) ≡ com_name (49 + port)) same named)

-- `protocol_xmodem_init` takes the port that the URI names.
pub xmodem_port_iff :
    (uri : List ℕ) (port : ℕ) → IsString uri → (xmodem_port uri ≡ some port) ↔ NamesPort uri port
unfolding xmodem_port
xmodem_port_iff uri port hu =
    let place = strstr-FirstPlace uri (47 ∷ 47 ∷ []) in
    (
      port_after_sound uri port (strstr uri (47 ∷ 47 ∷ [])) hu place,
      port_after_complete uri port (strstr uri (47 ∷ 47 ∷ [])) hu place,
    )
