-- ===== src/Xmodem/Session.antt =====
-- A whole transfer of 128-byte blocks with check bytes, with packets lost and garbled on the way.
use lboot.Base.{
  ℕ, suc, ◌+◌, ◌≤◌, ◌<◌, ◌≡◌, ◌≢◌, ◌^◌, ◌∙◌, true, ap, ap₂, sym, refl, subst, List, [], ◌∷◌, ◌++◌,
  false, not, ◌==◌, length, take, drop, u8, arith, inl, inr, Bool-cases, append_assoc, append-nil,
  length-append, length-drop, take_exact, Outcome, returns,
}
use lboot.Xmodem.{
  Xmodem, Ret, eot, sub_all, read, head_read, tail_reads, rx_packet, drain, answer, write,
  until_end, rx_loop, rx,
}
use lboot.Xmodem.Packets.{
  total, header, receiver, sub_all-total, header-rx_packet, rx_block-right, rx_block-wrong,
  rx_packet-silent,
}

-- An attempt to send a block that fails: nothing arrives in time, or the check byte does not match
-- the bytes that arrive. What the receiver then drops is `junk`.
pub data Attempt : Type 0 where
  silence : (junk : List ℕ) → Attempt
  garbled :
      (bytes : List ℕ) (c : ℕ) (junk : List ℕ) → length bytes ≡ 128 → sub_all c bytes ≢ 0 → Attempt

-- A block, with the attempts before the one that succeeds.
pub record Block : Type 0 where
  pub attempts : List Attempt
  pub bytes : List ℕ
  pub whole : length bytes ≡ 128

unfoldable pub attempt_reads : ℕ → Attempt → List (List ℕ) → List (List ℕ)
attempt_reads n (silence junk) reads = [] ∷ (junk ∷ reads)
attempt_reads n (garbled bytes c junk whole wrong) reads =
    header n ∷ (bytes ∷ ((c ∷ []) ∷ (junk ∷ reads)))

unfoldable pub attempts_reads : ℕ → List Attempt → List (List ℕ) → List (List ℕ)
attempts_reads n [] reads = reads
attempts_reads n (a ∷ tries) reads = attempt_reads n a (attempts_reads n tries reads)

-- What the reads give when a sender sends the blocks, numbered from `n` on, and ends the transfer.
unfoldable pub sender : ℕ → List Block → List (List ℕ)
sender n [] = (4 ∷ []) ∷ []
sender n (b ∷ bs) =
    attempts_reads n b.attempts
      (header n ∷ (b.bytes ∷ ((u8 (total b.bytes) ∷ []) ∷ sender (u8 (n + 1)) bs)))

unfoldable pub payload : List Block → List ℕ
payload [] = []
payload (b ∷ bs) = b.bytes ++ payload bs

-- One pass of the loop for each packet.
unfoldable pub attempts_fuel : List Attempt → ℕ → ℕ
attempts_fuel [] fuel = fuel
attempts_fuel (a ∷ tries) fuel = suc (attempts_fuel tries fuel)

unfoldable pub sender_fuel : List Block → ℕ
sender_fuel [] = 1
sender_fuel (b ∷ bs) = attempts_fuel b.attempts (suc (sender_fuel bs))

-- The transfer ends, and what is before the offset in the buffer is `bytes`.
pub record Received (bytes : List ℕ) (out : Outcome (Ret × Xmodem)) : Type 0 where
  pub after : Xmodem
  pub run : out ≡ returns (eot, after)
  pub held : take after.curr_off after.buff ≡ bytes
  pub total_sz : after.curr_off ≡ length bytes

-- A pass of the loop, for what its packet gives.
pass :
    (fuel : ℕ) (s : Xmodem) (p : Ret × Xmodem)
    → rx_packet s ≡ p
    → rx_loop (suc fuel) s
      ≡ (let s2 = answer p.0 (drain p.0 p.1) in until_end p.0 s2 (rx_loop fuel s2))
unfolding rx_loop
pass fuel s p e =
    ap (λ p. let s2 = answer p.0 (drain p.0 p.1) in until_end p.0 s2 (rx_loop fuel s2)) e

module _ (start : ℕ) (done : List ℕ) where
  silent :
      (fuel size last : ℕ) (old sent junk : List ℕ) (reads : List (List ℕ))
      → (sent' : List ℕ) × (rx_loop
            (suc fuel)
            (receiver size start last done old ([] ∷ (junk ∷ reads)) sent)
          ≡ rx_loop fuel (receiver size start last done old reads sent'))
  unfolding drain answer write tail_reads until_end
  silent fuel size last old sent junk reads =
      let missed =
        pass fuel _ _
          (rx_packet-silent (receiver size start last done old _ sent) (junk ∷ reads) refl) in
      elim (Bool-cases (not (length done == 0))) [
        | inl e ↦ (21 ∷ sent, missed ∙ rw e refl)
        | inr e ↦ (start ∷ sent, missed ∙ rw e refl)
      ]

  -- Failed attempts change nothing but the buffer past what is received.
  attempts-Received :
      (fuel n last : ℕ) (tries : List Attempt) (reads : List (List ℕ)) (bytes : List ℕ) (size : ℕ)
      (old sent : List ℕ)
      → n ≡ u8 (last + 1)
      → last < 256
      → 128 ≤ length old
      → length done + 128 < 2 ^ 31
      → ((size : ℕ) (old' sent' : List ℕ)
          → length old' ≡ length old
          → Received bytes (rx_loop fuel (receiver size start last done old' reads sent')))
      → Received bytes (
          rx_loop
            (attempts_fuel tries fuel)
            (receiver size start last done old (attempts_reads n tries reads) sent))
  unfolding attempts_fuel attempts_reads attempt_reads answer drain write tail_reads until_end
  attempts-Received fuel n last [] reads bytes size old sent wants small room short go_on =
      go_on size old sent refl
  attempts-Received fuel n last (silence junk ∷ tries) reads bytes size old sent wants small room
        short go_on =
      let step =
        silent (attempts_fuel tries fuel) size last old sent junk (attempts_reads n tries reads) in
      subst (Received bytes) (sym step.1) (
        attempts-Received fuel n last tries reads bytes size old step.0 wants small room short
          go_on)
  attempts-Received fuel n last (garbled b c junk whole wrong ∷ tries) reads bytes size old sent
        wants small room short go_on =
      let input = attempts_reads n tries reads in
      let bad =
        header-rx_packet start sent done old size n last _ wants small
        ∙ rx_block-wrong start sent done old n last 128 c b (junk ∷ input) (sym whole) room short
            wrong in
      let left : length (b ++ drop 128 old) ≡ length old =
        omega (arith, length-append b (drop 128 old), length-drop 128 old, whole, room) in
      subst (Received bytes) (sym (pass (attempts_fuel tries fuel) _ _ bad)) (
        attempts-Received fuel n last tries reads bytes 128 (b ++ drop 128 old) (21 ∷ sent) wants
          small (omega (arith, left, room)) short
          (λ size old' sent' same. go_on size old' sent' (same ∙ left)))

module _ (start : ℕ) where
  -- The state after a good block, as the receiver of the next one.
  next_receiver :
      (n : ℕ) (done bytes old : List ℕ) (input : List (List ℕ)) (sent : List ℕ)
      → 128 ≡ length bytes
      → record {
        block_sz = 128;
        crc = false;
        start_ch = start;
        last_block = n;
        curr_off = length done + 128;
        buff = done ++ (bytes ++ drop 128 old);
        input = input;
        sent = 6 ∷ sent;
      }
        ≡ receiver 128 start n (done ++ bytes) (drop 128 old) input (6 ∷ sent)
  next_receiver n done bytes old input sent whole =
      ap₂
        (λ off buff. record {
          block_sz = 128;
          crc = false;
          start_ch = start;
          last_block = n;
          curr_off = off;
          buff = buff;
          input = input;
          sent = 6 ∷ sent;
        })
        (omega (arith, whole, length-append done bytes))
        (sym (append_assoc done bytes (drop 128 old)))

  end_of_transfer :
      (size last : ℕ) (done old sent : List ℕ)
      → rx_loop 1 (receiver size start last done old ((4 ∷ []) ∷ []) sent)
        ≡ returns (eot, receiver size start last done old [] (6 ∷ sent))
  unfolding rx_loop rx_packet read head_read tail_reads answer drain write until_end
  end_of_transfer size last done old sent = refl

  -- A block that arrives whole is acknowledged and kept.
  good_block :
      (fuel n last size : ℕ) (done bytes old sent : List ℕ) (reads : List (List ℕ))
      → n ≡ u8 (last + 1)
      → last < 256
      → 128 ≡ length bytes
      → 128 ≤ length old
      → length done + 128 < 2 ^ 31
      → rx_loop (suc fuel) (
          receiver size start last done old
            (header n ∷ (bytes ∷ ((u8 (total bytes) ∷ []) ∷ reads)))
            sent)
        ≡ rx_loop fuel (receiver 128 start n (done ++ bytes) (drop 128 old) reads (6 ∷ sent))
  unfolding drain answer write until_end
  good_block fuel n last size done bytes old sent reads wants small whole room short =
      let c = u8 (total bytes) in
      let from_zero : u8 (total bytes) ≡ u8 (0 + total bytes) = omega arith in
      let right : sub_all c bytes ≡ 0 =
        ap (λ t. sub_all t bytes) from_zero ∙ sub_all-total 0 bytes in
      pass fuel _ _ (
        header-rx_packet start sent done old size n last (bytes ∷ ((c ∷ []) ∷ reads)) wants small
        ∙ rx_block-right start sent done old n last 128 c bytes reads whole room short right)
      ∙ ap (rx_loop fuel) (next_receiver n done bytes old reads sent whole)

  rx_loop-Received :
      (blocks : List Block) (n last size : ℕ) (done old sent : List ℕ)
      → n ≡ u8 (last + 1)
      → last < 256
      → length (payload blocks) ≤ length old
      → length done + length (payload blocks) < 2 ^ 31
      → Received
          (done ++ payload blocks)
          (rx_loop (sender_fuel blocks) (receiver size start last done old (sender n blocks) sent))
  unfolding payload sender sender_fuel
  rx_loop-Received [] n last size done old sent wants small room short = record {
    after = receiver size start last done old [] (6 ∷ sent);
    run = end_of_transfer size last done old sent;
    held = take_exact done old (length done) refl ∙ sym (append-nil done);
    total_sz = ap length (sym (append-nil done));
  }
  rx_loop-Received (b ∷ bs) n last size done old sent wants small room short =
      let size_eq = length-append b.bytes (payload bs) in
      let rest = sender (u8 (n + 1)) bs in
      let input = header n ∷ (b.bytes ∷ ((u8 (total b.bytes) ∷ []) ∷ rest)) in
      attempts-Received start done (suc (sender_fuel bs)) n last b.attempts input _ size old sent
        wants small (omega (arith, size_eq, room, b.whole)) (omega (arith, size_eq, short, b.whole))
        (λ size old' sent' same.
          let shorter = length-drop 128 old' in
          let received =
            rx_loop-Received bs (u8 (n + 1)) n 128 (done ++ b.bytes) (drop 128 old') (6 ∷ sent')
              refl (omega (arith, wants)) (omega (arith, size_eq, room, b.whole, same, shorter))
              (omega (arith, size_eq, short, length-append done b.bytes)) in
          subst (Received (done ++ (b.bytes ++ payload bs)))
            (sym (
              good_block (sender_fuel bs) n last size done b.bytes old' sent' rest wants small
                (sym b.whole) (omega (arith, size_eq, room, b.whole, same))
                (omega (arith, size_eq, short, b.whole))))
            (subst
              (λ t. Received t (
                rx_loop (sender_fuel bs)
                  (receiver 128 start n (done ++ b.bytes) (drop 128 old') rest (6 ∷ sent'))))
              (append_assoc done b.bytes (payload bs)) received))

-- A receiver with check bytes that could write its start character, started with an empty buffer, gets
-- all of what a sender sends in blocks of 128 bytes numbered from 1, in order and without repetition,
-- and ends the transfer with the total size, if the buffer has room for it and it is below 2 GiB.
-- Before each block any number of attempts may fail, because nothing arrives or because a check byte
-- does not match; no other failure and no repeated block is among them.
pub rx-Received :
    (start size : ℕ) (buff : List ℕ) (blocks : List Block)
    → length (payload blocks) ≤ length buff
    → length (payload blocks) < 2 ^ 31
    → Received
        (payload blocks)
        (rx true (sender_fuel blocks) (receiver size start 0 [] buff (sender 1 blocks) []))
unfolding rx write
rx-Received start size buff blocks room short =
    rx_loop-Received start blocks 1 0 size [] buff (start ∷ []) refl (omega arith) room
      (omega arith)
