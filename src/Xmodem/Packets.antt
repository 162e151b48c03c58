-- ===== src/Xmodem/Packets.antt =====
-- What one packet of a sender does to the receiver, when it arrives whole, when its check byte is
-- wrong, and when nothing arrives.
use lboot.Base.{
  ℕ, ◌+◌, ◌-◌, ◌^◌, ◌≤◌, ◌<◌, ◌≡◌, ◌≢◌, ◌∙◌, ap, ap₂, sym, refl, List, [], ◌∷◌, ◌++◌, true, false,
  ◌&&◌, not, ◌==◌, ltb, length, take, drop, u8, u32, if◌then◌else◌, arith, append-nil,
  length-append, take_exact, drop_past,
}
use lboot.Xmodem.{
  Xmodem, ret_ok, error, timeout, sub_all, read, head_read, tail_reads, put_block, block_at,
  checksum, rx_block, reread, rx_head, rx_packet,
}

-- The check byte of a block: the sum of its bytes, in eight bits.
unfoldable pub total : List ℕ → ℕ
total [] = 0
total (b ∷ bs) = b + total bs

pub sub_all-total : (x : ℕ) (bs : List ℕ) → sub_all (u8 (x + total bs)) bs ≡ u8 x
unfolding sub_all total
sub_all-total x [] = omega arith
sub_all-total x (b ∷ bs) =
    let byte : u8 (u8 (x + (b + total bs)) + 2 ^ 8 - u8 b) ≡ u8 (x + total bs) = omega arith in
    ap (λ t. sub_all t bs) byte ∙ sub_all-total x bs

abbrev pub header : ℕ → List ℕ
header n = 1 ∷ n ∷ (255 - n) ∷ []

-- The receiver of blocks with a check byte, which has `done` and has `old` after it in the buffer.
abbrev pub receiver : ℕ → ℕ → ℕ → List ℕ → List ℕ → List (List ℕ) → List ℕ → Xmodem
receiver size start last done old input sent = record {
  block_sz = size;
  crc = false;
  start_ch = start;
  last_block = last;
  curr_off = length done;
  buff = done ++ old;
  input = input;
  sent = sent;
}

take_all : (xs : List ℕ) (n : ℕ) → n ≡ length xs → take n xs ≡ xs
take_all xs n h = ap (take n) (sym (append-nil xs)) ∙ take_exact xs [] n h

module _ (start : ℕ) (sent done old : List ℕ) where
  pub header-rx_packet :
      (size n last : ℕ) (reads : List (List ℕ))
      → n ≡ u8 (last + 1)
      → last < 256
      → rx_packet (receiver size start last done old (header n ∷ reads) sent)
        ≡ rx_block n (receiver 128 start last done old reads sent)
  unfolding rx_packet read head_read tail_reads rx_head reread
  header-rx_packet size n last reads wants small =
      let complement : (n + (255 - n) == 255) ≡ true = ground (arith, wants) in
      let fresh : (n == last) ≡ false = ground (arith, wants, small) in
      let wanted : (n == u8 (last + 1)) ≡ true = ground (arith, wants) in
      let no_reread : (not (length done == 0) && (n == last)) ≡ false = ground (arith, fresh) in
      rw (complement, no_reread, fresh, wanted) refl

  module _ (n last size c : ℕ) (bytes : List ℕ) (reads : List (List ℕ))
      (whole : size ≡ length bytes) (room : size ≤ length old)
      (short : length done + size < 2 ^ 31) where
    below : ltb (length done) (2 ^ 31) ≡ true
    below = ground (arith, short)

    word : u32 (length done + size) ≡ length done + size
    word = omega (arith, short)

    got : take size bytes ≡ bytes
    got = take_all bytes size whole

    copied : put_block (length done) bytes (done ++ old) ≡ done ++ (bytes ++ drop size old)
    unfolding put_block
    copied =
        ap
          (λ b.
            if b
            then take (length done) (done ++ old)
              ++ (bytes ++ drop (length done + length bytes) (done ++ old))
            else drop (2 ^ 32 - length done) bytes
              ++ drop (length (drop (2 ^ 32 - length done) bytes)) (done ++ old))
          below
        ∙ ap₂ (λ t u. t ++ (bytes ++ u)) (take_exact done old (length done) refl)
            (drop_past done old (length done + length bytes) (omega arith)
              ∙ ap (λ t. drop t old) (omega (arith, whole)))

    block_taken : take size (drop (length done) (done ++ (bytes ++ drop size old))) ≡ bytes
    block_taken =
        let at_end : length done - length done ≡ 0 = omega arith in
        ap (take size) (
          drop_past done (bytes ++ drop size old) (length done) (omega arith)
          ∙ ap (λ t. drop t (bytes ++ drop size old)) at_end)
        ∙ take_exact bytes (drop size old) size whole

    block :
        block_at
          (receiver size start last done (bytes ++ drop size old) ((c ∷ []) ∷ reads) sent)
          bytes
        ≡ bytes
    unfolding block_at
    block =
        ap
          (λ b.
            if b then take size (drop (length done) (done ++ (bytes ++ drop size old))) else bytes)
          below
        ∙ block_taken

    fits : ltb (length (done ++ old)) (u32 (length done + size)) ≡ false
    fits = ground (arith, length-append done old, room, word)

    complete : (length bytes == size) ≡ true
    complete = ground (arith, whole)

    pub rx_block-right :
        sub_all c bytes ≡ 0
        → rx_block n (receiver size start last done old (bytes ∷ ((c ∷ []) ∷ reads)) sent) ≡ (
          ret_ok,
          record {
            block_sz = size;
            crc = false;
            start_ch = start;
            last_block = n;
            curr_off = length done + size;
            buff = done ++ (bytes ++ drop size old);
            input = reads;
            sent = sent;
          },
        )
    unfolding rx_block read head_read tail_reads checksum
    rx_block-right right = rw (got, copied, block, right, fits, complete, word) refl

    pub rx_block-wrong :
        sub_all c bytes ≢ 0
        → rx_block n (receiver size start last done old (bytes ∷ ((c ∷ []) ∷ reads)) sent)
          ≡ (error, receiver size start last done (bytes ++ drop size old) reads sent)
    unfolding rx_block read head_read tail_reads checksum
    rx_block-wrong wrong =
        let bad : (sub_all c bytes == 0) ≡ false = ground (arith, wrong) in
        rw (got, copied, block, fits, complete, bad) refl

pub rx_packet-silent :
    (s : Xmodem) (reads : List (List ℕ))
    → s.input ≡ [] ∷ reads
    → rx_packet s ≡ (timeout, record s { input = reads })
unfolding rx_packet read head_read tail_reads
rx_packet-silent s reads arrives = rw arrives refl
