-- ===== src/Xmodem.antt =====
-- src/storage/protocol/xmodem.c: the receiver of XMODEM packets.
-- The serial port is the list of what its reads give, one list of bytes for each call, and the
-- bytes written to it, the last one first. A call past the end of the list times out.
use lboot.Base.{
  ℕ, zero, suc, ◌+◌, ◌-◌, ◌*◌, ◌%◌, ◌^◌, ◌/◌, List, [], ◌∷◌, ◌++◌, Bool, true, false, ◌&&◌, not,
  ◌==◌, ltb, leb, if◌then◌else◌, length, take, drop, get_or, u8, u16, u32, sub_u32, bit_xor, ◌<<<◌,
  Outcome, returns, no_fuel,
}
pub mod Packets
pub mod Session
mod Tests

-- `XMODEM_RET_*`.
pub data Ret : Type 0 where
  ret_ok error fatal timeout eot : Ret

-- `_xmodem_crc16`: a bit at a time.
unfoldable pub crc_bits : ℕ → ℕ → ℕ
crc_bits zero crc = crc
crc_bits (suc n) crc =
    crc_bits n (if crc / 2 ^ 15 % 2 == 1 then u16 (crc <<< 1) else bit_xor (u16 (crc <<< 1)) 0x1021)

unfoldable pub crc16 : ℕ → List ℕ → ℕ
crc16 crc [] = crc
crc16 crc (b ∷ bs) = crc16 (crc_bits 8 (bit_xor crc (u16 (b <<< 8)))) bs

-- What the SUM check leaves of the received byte: each byte of the block subtracted, in `uint8_t`.
unfoldable pub sub_all : ℕ → List ℕ → ℕ
sub_all checksum [] = checksum
sub_all checksum (b ∷ bs) = sub_all (u8 (checksum + 2 ^ 8 - u8 b)) bs

pub record Xmodem : Type 0 where
  pub block_sz : ℕ
  pub crc : Bool
  pub start_ch : ℕ
  pub last_block : ℕ
  pub curr_off : ℕ
  pub buff : List ℕ
  pub input : List (List ℕ)
  pub sent : List ℕ

unfoldable pub head_read : List (List ℕ) → List ℕ
head_read [] = []
head_read (r ∷ rs) = r

unfoldable pub tail_reads : List (List ℕ) → List (List ℕ)
tail_reads [] = []
tail_reads (r ∷ rs) = rs

-- `proto->in.read` of `n` bytes.
unfoldable pub read : ℕ → Xmodem → List ℕ × Xmodem
read n s = (take n (head_read s.input), record s { input = tail_reads s.input })

unfoldable pub write : ℕ → Xmodem → Xmodem
write b s = record s { sent = b ∷ s.sent }

-- A block written at the offset, which is an `off_t` as its 32 bits: from 2 ^ 31 on it is negative, and
-- what lies before the buffer's start is outside of the state.
unfoldable pub put_block : ℕ → List ℕ → List ℕ → List ℕ
put_block off bytes buff =
    let inside = drop (2 ^ 32 - off) bytes in
    if ltb off (2 ^ 31)
    then take off buff ++ (bytes ++ drop (off + length bytes) buff)
    else inside ++ drop (length inside) buff

-- The memory at the offset once these bytes are written there.
unfoldable pub block_at : Xmodem → List ℕ → List ℕ
block_at s bytes =
    if ltb s.curr_off (2 ^ 31) then take s.block_sz (drop s.curr_off s.buff) else bytes

-- `_xmodem_checksum` of the block at `curr_off`; it gives whether the check passes.
unfoldable pub checksum : List ℕ → Xmodem → Bool × Xmodem
checksum block s =
    let (one, s1) = read 1 s in
    let (two, s2) = read 2 s in
    if s.crc
    then ((length two == 2) && (get_or two 0 0 + get_or two 1 0 * 2 ^ 8 == crc16 0 block), s2)
    else ((length one == 1) && (sub_all (get_or one 0 0) block == 0), s1)

-- The end of `_xmodem_rx_packet`: the block, from the check of its room on.
unfoldable pub rx_block : ℕ → Xmodem → Ret × Xmodem
rx_block block s =
    let (bytes, s1) = read s.block_sz s in
    let s2 = record s1 { buff = put_block s.curr_off bytes s.buff } in
    let (good, s3) = checksum (block_at s2 bytes) s2 in
    if ltb (length s.buff) (u32 (s.curr_off + s.block_sz))
    then (fatal, s)
    else if not (length bytes == s.block_sz)
    then (error, s2)
    else if not good
    then (error, s3)
    else (ret_ok, record s3 { curr_off = u32 (s.curr_off + s.block_sz); last_block = block })

-- A block that is sent again is read over the one before. The offset goes back by the size of the new
-- block before it is read, and stays there if that fails.
unfoldable pub reread : ℕ → Xmodem → Xmodem
reread block s =
    if not (s.curr_off == 0) && (block == s.last_block)
    then record s { curr_off = sub_u32 s.curr_off s.block_sz }
    else s

-- The checks of the header of a packet: prefix, block number and its complement.
unfoldable pub rx_head : ℕ → ℕ → ℕ → Xmodem → Ret × Xmodem
rx_head prefix block inv_block s =
    let sized = record s { block_sz = if prefix == 1 then 128 else 1024 } in
    if not (prefix == 1) && not (prefix == 2)
    then (error, s)
    else if not (block + inv_block == 255)
    then (error, sized)
    else if not (block == s.last_block) && not (block == u8 (s.last_block + 1))
    then (error, sized)
    else rx_block block (reread block sized)

unfoldable pub rx_packet : Xmodem → Ret × Xmodem
rx_packet s =
    let (pkt, s1) = read 3 s in
    if leb 1 (length pkt) && (get_or pkt 0 0 == 4)
    then (eot, s1)
    else if not (length pkt == 3)
    then (if length pkt == 0 then (timeout, s1) else (error, s1))
    else rx_head (get_or pkt 0 0) (get_or pkt 1 0) (get_or pkt 2 0) s1

-- What is left of the input is read and dropped after anything but a good packet.
unfoldable pub drain : Ret → Xmodem → Xmodem
drain ret_ok s = s
drain error s = record s { input = tail_reads s.input }
drain fatal s = record s { input = tail_reads s.input }
drain timeout s = record s { input = tail_reads s.input }
drain eot s = record s { input = tail_reads s.input }

-- The answer to a packet: ACK is 6, NAK is 21.
unfoldable pub answer : Ret → Xmodem → Xmodem
unfolding write
answer ret_ok s = write 6 s
answer eot s = write 6 s
answer error s = write 21 s
answer timeout s = if not (s.curr_off == 0) then write 21 s else write s.start_ch s
answer fatal s = s

-- The condition of the `while` of `_xmodem_rx`: the loop ends on EOT and on a fatal error.
unfoldable pub until_end : Ret → Xmodem → Outcome (Ret × Xmodem) → Outcome (Ret × Xmodem)
until_end ret_ok s rest = rest
until_end error s rest = rest
until_end timeout s rest = rest
until_end fatal s rest = returns (fatal, s)
until_end eot s rest = returns (eot, s)

-- The loop: how it ended, `eot` or `fatal`.
unfoldable pub rx_loop : ℕ → Xmodem → Outcome (Ret × Xmodem)
rx_loop zero s = no_fuel
rx_loop (suc fuel) s =
    let (ret, s1) = rx_packet s in
    let s2 = answer ret (drain ret s1) in until_end ret s2 (rx_loop fuel s2)

-- `_xmodem_rx`: the start character, and then the packets. The first argument is whether the start
-- character could be written; without it the result is -1, as at a fatal error. The other writes'
-- results are not read.
unfoldable pub rx : Bool → ℕ → Xmodem → Outcome (Ret × Xmodem)
unfolding write
rx start_written fuel s =
    let rest = rx_loop fuel (write s.start_ch s) in
    if start_written then rest else returns (fatal, s)
