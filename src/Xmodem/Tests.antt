-- ===== src/Xmodem/Tests.antt =====
-- A transfer of one block after a failed attempt.
use lboot.Base.{
  ℕ, ◌≤◌, ◌<◌, ◌^◌, ◌≡◌, true, false, returns, refl, arith, List, [], ◌∷◌, length, replicate,
}
use lboot.Xmodem.{Xmodem, fatal, rx}
use lboot.Xmodem.Packets.{receiver}
use lboot.Xmodem.Session.{silence, Block, sender, sender_fuel, payload, Received, rx-Received}

abbrev one_block : List Block
one_block = record { attempts = silence [] ∷ []; bytes = replicate 128 7; whole = refl } ∷ []

abbrev empty_buffer : List ℕ
empty_buffer = replicate 200 0

one_block_fits : length (payload one_block) ≤ length empty_buffer
unfolding payload
one_block_fits = omega arith

one_block_short : length (payload one_block) < 2 ^ 31
unfolding payload
one_block_short = omega arith

-- A start character that cannot be written ends the transfer.
rx_unstarted : (s : Xmodem) → rx false 9 s ≡ returns (fatal, s)
unfolding rx
rx_unstarted s = refl

rx-Received_example :
    Received
      (payload one_block)
      (rx true (sender_fuel one_block) (receiver 0 21 0 [] empty_buffer (sender 1 one_block) []))
rx-Received_example = rx-Received 21 0 empty_buffer one_block one_block_fits one_block_short
