-- ===== src/Server/Socket/Deadline.antt =====
-- The deadline of `writeAll`: that it ends the loop, and where it cuts it short.
use phonepostmix.Base.{
  ℕ, ◌+◌, ◌^◌, ◌≤◌, ◌<◌, ◌≡◌, ◌≢◌, arith, false, lt→ltb, none, some, List, [], ◌∷◌, ◌++◌, take,
  drop,
}
use phonepostmix.Server.Socket.{WriteTurn, Written, write_loop, write_all, deadline_from}

abbrev pub HasEnded : Written → Type 0
HasEnded w = w.1 ≢ none

write_loop-HasEnded :
    (deadline : ℕ) (bytes : List ℕ) (sent : ℕ) (out : List ℕ) (before : List WriteTurn)
    (t : WriteTurn) (after : List WriteTurn)
    → deadline < t.now
    → HasEnded (write_loop deadline bytes sent out (before ++ t ∷ after))
unfolding write_loop
write_loop-HasEnded deadline bytes sent out [] t after late = ground arith
write_loop-HasEnded deadline bytes sent out (u ∷ before) t after late = ground (
  arith,
  write_loop-HasEnded deadline bytes sent out before t after late,
  write_loop-HasEnded deadline bytes (sent + u.written) (out ++ take u.written (drop sent bytes))
      before t after late,
)

-- The loop ends at the latest in the first turn whose clock is past the deadline, whatever the socket
-- did before.
pub write_all_ends :
    (bytes : List ℕ) (start : ℕ) (before : List WriteTurn) (t : WriteTurn) (after : List WriteTurn)
    → deadline_from start < t.now
    → (write_all bytes start (before ++ t ∷ after)).1 ≢ none
unfolding write_all
write_all_ends bytes start before t after late =
    write_loop-HasEnded (deadline_from start) bytes 0 [] before t after late

-- In the last five seconds before the 32-bit clock wraps, the deadline lies behind: unless the clock
-- has wrapped by the first turn, `writeAll` of one byte or more fails at once, with nothing sent, on a
-- socket that may be writable.
pub write_all_wraps :
    (byte : ℕ) (bytes : List ℕ) (start : ℕ) (t : WriteTurn) (turns : List WriteTurn)
    → 2 ^ 32 ≤ start + 5000
    → start < 2 ^ 32
    → start ≤ t.now
    → write_all (byte ∷ bytes) start (t ∷ turns) ≡ ([], some false)
unfolding write_all
write_all_wraps byte bytes start t turns late small clock =
    let past : deadline_from start < t.now = omega arith in
    ground (arith, lt→ltb (deadline_from start) t.now past)
