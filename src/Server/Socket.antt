-- ===== src/Server/Socket.antt =====
-- `writeAll` of `StreamServer::Connection`. What juce::StreamingSocket, the clock and the exit flag
-- answer in each turn of the loop is an argument: the list of the turns. Where the list ends before
-- the loop does, the loop is still running.
pub mod Writing
pub mod Deadline
mod Tests
use phonepostmix.Base.{
  ℕ, ◌+◌, ◌%◌, ◌^◌, Bool, true, false, not, ltb, ◌==◌, if◌then◌else◌, Option, none, some, List, [],
  ◌∷◌, ◌++◌, length, take, drop,
}

-- What waitUntilReady returns: below 0, 0, above 0.
pub data Ready : Type 0 where
  failed not_yet ready : Ready

-- A turn of the loop. `written` is what `write` returns, with 0 for all that is not above 0.
pub record WriteTurn : Type 0 where
  pub should_exit : Bool
  pub now : ℕ
  pub readiness : Ready
  pub written : ℕ

abbrev pub write_deadline_ms : ℕ
write_deadline_ms = 5000

-- What has gone out, and the result, or `none` while the loop is running.
abbrev pub Written : Type 0
Written = List ℕ × Option Bool

-- The loop, at `sent` bytes sent, which are `out`.
unfoldable pub write_loop : ℕ → List ℕ → ℕ → List ℕ → List WriteTurn → Written
write_loop deadline bytes sent out [] =
    if ltb sent (length bytes) then (out, none) else (out, some true)
write_loop deadline bytes sent out (t ∷ turns) =
    let waits = write_loop deadline bytes sent out turns in
    let goes_on =
      write_loop deadline bytes (sent + t.written) (out ++ take t.written (drop sent bytes))
        turns in
    let tried : Written = elim t.readiness [
      | failed ↦ (out, some false)
      | not_yet ↦ waits
      | ready ↦ if t.written == 0 then (out, some false) else goes_on
    ] in
    if not (ltb sent (length bytes))
    then (out, some true)
    else if t.should_exit
    then (out, some false)
    else if ltb deadline t.now
    then (out, some false)
    else tried

-- `start` is the clock before the loop; it counts milliseconds in 32 bits, and so does the sum.
abbrev pub deadline_from : ℕ → ℕ
deadline_from start = (start + write_deadline_ms) % 2 ^ 32

unfoldable pub write_all : List ℕ → ℕ → List WriteTurn → Written
unfolding write_loop
write_all bytes start turns = write_loop (deadline_from start) bytes 0 [] turns
