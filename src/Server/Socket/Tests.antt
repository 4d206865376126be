-- ===== src/Server/Socket/Tests.antt =====
-- `writeAll` at concrete sockets.
use phonepostmix.Base.{ℕ, ◌≡◌, refl, arith, true, false, some, List, [], ◌∷◌}
use phonepostmix.Server.Socket.{Ready, failed, not_yet, ready, WriteTurn, write_loop, write_all}
use phonepostmix.Server.Socket.Writing.{Sends, write_all_lem}
use phonepostmix.Server.Socket.Deadline.{write_all_wraps}

abbrev turn : Ready → ℕ → ℕ → WriteTurn
turn r now written = record { should_exit = false; now = now; readiness = r; written = written }

-- Two bytes, a wait, three bytes.
abbrev slow : List WriteTurn
slow = turn ready 1000 2 ∷ turn not_yet 1003 0 ∷ turn ready 1004 3 ∷ []

write_all-slow : write_all (1 ∷ 2 ∷ 3 ∷ 4 ∷ 5 ∷ []) 1000 slow ≡ (1 ∷ 2 ∷ 3 ∷ 4 ∷ 5 ∷ [], some true)
unfolding write_all write_loop
write_all-slow = refl

write_all-broken :
    write_all (1 ∷ 2 ∷ 3 ∷ []) 1000 (turn ready 1000 2 ∷ turn failed 1001 0 ∷ [])
    ≡ (1 ∷ 2 ∷ [], some false)
unfolding write_all write_loop
write_all-broken = refl

write_all_lem_example :
    Sends (1 ∷ 2 ∷ 3 ∷ 4 ∷ 5 ∷ []) (write_all (1 ∷ 2 ∷ 3 ∷ 4 ∷ 5 ∷ []) 1000 slow)
write_all_lem_example = write_all_lem (1 ∷ 2 ∷ 3 ∷ 4 ∷ 5 ∷ []) 1000 slow

write_all_wraps_example :
    write_all (7 ∷ []) 4294962297 (turn ready 4294962297 1 ∷ []) ≡ ([], some false)
write_all_wraps_example =
    write_all_wraps 7 [] 4294962297 (turn ready 4294962297 1) [] (omega arith) (omega arith)
      (omega arith)
