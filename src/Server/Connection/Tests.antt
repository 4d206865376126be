-- ===== src/Server/Connection/Tests.antt =====
-- A connection at concrete frames.
use phonepostmix.Base.{ℕ, ◌≡◌, refl, Bool, true, false, some, List, [], ◌∷◌, ◌++◌, replicate}
use phonepostmix.Server.Queue.{Outgoing, trim, enqueue, dequeue, pop_front}
use phonepostmix.Server.Socket.{ready, write_loop, write_all}
use phonepostmix.Server.Thread.{Connection, new_connection, sent, received, send}
use phonepostmix.Server.Handshake.{handle_http}
use phonepostmix.Server.Handshake.Tests.{guarded, at_once, upgrading}
use phonepostmix.Server.Connection.{
  DrainTurn, drain_queue, take_front, arrive, PumpTurn, receive, read_frame, handle_frame,
  answer_frames, pump_incoming, RoundTurn, run,
}
use phonepostmix.Server.Connection.Draining.{Drains}
use phonepostmix.Server.Connection.Draining.Turns.{drain_queue_lem}
use phonepostmix.Server.Connection.Incoming.{Pumps, is_dead}
use phonepostmix.Server.Connection.Incoming.Pump.{pump_incoming_lem}
use phonepostmix.Server.Connection.Lifecycle.{Outcome, start, run_lem}
use phonepostmix.WebSocket.{
  new_parser, push, compact, next_frame, next_frame_loop, round, round_of, deliver, decode_frame,
  unmask,
}
use phonepostmix.WebSocket.Parser.{new_parser-IsValid}

abbrev frame_of : ℕ → Bool → Outgoing
frame_of n droppable = record { frame = replicate 2 n; droppable = droppable }

-- Audio, a control frame and audio in the queue.
abbrev streaming : Connection
streaming = record (new_connection 7 100) {
  upgraded = true;
  outgoing = record {
    queue = frame_of 1 true ∷ frame_of 2 false ∷ frame_of 3 true ∷ [];
    queued_bytes = 6;
    drops = 0;
  };
}

abbrev drain_turn : List Outgoing → DrainTurn
drain_turn arrivals = record { arrivals = arrivals; write = at_once }

-- Another thread queues a control frame behind the first write.
abbrev drain_turns : List DrainTurn
drain_turns =
    drain_turn []
    ∷ drain_turn (frame_of 9 false ∷ [])
    ∷ drain_turn []
    ∷ drain_turn []
    ∷ drain_turn []
    ∷ []

drain_queue-streaming :
    (drain_queue guarded drain_turns streaming).0
    ≡ sent (1 ∷ 1 ∷ []) ∷ sent (2 ∷ 2 ∷ []) ∷ sent (3 ∷ 3 ∷ []) ∷ sent (9 ∷ 9 ∷ []) ∷ []
unfolding drain_queue take_front arrive enqueue trim dequeue pop_front send write_all write_loop
drain_queue-streaming = refl

drain_queue_lem_example : Drains streaming drain_turns (drain_queue guarded drain_turns streaming)
drain_queue_lem_example = drain_queue_lem guarded drain_turns streaming refl

-- A masked ping with the payload 5, 6, and a masked text "Hello".
abbrev masked_ping : List ℕ
masked_ping = 0x89 ∷ 0x82 ∷ 0 ∷ 0 ∷ 0 ∷ 0 ∷ 5 ∷ 6 ∷ []

abbrev hello : List ℕ
hello = 0x48 ∷ 0x65 ∷ 0x6c ∷ 0x6c ∷ 0x6f ∷ []

abbrev masked_hello : List ℕ
masked_hello = 0x81 ∷ 0x85 ∷ 0x37 ∷ 0xfa ∷ 0x21 ∷ 0x3d ∷ 0x7f ∷ 0x9f ∷ 0x4d ∷ 0x51 ∷ 0x58 ∷ []

abbrev pump_turn : List ℕ → PumpTurn
pump_turn chunk = record { readiness = ready; chunk = chunk; arrivals = λ n. [] }

pump_incoming-effects :
    (pump_incoming guarded (pump_turn (masked_ping ++ masked_hello)) streaming).0
    ≡ received 7 hello ∷ []
unfolding pump_incoming receive read_frame handle_frame answer_frames push compact next_frame
    next_frame_loop round round_of deliver decode_frame unmask new_parser
pump_incoming-effects = refl

pump_incoming_lem_example :
    (is_dead (pump_turn (masked_ping ++ masked_hello)) ≡ true
      → pump_incoming guarded (pump_turn (masked_ping ++ masked_hello)) streaming
        ≡ ([], streaming, some false))
    × (is_dead (pump_turn (masked_ping ++ masked_hello)) ≡ false
        → Pumps guarded
            (pump_turn (masked_ping ++ masked_hello))
            streaming
            (pump_incoming guarded (pump_turn (masked_ping ++ masked_hello)) streaming))
pump_incoming_lem_example =
    pump_incoming_lem guarded (pump_turn (masked_ping ++ masked_hello)) streaming refl
      (new_parser-IsValid 100)

-- A text message, and then the exit flag.
abbrev pub round_turns : List RoundTurn
round_turns =
    record { should_exit = false; drain = drain_turn [] ∷ []; pump = pump_turn masked_hello }
    ∷ record { should_exit = true; drain = []; pump = pump_turn [] }
    ∷ []

run_lem_example :
    Outcome guarded upgrading round_turns 7 100
      (handle_http guarded upgrading (start guarded upgrading round_turns 7 100))
      (run guarded upgrading round_turns (start guarded upgrading round_turns 7 100))
run_lem_example = run_lem guarded upgrading round_turns 7 100
