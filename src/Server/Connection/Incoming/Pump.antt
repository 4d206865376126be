-- ===== src/Server/Connection/Incoming/Pump.antt =====
-- `pumpIncoming` as a whole: its read, and the frames behind it.
use phonepostmix.Base.{
  suc, ◌≡◌, sym, ap, subst, arith, true, false, if◌then◌else◌, some, [], length,
}
use phonepostmix.Server.Socket.{Ready, failed, not_yet, ready}
use phonepostmix.Server.Thread.{Owner, Connection, ◌>>=◌, return}
use phonepostmix.Server.Connection.{PumpTurn, receive, pump_incoming, all_frames}
use phonepostmix.WebSocket.{FrameParser, push, unread}
use phonepostmix.WebSocket.Parser.{IsValid, push-unread}
use phonepostmix.Server.Connection.Incoming.{After, Pumps, is_dead, fed}
use phonepostmix.Server.Connection.Incoming.Frames.{answer_frames_lem}

receive-dead :
    (t : PumpTurn) (c : Connection) → is_dead t ≡ true → receive t c ≡ ([], c, some false)
unfolding receive
receive-dead t c h = ground arith

receive-alive :
    (t : PumpTurn) (c : Connection)
    → is_dead t ≡ false
    → receive t c ≡ ([], record c { parser = fed t c.parser }, some true)
unfolding receive
receive-alive t c h = ground arith

fed-IsValid : (t : PumpTurn) (p : FrameParser) → IsValid p → IsValid (fed t p)
fed-IsValid t p v = go t.readiness
  where
    go : (r : Ready) → IsValid (elim r [ failed ↦ p | not_yet ↦ p | ready ↦ push p t.chunk ])
    go failed = v
    go not_yet = v
    go ready = (push-unread p t.chunk v).0

module _ (o : Owner) (t : PumpTurn) (c : Connection) where
  -- `pumpIncoming` behind its read, which has given `x`.
  abbrev behind_read : After → After
  behind_read x = ((λ (d : Connection). x) >>= λ ok. if ok then all_frames o t else return false) c

  -- `pumpIncoming` of an upgraded connection with a valid parser always comes to an end: where the
  -- socket has failed or is at its end it gives up and changes nothing; otherwise it takes the
  -- frames that `nextFrame` gives one by one, up to and with the first close frame. The listener
  -- gets the payload of each text frame in order, and a pong with each ping's payload goes behind
  -- the control frames of the queue, in order with those that other threads queue meanwhile. A
  -- close frame and a parser error give false, everything else true, and the parser stays valid.
  pub pump_incoming_lem :
      c.upgraded ≡ true
      → IsValid c.parser
      → (is_dead t ≡ true → pump_incoming o t c ≡ ([], c, some false))
        × (is_dead t ≡ false → Pumps o t c (pump_incoming o t c))
  unfolding pump_incoming
  pump_incoming_lem up v = (
    λ dead. ap behind_read (receive-dead t c dead),
    λ alive.
        subst (λ x. Pumps o t c (behind_read x)) (sym (receive-alive t c alive))
          (answer_frames_lem o t.arrivals (suc (length (unread (fed t c.parser))))
            (record c { parser = fed t c.parser }) up (fed-IsValid t c.parser v) (omega arith)),
  )
