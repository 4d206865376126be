-- ===== src/Server/Connection/Incoming/Answer.antt =====
-- What `pumpIncoming` does with one frame.
use phonepostmix.Base.{
  ℕ, ◌≡◌, refl, sym, ap, ◌∙◌, true, false, not, some, List, [], ◌++◌, append-nil,
}
use phonepostmix.Server.Queue.{SendQueue, enqueue}
use phonepostmix.Server.Queue.Order.{controls}
use phonepostmix.Server.Thread.{Owner, Connection}
use phonepostmix.Server.Connection.{handle_frame}
use phonepostmix.Server.Connection.Draining.{enqueue-controls}
use phonepostmix.WebSocket.{
  Opcode, continuation, text, binary, close, ping, pong, reserved, write_frame,
}
use phonepostmix.Server.Connection.Incoming.{After, told, replies, is_close}

-- The queue behind the answer of a frame.
abbrev pub queue_with : Owner → Opcode → List ℕ → Connection → SendQueue
queue_with o ping payload c =
    enqueue c.upgraded o.queue_limit_bytes c.outgoing (write_frame [] pong payload) false
queue_with o continuation payload c = c.outgoing
queue_with o text payload c = c.outgoing
queue_with o binary payload c = c.outgoing
queue_with o close payload c = c.outgoing
queue_with o pong payload c = c.outgoing
queue_with o (reserved n) payload c = c.outgoing

abbrev pub answered : Owner → Opcode → List ℕ → Connection → After
answered o op payload c = (
  told o c.client_id op payload,
  record c { outgoing = queue_with o op payload c },
  some (not (is_close op)),
)

pub handle_frame-answered :
    (o : Owner) (op : Opcode) (payload : List ℕ) (c : Connection)
    → handle_frame o op payload c ≡ answered o op payload c
unfolding handle_frame told is_close
handle_frame-answered o continuation payload c = refl
handle_frame-answered o text payload c = refl
handle_frame-answered o binary payload c = refl
handle_frame-answered o close payload c = refl
handle_frame-answered o ping payload c = refl
handle_frame-answered o pong payload c = refl
handle_frame-answered o (reserved n) payload c = refl

pub queue_with-controls :
    (o : Owner) (op : Opcode) (payload : List ℕ) (c : Connection)
    → c.upgraded ≡ true
    → controls (queue_with o op payload c).queue ≡ controls c.outgoing.queue ++ replies op payload
unfolding replies
queue_with-controls o ping payload c up =
    ap
      (λ b.
        controls
          (enqueue b o.queue_limit_bytes c.outgoing (write_frame [] pong payload) false).queue)
      up
    ∙ enqueue-controls o.queue_limit_bytes c.outgoing
        (record { frame = write_frame [] pong payload; droppable = false })
    ∙ unfold controls in refl
queue_with-controls o continuation payload c up = sym (append-nil _)
queue_with-controls o text payload c up = sym (append-nil _)
queue_with-controls o binary payload c up = sym (append-nil _)
queue_with-controls o close payload c up = sym (append-nil _)
queue_with-controls o pong payload c up = sym (append-nil _)
queue_with-controls o (reserved n) payload c up = sym (append-nil _)
