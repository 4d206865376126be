-- ===== src/Server/Connection/Hearing.antt =====
-- What the listener hears while the loop of `run` turns.
use phonepostmix.Base.{
  ℕ, ◌≡◌, inl, inr, refl, sym, ap, ◌∙◌, subst, Bool, true, false, Bool-cases, if_intro,
  if◌then◌else◌, Option, none, some, List, [], ◌∷◌, ◌++◌, append_assoc,
}
use phonepostmix.Server.Thread.{
  Owner, Connection, Effect, sent, connected, disconnected, received, closed, threw, Thread, ◌>>=◌,
  return, notify, notes,
}
use phonepostmix.Server.Connection.{
  DrainTurn, drain_queue, PumpTurn, pump_incoming, RoundTurn, rounds,
}
use phonepostmix.Server.Connection.Draining.Turns.{drain_queue_lem}
use phonepostmix.Server.Connection.Incoming.{told, tells, is_dead}
use phonepostmix.Server.Connection.Incoming.Pump.{pump_incoming_lem}
use phonepostmix.WebSocket.{Opcode, continuation, text, binary, close, ping, pong, reserved, Frame}
use phonepostmix.WebSocket.Parser.{IsValid}

abbrev pub Result : Type 0 → Type 0
Result A = List Effect × Connection × Option A

-- The listener's calls for text messages.
unfoldable pub heard : Owner → ℕ → List (List ℕ) → List Effect
heard o id [] = []
heard o id (m ∷ messages) = notify o (received id m) ++ heard o id messages

heard-append :
    (o : Owner) (id : ℕ) (xs ys : List (List ℕ))
    → heard o id (xs ++ ys) ≡ heard o id xs ++ heard o id ys
unfolding heard
heard-append o id [] ys = refl
heard-append o id (x ∷ xs) ys =
    ap (λ a. notify o (received id x) ++ a) (heard-append o id xs ys)
    ∙ sym (append_assoc (notify o (received id x)) (heard o id xs) (heard o id ys))

pub notes-append : (xs ys : List Effect) → notes (xs ++ ys) ≡ notes xs ++ notes ys
unfolding notes
notes-append [] ys = refl
notes-append (sent out ∷ xs) ys = notes-append xs ys
notes-append (closed ∷ xs) ys = notes-append xs ys
notes-append (threw ∷ xs) ys = notes-append xs ys
notes-append (connected id ∷ xs) ys = ap (◌∷◌ (connected id)) (notes-append xs ys)
notes-append (disconnected id ∷ xs) ys = ap (◌∷◌ (disconnected id)) (notes-append xs ys)
notes-append (received id m ∷ xs) ys = ap (◌∷◌ (received id m)) (notes-append xs ys)

-- A part of the thread of an upgraded connection: the listener only hears text messages.
pub record Hears {A : Type 0} (o : Owner) (c : Connection) (r : Result A) : Type 0 where
  pub messages : List (List ℕ)
  pub hears : notes r.0 ≡ heard o c.client_id messages
  pub valid : IsValid r.1.parser
  pub rest_kept : r.1 ≡ record c { parser = r.1.parser; outgoing = r.1.outgoing }

abbrev pub IsLive : Connection → Type 0
IsLive c = (c.upgraded ≡ true) × IsValid c.parser

Hears-return :
    {A : Type 0} (o : Owner) (c : Connection) (a : Option A) → IsLive c → Hears o c ([], c, a)
unfolding notes heard
Hears-return o c a (up, v) = record { messages = []; hears = refl; valid = v; rest_kept = refl }

pub Hears-then :
    {A B : Type 0} (o : Owner) (c : Connection) (r : Result A) (s : Result B)
    → Hears o c r
    → Hears o r.1 s
    → Hears o c (r.0 ++ s.0, s.1, s.2)
Hears-then o c r s first second = record {
  messages = first.messages ++ second.messages;
  hears =
      notes-append r.0 s.0
      ∙ ap (λ a. a ++ notes s.0) first.hears
      ∙ ap (λ a. heard o c.client_id first.messages ++ a)
          (second.hears
            ∙ ap (λ (d : Connection). heard o d.client_id second.messages) first.rest_kept)
      ∙ sym (heard-append o c.client_id first.messages second.messages);
  valid = second.valid;
  rest_kept =
      second.rest_kept
      ∙ ap {A = Connection} {B = Connection}
          (λ d. record d { parser = s.1.parser; outgoing = s.1.outgoing }) first.rest_kept;
}

Hears-IsLive :
    {A : Type 0} (o : Owner) (c : Connection) (r : Result A) → IsLive c → Hears o c r → IsLive r.1
Hears-IsLive o c r (up, v) h = (ap (λ (d : Connection). d.upgraded) h.rest_kept ∙ up, h.valid)

Hears-bind :
    {A B : Type 0} (o : Owner) (m : Thread A) (f : A → Thread B) (c : Connection)
    → IsLive c
    → Hears o c (m c)
    → ((a : A) (d : Connection) → IsLive d → Hears o d (f a d))
    → Hears o c ((m >>= f) c)
Hears-bind {A} {B} o m f c live first rest = go (m c) first
  where
    go : (r : Result A) → Hears o c r → Hears o c (((λ (d : Connection). r) >>= f) c)
    go (effects, d, none) h = record {
      messages = h.messages;
      hears = h.hears;
      valid = h.valid;
      rest_kept = h.rest_kept;
    }
    go (effects, d, some a) h =
        Hears-then o c (effects, d, some a) (f a d) h
          (rest a d (Hears-IsLive o c (effects, d, some a) live h))

drain-Hears :
    (o : Owner) (turns : List DrainTurn) (c : Connection)
    → IsLive c
    → Hears o c (drain_queue o turns c)
unfolding heard
drain-Hears o turns c (up, v) =
    let d = drain_queue_lem o turns c up in
    let same = ap (λ (x : Connection). x.parser) d.rest_kept in
    record {
      messages = [];
      hears = d.silent;
      valid = subst IsValid (sym same) v;
      rest_kept =
          d.rest_kept
          ∙ ap {B = Connection}
              (λ p. record c { parser = p; outgoing = (drain_queue o turns c).1.outgoing })
              (sym same);
    }

pub notes-notify :
    (o : Owner) (e : Effect) → notes (e ∷ []) ≡ e ∷ [] → notes (notify o e) ≡ notify o e
unfolding notes
notes-notify o e h = if_intro (λ x. notes x ≡ x) o.has_listener (λ _. h) (λ _. refl)

tells-heard :
    (o : Owner) (id : ℕ) (fs : List Frame)
    → (messages : List (List ℕ)) × (notes (tells o id fs) ≡ heard o id messages)
unfolding tells told heard notes
tells-heard o id [] = ([], refl)
tells-heard o id (f ∷ fs) = by_opcode f.opcode (tells-heard o id fs)
  where
    by_opcode :
        (op : Opcode)
        → ((messages : List (List ℕ)) × (notes (tells o id fs) ≡ heard o id messages))
        → (messages : List (List ℕ)) × (notes (told o id op f.payload ++ tells o id fs)
            ≡ heard o id messages)
    by_opcode text (messages, e) = (
      f.payload ∷ messages,
      notes-append (notify o (received id f.payload)) (tells o id fs)
          ∙ ap (λ a. a ++ notes (tells o id fs)) (notes-notify o (received id f.payload) refl)
          ∙ ap (λ a. notify o (received id f.payload) ++ a) e,
    )
    by_opcode continuation more = more
    by_opcode binary more = more
    by_opcode close more = more
    by_opcode ping more = more
    by_opcode pong more = more
    by_opcode (reserved n) more = more

pump-Hears :
    (o : Owner) (t : PumpTurn) (c : Connection) → IsLive c → Hears o c (pump_incoming o t c)
pump-Hears o t c (up, v) = elim (Bool-cases (is_dead t)) [
  | inl dead ↦
      subst (Hears o c) (sym ((pump_incoming_lem o t c up v).0 dead))
        (Hears-return o c (some false) (up, v))
  | inr alive ↦
      let a = (pump_incoming_lem o t c up v).1 alive in
      let (messages, e) = tells-heard o c.client_id a.taken in
      record {
        messages = messages;
        hears = ap notes a.calls ∙ e;
        valid = a.valid;
        rest_kept = a.rest_kept;
      }
]

abbrev AllHear : Owner → Thread (Unit {0}) → Type 0
AllHear o m = (c : Connection) → IsLive c → Hears o c (m c)

if-AllHear :
    (o : Owner) (b : Bool) (m k : Thread (Unit {0}))
    → AllHear o m
    → AllHear o k
    → AllHear o (if b then m else k)
if-AllHear o true m k x y = x
if-AllHear o false m k x y = y

return-AllHear : (o : Owner) → AllHear o (return tt)
return-AllHear o c live = Hears-return o c (some tt) live

pub rounds-Hears : (o : Owner) (turns : List RoundTurn) → AllHear o (rounds o turns)
unfolding rounds
rounds-Hears o [] = λ c live. Hears-return o c none live
rounds-Hears o (t ∷ turns) =
    let stop : Thread (Unit {0}) = return tt in
    let pumped_then : Bool → Thread (Unit {0}) =
      λ pumped. if pumped then rounds o turns else stop in
    let pumping : Thread (Unit {0}) = pump_incoming o t.pump >>= pumped_then in
    let drained_then : Bool → Thread (Unit {0}) = λ drained. if drained then pumping else stop in
    let pumping_hears : AllHear o pumping = λ c live.
      Hears-bind o (pump_incoming o t.pump) pumped_then c live (pump-Hears o t.pump c live)
        (λ pumped.
          if-AllHear o pumped (rounds o turns) stop (rounds-Hears o turns) (return-AllHear o)) in
    if-AllHear o t.should_exit stop (drain_queue o t.drain >>= drained_then) (return-AllHear o)
      (λ c live.
        Hears-bind o (drain_queue o t.drain) drained_then c live (drain-Hears o t.drain c live)
          (λ drained. if-AllHear o drained pumping stop pumping_hears (return-AllHear o)))
