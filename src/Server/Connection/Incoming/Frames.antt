-- ===== src/Server/Connection/Incoming/Frames.antt =====
-- The loop of `pumpIncoming` over the frames that the parser gives.
use phonepostmix.Base.{
  ℕ, zero, suc, ◌<◌, ◌≡◌, inl, inr, refl, sym, ap, ◌∙◌, subst, arith, Bool, true, false, not,
  if◌then◌else◌, Option, none, some, List, [], ◌∷◌, ◌++◌, append-nil, append_assoc, length,
}
use phonepostmix.Server.Queue.{Outgoing}
use phonepostmix.Server.Queue.Order.{controls}
use phonepostmix.Server.Thread.{Owner, Connection, ◌>>=◌, return}
use phonepostmix.Server.Connection.{arrive, read_frame, handle_result, answer_frames, others}
use phonepostmix.Server.Connection.Draining.{arrive-controls}
use phonepostmix.WebSocket.{Frame, FrameParser, next_frame, unread}
use phonepostmix.WebSocket.Parser.{IsValid, Keeps, unread_shrinks, next_frame-Keeps}
use phonepostmix.Server.Connection.Incoming.{
  After, told, replies, tells, queues, is_close, has_no_close, ends_in_close, Parses, Answers,
}
use phonepostmix.Server.Connection.Incoming.Answer.{
  queue_with, handle_frame-answered, queue_with-controls,
}

module _ (o : Owner) (arrivals : ℕ → List Outgoing) where
  -- The connection with a parser, behind what other threads queue and a frame's answer.
  abbrev behind : ℕ → Connection → FrameParser → Frame → Connection
  behind fuel c q f =
      let d = others o (arrivals fuel) (record c { parser = q }) in
      record d { outgoing = queue_with o f.opcode f.payload d }

  behind-controls :
      (fuel : ℕ) (c : Connection) (q : FrameParser) (f : Frame)
      → c.upgraded ≡ true
      → controls (behind fuel c q f).outgoing.queue
        ≡ controls c.outgoing.queue ++ (controls (arrivals fuel) ++ replies f.opcode f.payload)
  behind-controls fuel c q f up =
      let d = others o (arrivals fuel) (record c { parser = q }) in
      queue_with-controls o f.opcode f.payload d up
      ∙ ap (λ a. a ++ replies f.opcode f.payload)
          (ap (λ b. controls (arrive o b (arrivals fuel) c.outgoing).queue) up
            ∙ arrive-controls o (arrivals fuel) c.outgoing)
      ∙ append_assoc (controls c.outgoing.queue) (controls (arrivals fuel))
          (replies f.opcode f.payload)

  -- What is behind `next_frame`, for its result `x`, and behind a frame, for its answer `x`.
  abbrev step : ℕ → Connection → Option (FrameParser × Option Frame) → After
  step fuel c x =
      ((λ (d : Connection). elim x [
        | none ↦ ([], d, none)
        | some (p, r) ↦ ([], record d { parser = p }, some r)
      ])
          >>= handle_result o (answer_frames fuel o arrivals) (arrivals fuel))
        c

  abbrev goes_on_from : ℕ → After → Connection → After
  goes_on_from fuel x c =
      ((λ (d : Connection). x) >>= λ goes_on.
      if goes_on then answer_frames fuel o arrivals else return false)
        c

  close_lem :
      (fuel : ℕ) (c : Connection) (q : FrameParser) (f : Frame)
      → c.upgraded ≡ true
      → IsValid q
      → next_frame c.parser ≡ some (q, some f)
      → is_close f.opcode ≡ true
      → Answers o
          (suc fuel)
          arrivals
          c
          (told o c.client_id f.opcode f.payload ++ [], behind fuel c q f, some false)
  unfolding Parses tells queues ends_in_close
  close_lem fuel c q f up v e closes = record {
    taken = f ∷ [];
    stop = q;
    parsed = (q, e, refl);
    ending = inr (simp closes, refl, refl);
    calls = refl;
    queued =
        behind-controls fuel c q f up
        ∙ ap (λ a. controls c.outgoing.queue ++ a)
            (sym (append-nil (controls (arrivals fuel) ++ replies f.opcode f.payload)));
    valid = v;
    rest_kept = refl;
  }

  more_lem :
      (fuel : ℕ) (c : Connection) (q : FrameParser) (f : Frame) (r : After)
      → c.upgraded ≡ true
      → next_frame c.parser ≡ some (q, some f)
      → is_close f.opcode ≡ false
      → Answers o fuel arrivals (behind fuel c q f) r
      → Answers o (suc fuel) arrivals c (told o c.client_id f.opcode f.payload ++ r.0, r.1, r.2)
  unfolding Parses tells queues ends_in_close has_no_close
  more_lem fuel c q f r up e goes_on more = record {
    taken = f ∷ more.taken;
    stop = more.stop;
    parsed = (q, e, more.parsed);
    ending = elim more.ending [
      | inl (calm, stopped, result) ↦
          inl
            (ap (λ b. if b then false else has_no_close more.taken) goes_on ∙ calm, stopped, result)
      | inr (closes, parser, result) ↦ inr (
        ap
              (λ b.
                if b
                then elim more.taken [ [] ↦ true | _ ∷ _ ↦ false ]
                else ends_in_close more.taken)
              goes_on
            ∙ closes,
        parser,
        result,
      )
    ];
    calls = ap (λ a. told o c.client_id f.opcode f.payload ++ a) more.calls;
    queued =
        more.queued
        ∙ ap (λ a. a ++ queues fuel arrivals more.taken) (behind-controls fuel c q f up)
        ∙ append_assoc (controls c.outgoing.queue)
            (controls (arrivals fuel) ++ replies f.opcode f.payload)
            (queues fuel arrivals more.taken);
    valid = more.valid;
    rest_kept = more.rest_kept;
  }

  frame_lem :
      (fuel : ℕ) (c : Connection) (q : FrameParser) (f : Frame)
      → c.upgraded ≡ true
      → IsValid q
      → next_frame c.parser ≡ some (q, some f)
      → Answers o fuel arrivals
          (behind fuel c q f)
          (answer_frames fuel o arrivals (behind fuel c q f))
      → Answers o (suc fuel) arrivals c (step fuel c (some (q, some f)))
  frame_lem fuel c q f up v e more =
      subst (λ x. Answers o (suc fuel) arrivals c (goes_on_from fuel x c))
        (sym (
          handle_frame-answered o f.opcode f.payload
            (others o (arrivals fuel) (record c { parser = q }))))
        (by_close (is_close f.opcode) refl)
    where
      by_close :
          (b : Bool)
          → is_close f.opcode ≡ b
          → Answers o (suc fuel) arrivals c (
              goes_on_from fuel
                (told o c.client_id f.opcode f.payload, behind fuel c q f, some (not b))
                c)
      by_close true closes = close_lem fuel c q f up v e closes
      by_close false goes_on =
          more_lem fuel c q f (answer_frames fuel o arrivals (behind fuel c q f)) up e goes_on more

  none_lem :
      (fuel : ℕ) (c : Connection) (q : FrameParser)
      → IsValid q
      → next_frame c.parser ≡ some (q, none)
      → Answers o (suc fuel) arrivals c (step fuel c (some (q, none)))
  unfolding Parses tells queues has_no_close
  none_lem fuel c q v e = record {
    taken = [];
    stop = c.parser;
    parsed = refl;
    ending = inl (refl, e, refl);
    calls = refl;
    queued = sym (append-nil (controls c.outgoing.queue));
    valid = v;
    rest_kept = refl;
  }

  pub answer_frames_lem :
      (fuel : ℕ) (c : Connection)
      → c.upgraded ≡ true
      → IsValid c.parser
      → length (unread c.parser) < fuel
      → Answers o fuel arrivals c (answer_frames fuel o arrivals c)
  unfolding answer_frames read_frame
  answer_frames_lem zero c up v h = absurd (omega arith)
  answer_frames_lem (suc fuel) c up v h =
      let (q, r, e, kept) = next_frame-Keeps c.parser v in
      subst (λ x. Answers o (suc fuel) arrivals c (step fuel c x)) (sym e)
        (by_frame q r e kept (answer_frames_lem fuel))
    where
      by_frame :
          (q : FrameParser) (r : Option Frame)
          → next_frame c.parser ≡ some (q, r)
          → Keeps c.parser q r
          → ((d : Connection)
              → d.upgraded ≡ true
              → IsValid d.parser
              → length (unread d.parser) < fuel
              → Answers o fuel arrivals d (answer_frames fuel o arrivals d))
          → Answers o (suc fuel) arrivals c (step fuel c (some (q, r)))
      by_frame q none e kept ih = none_lem fuel c q kept.valid e
      by_frame q (some f) e kept ih = frame_lem fuel c q f up kept.valid e (
          ih (behind fuel c q f) up kept.valid
            (omega (arith, h, unread_shrinks c.parser q kept.valid kept.advances kept.same_input)))
