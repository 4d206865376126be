-- ===== src/Server/Connection/Draining/Turns.antt =====
-- The proof about the loop of `drainQueue`, turn by turn.
use phonepostmix.Base.{
  ℕ, ◌≡◌, ◌≢◌, refl, sym, ap, ◌∙◌, arith, Bool, true, false, if◌then◌else◌, Option, none, some,
  List, [], ◌∷◌, ◌++◌, append-nil, append_assoc, take,
}
use phonepostmix.Server.Queue.{Outgoing, SendQueue, dequeue}
use phonepostmix.Server.Queue.Thinning.{Thins, Thins-refl, Thins-trans, Thins-append, Thins-behind}
use phonepostmix.Server.Socket.{Written, write_all}
use phonepostmix.Server.Socket.Writing.{Sends, write_all_lem}
use phonepostmix.Server.Thread.{Owner, Connection, Effect, sent, ◌>>=◌, return, send, notes}
use phonepostmix.Server.Connection.{arrive, DrainTurn, take_front, write_front, drain_queue}
use phonepostmix.Server.Connection.Draining.{
  wire, frames, arrived, arrive-Thins, Front, dequeue-Front, Drains,
}

abbrev After : Type 0
After = List Effect × Connection × Option Bool

module _ (o : Owner) where
  -- The rest of a turn, once the write of `x` has given `w`.
  abbrev after_write : List DrainTurn → Connection → Written → After
  after_write turns c w =
      ((λ (d : Connection). (sent w.0 ∷ [], d, w.1)) >>= λ ok.
      if ok then drain_queue o turns else return false)
        c

  -- A frame that is not whole ends the loop.
  cut_off :
      (t : DrainTurn) (turns : List DrainTurn) (c d : Connection) (x : Outgoing) (out : List ℕ)
      (r : Option Bool)
      → Sends x.frame (out, r)
      → r ≢ some true
      → d ≡ record c { outgoing = d.outgoing }
      → Thins
          (c.outgoing.queue ++ t.arrivals)
          c.outgoing.drops
          (x ∷ d.outgoing.queue)
          d.outgoing.drops
      → Drains c (t ∷ turns) (sent out ∷ [], d, r)
  unfolding wire frames arrived notes
  cut_off t turns c d x out r w fails kept e = record {
    used = t ∷ [];
    left = turns;
    split = refl;
    whole = [];
    last = x ∷ [];
    count = w.count;
    one_at_most = omega arith;
    out = append-nil out ∙ w.prefix ∙ ap (take w.count) (sym (append-nil x.frame));
    fifo = rw (append-nil t.arrivals) e;
    success = λ s. absurd (fails s);
    silent = refl;
    rest_kept = kept;
  }

  whole_then :
      (t : DrainTurn) (turns : List DrainTurn) (c d : Connection) (x : Outgoing) (out : List ℕ)
      (r : After)
      → out ≡ x.frame
      → d ≡ record c { outgoing = d.outgoing }
      → Thins
          (c.outgoing.queue ++ t.arrivals)
          c.outgoing.drops
          (x ∷ d.outgoing.queue)
          d.outgoing.drops
      → Drains d turns r
      → Drains c (t ∷ turns) (sent out ∷ r.0, r.1, r.2)
  unfolding wire frames arrived notes
  whole_then t turns c d x out r w kept e more = record {
    used = t ∷ more.used;
    left = more.left;
    split = ap (◌∷◌ t) more.split;
    whole = x ∷ more.whole;
    last = more.last;
    count = more.count;
    one_at_most = more.one_at_most;
    out =
        ap (λ a. a ++ wire r.0) w
        ∙ ap (λ a. x.frame ++ a) more.out
        ∙ sym (append_assoc x.frame (frames more.whole) (take more.count (frames more.last)));
    fifo =
        rw (← append_assoc c.outgoing.queue t.arrivals (arrived more.used))
          (Thins-trans (Thins-append (arrived more.used) e) (Thins-behind x more.fifo));
    success = more.success;
    silent = more.silent;
    rest_kept =
        more.rest_kept
        ∙ ap {A = Connection} {B = Connection} (λ y. record y { outgoing = r.1.outgoing }) kept;
  }

  after_write_lem :
      (t : DrainTurn) (turns : List DrainTurn) (c d : Connection) (x : Outgoing) (w : Written)
      → Sends x.frame w
      → d ≡ record c { outgoing = d.outgoing }
      → Thins
          (c.outgoing.queue ++ t.arrivals)
          c.outgoing.drops
          (x ∷ d.outgoing.queue)
          d.outgoing.drops
      → Drains d turns (drain_queue o turns d)
      → Drains c (t ∷ turns) (after_write turns d w)
  after_write_lem t turns c d x (out, none) w kept e more =
      cut_off t turns c d x out none w (λ s. cc) kept e
  after_write_lem t turns c d x (out, some false) w kept e more =
      cut_off t turns c d x out (some false) w (λ s. cc) kept e
  after_write_lem t turns c d x (out, some true) w kept e more =
      whole_then t turns c d x out (drain_queue o turns d) (w.whole refl) kept e more

  emptied :
      (t : DrainTurn) (turns : List DrainTurn) (c d : Connection)
      → d ≡ record c { outgoing = d.outgoing }
      → Thins (c.outgoing.queue ++ t.arrivals) c.outgoing.drops d.outgoing.queue d.outgoing.drops
      → d.outgoing.queue ≡ []
      → Drains c (t ∷ turns) ([], d, some true)
  unfolding wire frames arrived notes
  emptied t turns c d kept e empty = record {
    used = t ∷ [];
    left = turns;
    split = refl;
    whole = [];
    last = [];
    count = 0;
    one_at_most = omega arith;
    out = refl;
    fifo = rw (append-nil t.arrivals) e;
    success = λ _. (refl, empty);
    silent = refl;
    rest_kept = kept;
  }

  -- A turn, by what the locked part takes from the queue `q`.
  abbrev turn_from :
      DrainTurn → List DrainTurn → Connection → SendQueue → Option (Outgoing × SendQueue) → After
  turn_from t turns c q front =
      ((λ (d : Connection). elim front [
        | none ↦ ([], record d { outgoing = q }, some none)
        | some (x, rest) ↦ ([], record d { outgoing = rest }, some (some x))
      ])
          >>= write_front (drain_queue o turns) t.write)
        c

  turn_lem :
      (t : DrainTurn) (turns : List DrainTurn) (c : Connection) (q : SendQueue)
      (front : Option (Outgoing × SendQueue))
      → Thins (c.outgoing.queue ++ t.arrivals) c.outgoing.drops q.queue q.drops
      → Front q front
      → ((rest : SendQueue)
          → Drains
              (record c { outgoing = rest })
              turns
              (drain_queue o turns (record c { outgoing = rest })))
      → Drains c (t ∷ turns) (turn_from t turns c q front)
  unfolding send
  turn_lem t turns c q none e empty more =
      emptied t turns c (record c { outgoing = q }) refl e empty
  turn_lem t turns c q (some (x, rest)) e (taken, same) more =
      after_write_lem t turns c (record c { outgoing = rest }) x
        (write_all x.frame t.write.start t.write.turns)
        (write_all_lem x.frame t.write.start t.write.turns) refl (rw (← taken, ← same) e)
        (more rest)

  -- On an upgraded connection `drainQueue` puts whole frames on the wire, and at the end perhaps
  -- the beginning of one more. The frames taken and behind them the queue that is left are the
  -- frames queued before and meanwhile, in order: none is torn, doubled or made up, and only
  -- droppable ones are missing, as many as the drop counter has grown by. Where it succeeds every
  -- frame taken is whole and the queue is empty; it calls no listener and changes nothing but the
  -- queue with its counters.
  pub drain_queue_lem :
      (turns : List DrainTurn) (c : Connection)
      → c.upgraded ≡ true
      → Drains c turns (drain_queue o turns c)
  unfolding drain_queue take_front wire frames arrived notes
  drain_queue_lem [] c up = record {
    used = [];
    left = [];
    split = refl;
    whole = [];
    last = [];
    count = 0;
    one_at_most = omega arith;
    out = refl;
    fifo = rw (append-nil c.outgoing.queue) (Thins-refl c.outgoing.queue c.outgoing.drops);
    success = λ e. cc;
    silent = refl;
    rest_kept = refl;
  }
  drain_queue_lem (t ∷ turns) c up =
      let q = arrive o c.upgraded t.arrivals c.outgoing in
      turn_lem t turns c q (dequeue q) (rw up (arrive-Thins o t.arrivals c.outgoing))
        (dequeue-Front q) (λ rest. drain_queue_lem turns (record c { outgoing = rest }) up)
