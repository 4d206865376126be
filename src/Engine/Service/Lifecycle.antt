-- ===== src/Engine/Service/Lifecycle.antt =====
-- `start` and `stop` of `StreamEngine`: the engine and its server together.
use phonepostmix.Base.{
  ℕ, ◌+◌, ◌≡◌, ◌≢◌, ◌⊎◌, inl, inr, refl, sym, ◌∙◌, arith, Bool, true, false, if◌then◌else◌,
  if_intro, List, [],
}
use phonepostmix.Engine.Addresses.{IpAddress, StringOps, refresh_addresses, get_listen_url}
use phonepostmix.Engine.Assets.{Resources, resolve_asset}
use phonepostmix.Engine.Clients.{JsonOps}
use phonepostmix.Engine.Pairing.{TextOps, authorize_upgrade}
use phonepostmix.Engine.Service.{StreamEngine, start_engine, stop_engine, listen_url}
use phonepostmix.Ring.Fifo.{AbstractFifo}
use phonepostmix.Server.Stream.{
  StreamServer, port_search_range, set_upgrade_authorizer, start, stop,
}
use phonepostmix.Server.Stream.Invariant.{
  stop-IsStopped, IsStopped-IsConsistent, start-IsConsistent, kept,
}
use phonepostmix.Server.Stream.Ports.{FirstFree, AllTaken, Started, NotStarted, start_lem}
use phonepostmix.Server.Stream.Steps.{IsConsistent}
use phonepostmix.Wire.{FloatOps}

module _ (J : AbstractFifo) (F : FloatOps) (S : JsonOps) (A : StringOps) (T : TextOps) where
  abbrev pub Service : Type 0
  Service = StreamEngine J F S A T

  -- The engine's flag is the server's, the server is consistent, and no client is listed on a stopped
  -- engine.
  pub record Agrees (e : Service) : Type 0 where
    pub same_flag : e.streaming.server_running ≡ e.server.is_running
    pub consistent : IsConsistent e.server
    pub no_clients : e.streaming.server_running ≡ false → e.clients ≡ []

  -- What a call of `start` leaves, with its result.
  pub record StartsUp (binds : ℕ → Bool) (e : Service) (r : Service × Bool) : Type 0 where
    pub agrees : Agrees r.0
    pub result : r.1 ≡ r.0.streaming.server_running
    pub repeated : e.streaming.server_running ≡ true → r ≡ (e, true)
    pub first_port :
        e.streaming.server_running ≡ false
        → r.1 ≡ true
        → (r.0.streaming.discontinuity_pending ≡ true)
          × ((k : ℕ) × FirstFree binds e.streaming.settings.preferred_port port_search_range k
              × (r.0.server.bound_port ≡ e.streaming.settings.preferred_port + k))
    pub no_port : r.1 ≡ false → AllTaken binds e.streaming.settings.preferred_port port_search_range

  module _ (all : List IpAddress) (binds : ℕ → Bool) (resources : Resources) (e : Service) where
    abbrev guarded : StreamServer
    guarded = set_upgrade_authorizer (authorize_upgrade T e.token) e.server

    guarded-IsConsistent : IsConsistent e.server → IsConsistent guarded
    guarded-IsConsistent v = kept e.server guarded v refl refl refl refl refl (λ x. x) refl

    abbrev tried_with : StreamServer × Bool → Service × Bool
    tried_with r =
        let tried = record e { addresses = refresh_addresses A all; server = r.0 } in
        let streams = record tried {
          streaming = record e.streaming { server_running = true; discontinuity_pending = true };
        } in
        if r.1 then (streams, true) else (tried, false)

    tried_lem :
        (s : StreamServer) (ok : Bool)
        → Agrees e
        → e.streaming.server_running ≡ false
        → IsConsistent s
        → Started binds e.streaming.settings.preferred_port (s, ok)
          ⊎ NotStarted binds e.streaming.settings.preferred_port (s, ok)
        → StartsUp binds e (tried_with (s, ok))
    tried_lem s true a off v (inl (k, free, ok, runs, port, none_)) = record {
      agrees = record { same_flag = sym runs; consistent = v; no_clients = λ x. absurd (cc) };
      result = refl;
      repeated = λ on. absurd (cc);
      first_port = λ _ _. (refl, (k, free, port));
      no_port = λ fails. absurd (cc);
    }
    tried_lem s false a off v (inl (k, free, ok, runs, port, none_)) = absurd (cc)
    tried_lem s true a off v (inr (taken, ok, halted, none_)) = absurd (cc)
    tried_lem s false a off v (inr (taken, ok, halted, none_)) = record {
      agrees = record { same_flag = off ∙ sym halted; consistent = v; no_clients = a.no_clients };
      result = sym off;
      repeated = λ on. absurd (cc);
      first_port = λ _ succeeds. absurd (cc);
      no_port = λ _. taken;
    }

    running_lem : Agrees e → e.streaming.server_running ≡ true → StartsUp binds e (e, true)
    running_lem a on = record {
      agrees = a;
      result = sym on;
      repeated = λ _. refl;
      first_port = λ off. absurd (cc);
      no_port = λ fails. absurd (cc);
    }

    -- `start` on an engine that agrees with its server, and whose preferred port is not 0: running, it
    -- does nothing and returns true; else it returns true with a server that runs on the first port of
    -- the range that can be bound and a discontinuity pending, or false where none can be bound. The
    -- result is whether the engine runs, and the engine and the server agree on it.
    pub start_engine_lem :
        Agrees e
        → e.streaming.settings.preferred_port ≢ 0
        → StartsUp binds e (start_engine J F S A T all binds resources e)
    unfolding start_engine
    start_engine_lem a positive =
        let v = guarded-IsConsistent a.consistent in
        let port = e.streaming.settings.preferred_port in
        if_intro (StartsUp binds e) e.streaming.server_running (running_lem a) (λ off.
          tried_lem (start binds port (resolve_asset resources) true guarded).0
            (start binds port (resolve_asset resources) true guarded).1 a off
            (start-IsConsistent guarded binds port (resolve_asset resources) true v)
            (start_lem binds port (resolve_asset resources) true guarded v positive))

  pub record IsDown (t : Service) : Type 0 where
    pub off : t.streaming.server_running ≡ false
    pub server_off : t.server.is_running ≡ false
    pub none_listed : t.clients ≡ []
    pub no_connections : t.server.connections ≡ []
    pub no_port : t.server.bound_port ≡ 0
    pub server_consistent : IsConsistent t.server

  stop_engine-IsDown : (e : Service) → Agrees e → IsDown (stop_engine J F S A T e)
  unfolding stop_engine
  stop_engine-IsDown e a =
      let h = stop-IsStopped e.server a.consistent in
      if_intro IsDown e.streaming.server_running
        (λ on. record {
          off = refl;
          server_off = h.not_running;
          none_listed = refl;
          no_connections = h.no_connections;
          no_port = h.no_port;
          server_consistent = IsStopped-IsConsistent e.server (stop e.server) a.consistent h;
        })
        (λ off.
          let (_, _, port, connections) = a.consistent.idle (sym a.same_flag ∙ off) in
          record {
            off = off;
            server_off = sym a.same_flag ∙ off;
            none_listed = a.no_clients off;
            no_connections = connections;
            no_port = port;
            server_consistent = a.consistent;
          })

  url-off : (e : Service) → e.streaming.server_running ≡ false → listen_url J F S A T e ≡ []
  unfolding get_listen_url
  url-off e off = ground arith

  stop_engine-off : (e : Service) → e.streaming.server_running ≡ false → stop_engine J F S A T e ≡ e
  unfolding stop_engine
  stop_engine-off e off = simp off

  -- `stop` on an engine that agrees with its server leaves neither running, no client listed, no
  -- connection and no port, and the listen URL empty; they still agree. A second `stop` changes nothing.
  pub stop_engine_lem :
      (e : Service)
      → Agrees e
      → let t = stop_engine J F S A T e in
        IsDown t × Agrees t × (listen_url J F S A T t ≡ []) × (stop_engine J F S A T t ≡ t)
  stop_engine_lem e a =
      let t = stop_engine J F S A T e in
      let h = stop_engine-IsDown e a in
      (
        h,
        record {
          same_flag = h.off ∙ sym h.server_off;
          consistent = h.server_consistent;
          no_clients = λ _. h.none_listed;
        },
        url-off t h.off,
        stop_engine-off t h.off,
      )
