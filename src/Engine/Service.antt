-- ===== src/Engine/Service.antt =====
-- `start` and `stop` of `StreamEngine`, over the streaming part, the server and the client list. What
-- the system tells, the addresses and the ports that can be bound, is an argument.
pub mod Lifecycle
pub mod Tests
use phonepostmix.Base.{ℕ, Bool, true, false, not, if◌then◌else◌, Option, none, some, List, [], ◌∷◌}
use phonepostmix.Engine.{Engine}
use phonepostmix.Engine.Addresses.{
  IpAddress, StringOps, refresh_addresses, get_preferred_address, get_listen_url,
}
use phonepostmix.Engine.Assets.{Resources, resolve_asset}
use phonepostmix.Engine.Clients.{JsonOps, ClientInfo}
use phonepostmix.Engine.Pairing.{TextOps, authorize_upgrade}
use phonepostmix.Ring.Fifo.{AbstractFifo}
use phonepostmix.Server.Stream
use phonepostmix.Server.Stream.{StreamServer, set_upgrade_authorizer, start, stop}
use phonepostmix.Server.Thread.{Asset}
use phonepostmix.Wire.{FloatOps}

module _ (J : AbstractFifo) (F : FloatOps) (S : JsonOps) (A : StringOps) (T : TextOps) where
  pub record StreamEngine : Type 0 where
    pub streaming : Engine J F
    pub server : StreamServer
    pub token : List ℕ
    pub preferred_address : List ℕ
    pub addresses : List (List ℕ)
    pub clients : List (ClientInfo S)

  unfoldable pub start_engine :
      List IpAddress → (ℕ → Bool) → Resources → StreamEngine → StreamEngine × Bool
  start_engine all binds resources e =
      let provider = resolve_asset resources in
      let guarded = set_upgrade_authorizer (authorize_upgrade T e.token) e.server in
      let r = start binds e.streaming.settings.preferred_port provider true guarded in
      let tried = record e { addresses = refresh_addresses A all; server = r.0 } in
      let streams = record tried {
        streaming = record e.streaming { server_running = true; discontinuity_pending = true };
      } in
      if e.streaming.server_running
      then (e, true)
      else if r.1
      then (streams, true)
      else (tried, false)

  -- The streaming thread is joined before the server stops.
  unfoldable pub stop_engine : StreamEngine → StreamEngine
  stop_engine e =
      let stopped = record e {
        streaming = record e.streaming { server_running = false };
        server = stop e.server;
        clients = [];
      } in
      if e.streaming.server_running then stopped else e

  abbrev pub set_preferred_address : List ℕ → StreamEngine → StreamEngine
  set_preferred_address address e = record e { preferred_address = address }

  abbrev pub preferred_address_of : StreamEngine → List ℕ
  preferred_address_of e = get_preferred_address A e.preferred_address e.addresses

  abbrev pub listen_url : StreamEngine → List ℕ
  listen_url e =
      get_listen_url A e.token e.preferred_address e.addresses e.streaming.server_running
        e.server.bound_port
