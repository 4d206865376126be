-- ===== src/Engine/Service/Tests.antt =====
-- A concrete engine with its server.
use phonepostmix.Base.{refl, false, []}
use phonepostmix.Http.{bytes}
use phonepostmix.Ring.Counting.{counting}
use phonepostmix.Wire.Hundredths.{hundredths}
use phonepostmix.Engine.Tests.{live}
use phonepostmix.Engine.Addresses.Tests.{strings}
use phonepostmix.Engine.Clients.Tests.{plain_json}
use phonepostmix.Engine.Pairing.Tests.{texts}
use phonepostmix.Engine.Service.{StreamEngine}
use phonepostmix.Engine.Service.Lifecycle.{Agrees}
use phonepostmix.Server.Stream.Tests.{fresh, fresh-IsConsistent}

abbrev pub idle : StreamEngine counting hundredths plain_json strings texts
idle = record {
  streaming = record live { server_running = false };
  server = fresh;
  token = bytes "ab";
  preferred_address = [];
  addresses = [];
  clients = [];
}

pub idle-Agrees : Agrees counting hundredths plain_json strings texts idle
idle-Agrees = record { same_flag = refl; consistent = fresh-IsConsistent; no_clients = λ off. refl }
