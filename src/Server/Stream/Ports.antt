-- ===== src/Server/Stream/Ports.antt =====
-- `start`: which port it binds.
use phonepostmix.Base.{
  ℕ, zero, suc, ◌+◌, ◌<◌, ◌≡◌, ◌≢◌, ◌⊎◌, inl, inr, refl, ap, ◌∙◌, arith, Bool, true, false, ◌==◌,
  if_intro, if◌then◌else◌, Option, some, List, [],
}
use phonepostmix.Server.Thread.{Asset}
use phonepostmix.Server.Stream.Steps.{IsConsistent}
use phonepostmix.Server.Stream.Invariant.{stop-IsStopped}
use phonepostmix.Server.Stream.{StreamServer, stop, search_port, port_search_range, start}

-- `k` is the first offset that createListener binds, of `count`.
pub record FirstFree (binds : ℕ → Bool) (port count k : ℕ) : Type 0 where
  pub in_range : k < count
  pub is_free : binds (port + k) ≡ true
  pub first : (j : ℕ) → j < k → binds (port + j) ≡ false

abbrev pub AllTaken : (ℕ → Bool) → ℕ → ℕ → Type 0
AllTaken binds port count = (j : ℕ) → j < count → binds (port + j) ≡ false

abbrev Searched : (ℕ → Bool) → ℕ → ℕ → ℕ → ℕ → Type 0
Searched binds bound port count found =
    ((k : ℕ) × FirstFree binds port count k × (found ≡ port + k))
    ⊎ (AllTaken binds port count × (found ≡ bound))

shifted :
    (binds : ℕ → Bool) (port n : ℕ)
    → binds port ≡ false
    → ((j : ℕ) → j < n → binds (suc port + j) ≡ false)
    → (j : ℕ) → j < suc n
    → binds (port + j) ≡ false
shifted binds port n taken rest zero h = ap binds (omega arith) ∙ taken
shifted binds port n taken rest (suc j) h = ap binds (omega arith) ∙ rest j (omega arith)

search_port_lem :
    (binds : ℕ → Bool) (bound port count : ℕ)
    → Searched binds bound port count (search_port binds bound port count)
unfolding search_port
search_port_lem binds bound port zero = inr (λ j h. absurd (omega arith), refl)
search_port_lem binds bound port (suc count) =
    by_first (binds port) refl (search_port_lem binds bound (suc port) count)
  where
    by_first :
        (b : Bool) {rest : ℕ}
        → binds port ≡ b
        → Searched binds bound (suc port) count rest
        → Searched binds bound port (suc count) (if b then port else rest)
    by_first true e more = inl (
      0,
      record {
        in_range = omega arith;
        is_free = ap binds (omega arith) ∙ e;
        first = λ j h. absurd (omega arith);
      },
      omega arith,
    )
    by_first false e (inl (k, f, found)) = inl (
      suc k,
      record {
        in_range = omega (arith, f.in_range);
        is_free = ap binds (omega arith) ∙ f.is_free;
        first = shifted binds port k e f.first;
      },
      omega (arith, found),
    )
    by_first false e (inr (taken, found)) = inr (shifted binds port count e taken, found)

abbrev pub Started : (ℕ → Bool) → ℕ → StreamServer × Bool → Type 0
Started binds port (t, ok) =
    (k : ℕ) × FirstFree binds port port_search_range k
    × (ok ≡ true)
    × (t.is_running ≡ true)
    × (t.bound_port ≡ port + k)
    × (t.connections ≡ [])

abbrev pub NotStarted : (ℕ → Bool) → ℕ → StreamServer × Bool → Type 0
NotStarted binds port (t, ok) =
    AllTaken binds port port_search_range
    × (ok ≡ false)
    × (t.is_running ≡ false)
    × (t.connections ≡ [])

-- What `start` makes of the stopped server with the port that the loop has left.
abbrev started_on : StreamServer → (List ℕ → Option (Option Asset)) → Bool → ℕ → StreamServer × Bool
started_on stopped provider has_listener bound =
    let prepared = record stopped {
      owner = record stopped.owner { asset_provider = some provider; has_listener = has_listener };
      has_listening_socket = true;
      bound_port = bound;
    } in
    if bound == 0
    then (record prepared { has_listening_socket = false }, false)
    else (record prepared { is_running = true; has_acceptor = true }, true)

started_on_cases :
    (binds : ℕ → Bool) (port : ℕ) (provider : List ℕ → Option (Option Asset)) (has_listener : Bool)
    (stopped : StreamServer) (bound : ℕ)
    → port ≢ 0
    → (stopped.is_running ≡ false) × (stopped.bound_port ≡ 0) × (stopped.connections ≡ [])
    → Searched binds stopped.bound_port port port_search_range bound
    → Started binds port (started_on stopped provider has_listener bound)
      ⊎ NotStarted binds port (started_on stopped provider has_listener bound)
started_on_cases binds port provider has_listener stopped bound positive (halted, no_port, empty)
      found =
    if_intro (λ r. Started binds port r ⊎ NotStarted binds port r) (bound == 0)
      (λ e. elim found [
        | inl (k, free, here) ↦ absurd (positive (ground arith))
        | inr (taken, none_) ↦ inr (taken, refl, halted, empty)
      ])
      (λ e. elim found [
        | inl (k, free, here) ↦ inl (k, free, refl, refl, here, empty)
        | inr (taken, none_) ↦ absurd (ground arith)
      ])

-- Asked for a port other than 0, `start` on a consistent server drops its connections and binds the
-- first port that can be bound of the 20 from the one preferred; then the server runs on it and the
-- result is true. The result is false just where none of the 20 can be bound, and then the server
-- does not run.
pub start_lem :
    (binds : ℕ → Bool) (port : ℕ) (provider : List ℕ → Option (Option Asset)) (has_listener : Bool)
    (s : StreamServer)
    → IsConsistent s
    → port ≢ 0
    → let r = start binds port provider has_listener s in
      Started binds port r ⊎ NotStarted binds port r
unfolding start
start_lem binds port provider has_listener s v positive =
    let h = stop-IsStopped s v in
    let bound = search_port binds (stop s).bound_port port port_search_range in
    started_on_cases binds port provider has_listener (stop s) bound positive
      (h.not_running, h.no_port, h.no_connections)
      (search_port_lem binds (stop s).bound_port port port_search_range)
