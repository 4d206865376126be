-- ===== src/Engine/Clients/Messages.antt =====
-- What a client's message changes.
use phonepostmix.Base.{ℕ, ◌==◌, ◌≡◌, refl, arith, if◌then◌else◌, Option, none, some, List, [], ◌∷◌}
use phonepostmix.Engine.Clients.{
  JsonOps, ClientInfo, take_message, change_entry, stream_text_message_received,
}

module _ (S : JsonOps) where
  -- The entry of a client.
  unfoldable pub find : ℕ → List (ClientInfo S) → Option (ClientInfo S)
  find id [] = none
  find id (c ∷ clients) = if c.id == id then some c else find id clients

  unfoldable pub client_ids : List (ClientInfo S) → List ℕ
  client_ids [] = []
  client_ids (c ∷ clients) = c.id ∷ client_ids clients

  abbrev pub changed : (ClientInfo S → ClientInfo S) → Option (ClientInfo S) → Option (ClientInfo S)
  changed f none = none
  changed f (some c) = some (f c)

  abbrev pub KeepsId : (ClientInfo S → ClientInfo S) → Type 0
  KeepsId f = (c : ClientInfo S) → (f c).id ≡ c.id

  pub take_message-KeepsId : (parsed : S.Var) → KeepsId (take_message S parsed)
  unfolding take_message
  take_message-KeepsId parsed c = ground arith

  change_entry-ids :
      (id : ℕ) (f : ClientInfo S → ClientInfo S) (cs : List (ClientInfo S))
      → KeepsId f
      → client_ids (change_entry S id f cs) ≡ client_ids cs
  unfolding change_entry client_ids
  change_entry-ids id f [] k = refl
  change_entry-ids id f (c ∷ cs) k = ground (arith, k c, change_entry-ids id f cs k)

  change_entry-find :
      (id other : ℕ) (f : ClientInfo S → ClientInfo S) (cs : List (ClientInfo S))
      → KeepsId f
      → find other (change_entry S id f cs)
        ≡ (if other == id then changed f (find other cs) else find other cs)
  unfolding change_entry find
  change_entry-find id other f [] k = ground arith
  change_entry-find id other f (c ∷ cs) k = ground (arith, k c, change_entry-find id other f cs k)

  -- A text message changes at most the entry of the client that sent it, in the way its type
  -- says; the other clients' entries and the clients' order stay, and a message that is no JSON object
  -- changes nothing.
  pub stream_text_message_received_lem :
      (id other : ℕ) (message : List ℕ) (cs : List (ClientInfo S))
      → let ds = stream_text_message_received S id message cs in
        (client_ids ds ≡ client_ids cs)
        × (find other ds ≡ (
            if other == id
            then (if S.is_object (S.parse message)
                then changed (take_message S (S.parse message)) (find other cs)
                else find other cs)
            else find other cs))
  unfolding stream_text_message_received
  stream_text_message_received_lem id other message cs =
      let parsed = S.parse message in
      let k = take_message-KeepsId parsed in
      ground (
        arith,
        change_entry-ids id (take_message S parsed) cs k,
        change_entry-find id other (take_message S parsed) cs k,
      )
