-- ===== src/Editor/Status.antt =====
-- plugin/PluginEditor.cpp: the texts of the plugin's window. A character that is not ASCII is written
-- as the bytes of the source's literal.
use phonepostmix.Base.{
  ℕ, suc, ◌==◌, Bool, true, false, not, ltb, bytes_eq, ◌||◌, if◌then◌else◌, List, [], ◌∷◌, ◌++◌,
}
use phonepostmix.Base.Int.{ℤ, pos, negsuc, pos_part}
use phonepostmix.Engine.Addresses.{StringOps}
use phonepostmix.Engine.Clients.{JsonOps, ClientInfo}
use phonepostmix.Engine.Pairing.{TextOps}
use phonepostmix.Http.{bytes, decimal}
use phonepostmix.Processor.{Processor}
use phonepostmix.Ring.Fifo.{AbstractFifo}
use phonepostmix.Server.Stream.{get_num_clients}
use phonepostmix.Wire.{FloatOps}

pub data Colour : Type 0 where
  background : Colour
  panel : Colour
  text_colour : Colour
  accent_colour : Colour

pub record Button : Type 0 where
  pub text : List ℕ
  pub button_colour : Colour
  pub text_colour_off : Colour

abbrev pub dash : List ℕ
dash = 0xe2 ∷ 0x80 ∷ 0x94 ∷ []

abbrev pub middle_dot : List ℕ
middle_dot = 0xc2 ∷ 0xb7 ∷ []

abbrev pub separator : List ℕ
separator = bytes "  " ++ middle_dot ++ bytes "  "

abbrev pub triangle : List ℕ
triangle = 0xe2 ∷ 0x96 ∷ 0xb6 ∷ []

abbrev pub text_of_int : ℤ → List ℕ
text_of_int (pos n) = decimal n
text_of_int (negsuc n) = 45 ∷ decimal (suc n)

abbrev pub is_positive : ℤ → Bool
is_positive z = ltb 0 (pos_part z)

abbrev pub is_empty : List (List ℕ) → Bool
is_empty [] = true
is_empty (x ∷ xs) = false

unfoldable pub update_start_button : Bool → Button
update_start_button running =
    let stop : Button = record {
      text = bytes "STOP STREAMING";
      button_colour = panel;
      text_colour_off = text_colour;
    } in
    let start : Button = record {
      text = bytes "START STREAMING";
      button_colour = accent_colour;
      text_colour_off = background;
    } in
    if running then stop else start

module _ (S : JsonOps) where
  unfoldable pub client_row : ClientInfo S → List ℕ
  client_row c =
      let mark = if c.playing then triangle ++ bytes " " else middle_dot ++ bytes " " in
      let path = if bytes_eq c.audio_path [] then bytes "connecting" else c.audio_path in
      let buffer =
        separator
        ++ bytes "buffer "
        ++ text_of_int c.buffer_ms
        ++ bytes " / "
        ++ text_of_int c.target_ms
        ++ bytes " ms" in
      let dropouts = separator ++ text_of_int c.underruns ++ bytes " dropouts" in
      mark
      ++ path
      ++ (if is_positive c.buffer_ms then buffer else [])
      ++ (if is_positive c.underruns then dropouts else [])

  -- The loop over the clients.
  unfoldable pub client_rows : List (ClientInfo S) → List (List ℕ)
  unfolding client_row
  client_rows [] = []
  client_rows (c ∷ clients) = client_row c ∷ client_rows clients

module _ (J : AbstractFifo) (F : FloatOps) (S : JsonOps) (A : StringOps) (T : TextOps) where
  -- The server's count of dropped frames is an argument.
  unfoldable pub describe_status : ℕ → Processor J F S A T → List ℕ
  describe_status drops p =
      let clients = get_num_clients p.engine.server in
      let overruns = p.engine.streaming.ring.overruns in
      let listeners =
        if clients == 0
        then bytes "Waiting for a listener"
        else decimal clients ++ (if clients == 1 then bytes " listener" else bytes " listeners") in
      let counts =
        separator
        ++ decimal overruns
        ++ bytes " buffer overruns, "
        ++ decimal drops
        ++ bytes " frames dropped" in
      if p.start_failed
      then bytes "Could not bind a port. Another application may be using the whole range."
      else if not p.engine.streaming.server_running
      then bytes "Not streaming. Press start, then scan the code with your phone."
      else if is_empty p.engine.addresses
      then bytes "No usable network address. Are you connected to Wi-Fi or Ethernet?"
      else if ltb 0 overruns || ltb 0 drops
      then listeners ++ counts
      else listeners
