-- ===== src/WebSocket/Accept.antt =====
-- `makeAcceptKey`. The Base64 encoding is JUCE's, a parameter.
use phonepostmix.Base.{ℕ, List, ◌++◌}
use phonepostmix.Http.{bytes}
use phonepostmix.Sha1.{hash}

abbrev pub handshake_guid : List ℕ
handshake_guid = bytes "258EAFA5-E914-47DA-95CA-C5AB0DC85B11"

unfoldable pub make_accept_key : (List ℕ → List ℕ) → List ℕ → List ℕ
unfolding hash
make_accept_key to_base64 client_key = to_base64 (hash (client_key ++ handshake_guid))
