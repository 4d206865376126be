-- ===== src/Lib.antt =====
-- A model of PhonePostMix, an audio plugin that streams a host's output to browsers on the local
-- network, and proofs about it.
--
-- The parts. The audio thread calls `StreamEngine::pushAudio`, which meters a block and writes it to
-- the ring buffer. The streaming thread (`StreamEngine::run`) takes a packet's frames from the ring,
-- puts the wire header in front, and hands the packet to the server, which queues it as a WebSocket
-- frame on every connection. What a browser sends comes back through the frame parser. The plugin's
-- processor owns the engine, hands it the host's blocks, and saves its settings.
--
-- - Base: the Boolean tests, lists over native numbers, bit tables, and two's complement.
-- - Wire (src/core/WirePacket.h, src/core/WirePacket.cpp): `write_header` and `read_header` are
--   writeHeader and readHeader, `write_samples` is writeSamples. A pointer into a buffer is an offset
--   into a list. Float is a parameter (`FloatOps`), with the laws that clipping needs (`FloatLaws`).
-- - WebSocket (src/core/WebSocketProtocol.h, src/core/WebSocketProtocol.cpp): `write_frame` is
--   writeFrame, `FrameParser` with `push` and `next_frame` the parser. The loop of `nextFrame` runs on
--   fuel, one more than the unread bytes, since every turn that goes on takes two bytes or more.
-- - Server.Queue (src/core/StreamServer.cpp): `enqueue` is Connection::enqueue, `dequeue` the take in
--   drainQueue. The loop that drops frames has the queue's length as fuel, since each turn drops one.
-- - Server.Socket, Server.Thread, Server.Handshake and Server.Connection (src/core/StreamServer.cpp): a
--   connection's thread, as a monad of effects. `write_all` is writeAll, `handle_http` handleHttp,
--   `drain_queue`, `pump_incoming`, `run` and `finish` the methods of these names. What the socket, the
--   clock, the exit flag and the other threads do in each turn of a loop is an argument, a list of
--   turns; a loop whose turns run out is still running. `answer_frames` has one turn of fuel more than
--   there are unread bytes, since each frame takes six.
-- - Server.Stream (src/core/StreamServer.h, src/core/StreamServer.cpp): `start`, `stop`, `accept` (a
--   round of Acceptor::run), `broadcast_binary` and `broadcast_text`. Server.Stream.Steps has the steps
--   of all threads in any order.
-- - Ring (src/core/AudioRingBuffer.h): `prepare`, `release`, `reset`, `write` and `read`.
--   juce::AbstractFifo is a parameter (`AbstractFifo`), its documented behaviour the record `FifoLaws`.
-- - Sha1 (src/core/Sha1.h): `update`, `finish` and `hash`. The loop of `update` has the bytes as fuel,
--   of which each turn takes one or more; the padding loop has 64, a block's bytes.
-- - Http (src/core/HttpMessage.h, src/core/HttpMessage.cpp): `parse_request`, `header`,
--   `is_web_socket_upgrade`, `mime_type_for_path` and `make_response_head`. A string is its bytes.
--   Http.Printed prints a request as a client does, to state what is read back.
-- - Engine (src/core/StreamEngine.h, src/core/StreamEngine.cpp): `set_settings`, `prepare`, `release`,
--   `set_host_playing` and `push_audio`; `round` is one turn of the loop in `run`, at given readings
--   of the clock, and `send_packet` is sendPacket. What goes to the server is a list of broadcasts.
--   `calls` puts the calls of all threads one after the other. Engine.Clients has the listener's
--   calls, with JSON as a parameter (`JsonOps`), Engine.Addresses the addresses and the listen URL,
--   Engine.Pairing authorizeUpgrade, Engine.Assets resolveAsset, and Engine.Service start and stop,
--   `start_engine` and `stop_engine`, over the server. JUCE's strings are parameters (`StringOps`,
--   `TextOps`), their documented behaviour records of laws.
-- - Processor (src/plugin/PluginProcessor.h, src/plugin/PluginProcessor.cpp): `process_block`,
--   `get_state_information`, `set_state_information` and the rest of the plugin's calls.
--   juce::ValueTree is a parameter (`ValueTreeOps`), with its laws (`ValueTreeLaws`).
-- - Qr (src/plugin/QrCodeComponent.cpp): `set_text` and `rebuild_image`. The vendored encoder and
--   juce::Image are parameters (`QrOps`, `ImageOps`), the image with its laws (`ImageLaws`).
-- - Editor (src/plugin/PluginEditor.h, src/plugin/PluginEditor.cpp): `new_editor` is the constructor,
--   `refresh_from_engine`, `push_settings_to_engine` and `timer_callback` the methods of these names,
--   `start_clicked`, `copy_clicked` and `address_changed` the handlers. Editor.Status has the texts,
--   Editor.Layout `resized`. juce::ComboBox, juce::StringArray and juce::Rectangle are parameters
--   (`ComboOps`, `ListOps`, `RectangleOps`), with their laws.
--
-- Bounds. Machine integers keep their widths by `% 2 ^ w`. Frame counts, sizes and sample rates are
-- natural numbers: a negative frames-per-packet, and a sample rate that is not whole, are left out.
-- The counts of overruns and of dropped frames are counted without their int's width, the latter on
-- each connection, where the source has one counter for all. A client id is the bits of its int. A
-- source buffer has one channel or more, as `AudioRingBuffer::write` asserts.
-- Each call is one step; what two threads do inside two calls at once is not modelled.
--
-- Not modelled: the Base64 encoding of the accept key, which is JUCE's and a parameter; a thread that
-- does not stop in time; the random pairing token; the deferred start after a state is restored, and
-- PPM_AUTOSTART. The window's fonts and painting are JUCE's calls and are left out, and so is the
-- vendored QR code generator. A session message is modelled up to its JSON text, without the constant
-- "sender".
pub mod Base
pub mod Editor
pub mod Engine
pub mod Http
pub mod Processor
pub mod Qr
pub mod Ring
pub mod Server
pub mod Sha1
pub mod WebSocket
pub mod Wire
