-- ===== src/Lib.antt =====
-- NebulaDisplay is a host service that streams a display to viewers on the local network, over its own
-- protocol (NDSP). This library models the parts of the Rust code that decide who may connect, what a
-- connection may do, and what its bytes mean, and proves what makes these parts correct. The parts and
-- their files:
--
-- Protocol: shared/protocol/src, the wire format that host and viewers share.
--   Protocol/Bytes       `to_be_bytes` and `from_be_bytes`.
--   Protocol/Error       lib.rs, `ProtocolError`.
--   Protocol/Envelope    envelope.rs: `Sealer::seal_parts` and `Opener::open` as functions on the state of
--                        the sealer and the opener. A panic of the sealer is `none`. Below it: Sync (the
--                        two ends in step), Stream (whole streams with losses), Replay, Nonces.
--   Protocol/Media       media.rs: headers, encoders and decoders of video and audio frames.
--   Protocol/Crypto      crypto.rs: `token_proof`, `reauth_transcript`; the comparison `mac_equal` of
--                        spake2.rs, which trust.rs has too.
--   Protocol/Spake2      spake2.rs: the password-authenticated exchange. Below it: Agreement, Framing.
--   Protocol/Messages    messages.rs: the messages of the handshake, and the data types they carry.
--                        (Those of a session are in Host/Control.)
--   Protocol/Files       files.rs: `sanitize_filename`, `unique_destination`. Below it: Names, Destination.
--   Protocol/Samples     concrete parameters for the examples; Host/Samples too.
-- Host: host/service/src.
--   Host/Pin             pin.rs: `PinManager`, and `generate_pin` of crypto.rs. Below it: Validity (the life
--                        of a PIN), Lockout (what an address may open).
--   Host/Trust           trust.rs: `TrustStore`. Below it: Lookup, Auth (reconnects), Grants.
--   Host/Handshake       pairing.rs: the state of a handshake; and the keys and blobs of crypto.rs.
--   Host/Spake2Arm       pairing.rs: the arms of `ServerHandshake::process` for SPAKE2.
--   Host/PinArm          pairing.rs: its arms for the older pairing, and for the start of a key exchange.
--   Host/Pairing         pairing.rs: `ServerHandshake::process`, with the other arms. Together they call
--                        Host/Pin, Host/Trust and Protocol/Spake2. Below it: Completion, Limits.
--   Host/Clipboard       clipboard.rs: `ClipboardSync`. Below it: Changes.
--   Host/Touch           input/touch_frame.rs: `TouchTracker`. Below it: Contacts, Tracking, Frames.
--   Host/Adapt           adapt.rs: `AdaptiveController`. Below it: Range, Cooldown, Recovery.
--   Host/Transfers       transfers.rs: `TransferManager`. Below it: Answers.
--   Host/Control         messages.rs: the messages of an established session, and what they carry.
--   Host/Session         session.rs: `Session` is `Shared` with the parts of `AppState` that a session
--                        changes. Below it:
--     Audio              the audio switch and the count of listeners; Listeners.
--     Inbound            `open_transfer`, `apply_chunk`, `finalize_transfer` and their arms.
--     Arrivals           what they promise of a file.
--     Outbound           `SendFile`, the answers to it, and `send_file_chunks`; Spool, Streaming (with
--                        Viewer/Receive at the other end).
--     Pump               `incoming_pump`. It calls Host/Transfers, Host/Clipboard, Host/Adapt.
--     Grants             what the pump may do.
--     Commands           the supervisor's loop of `run`, and what it undoes at the end.
--     Video              `video_task`; Keyframes.
--   Host/State           state.rs: the live clients of `AppState`. Below it: Census, Overlaps
--                        (its Moves, Accounts), Pushes.
--   Host/Transport       transport.rs: the bytes on the streams of QUIC. Below it: Frames.
--   Host/Dirty           encode/dirty.rs: `DirtyTracker`, `DirtyMap`. Below it: Exact, Bounds.
-- Viewer: viewer/desktop/src.
--   Viewer/Receive       receive.rs: `FileReceiver`. Below it: Consistency, Integrity.
-- Client: shared/client/src/lib.rs.
--   Client               the connection of a handshake: what it delivers, `send_json` and `recv_json`, and
--                        how a step is followed by the next, a continuation. Below it:
--     Handshake          `handshake`. Each message that it waits for is matched by a function (`ack_of`,
--                        `share_of`, ..).
--     Answers, Steps     rules for what a handshake has established when it connects.
--     Mutual, Reconnect  the pairing by SPAKE2, the reconnect with a token.
--     Serve, Pairing     the host's answers to a client (Host/Pairing), and the two sides joined.
--     Streams            `read_uni`: the streams that the host opens (Host/Transport).
--     Traffic            `Session::recv` and `Session::send`; Latest.
-- Prelude: Boolean tests, lists, results and association lists over the native numbers, with their lemmas.
--
-- State is passed along explicitly: a method takes the state and returns the new one. Another connection
-- may act between any two steps of a handshake, which the theorems allow by taking the host's state anew at
-- every step. A method of the host that takes several locks one after another is still one step, except
-- where a theorem is about what comes between: the gate of a PIN and the failures are apart in Host/Pin,
-- a send is queued and taken in two steps in Outbound/Spool, and State/Overlaps interleaves the locked
-- steps of registrations. A byte, a code of a text and an address are numbers, a map is an association
-- list. Clocks read milliseconds, and what is read of a clock, drawn at random or reported by a file system is an argument. A sum that can wrap is
-- written with its modulus; bounds of the others are theorems or hypotheses.
--
-- Parameters stand for third-party code: `Aead` (AES-256-GCM; that it opens what it sealed is `IsAead`),
-- `Hasher` (SHA-256), `Kdf` (HKDF and HMAC), `Curve` (P-256; its laws are `IsCurve`), `Hex`, `F32` (the
-- arithmetic of f32; `IsF32` says that 0.7 times a bitrate, truncated, does not exceed it), and
-- `Primitives`, which collects those of a handshake with ECDH and base64. Loops that may run out of tries
-- (256 in spake2.rs) return `none` where the code panics; the 9,999 tries of files.rs are those of the code,
-- and 20 digits are enough for its numbers, which fit a u64. The loop of `send_file_chunks` has fuel, of
-- which one more than the bytes of the file is enough (`sender_ends`). No other function is limited by
-- fuel. The tasks of a session run at once in the code; a handler of one is one step here. In particular
-- the end of a session is a step: in the code the pump may still handle a message after it.
--
-- Not modelled: sockets, TLS, QUIC, the panel's HTTP, capture, codecs, audio and input interfaces of the
-- systems, discovery, configuration and key files; of a session the writer and audio tasks and its waits;
-- of the client library the merging of QUIC streams; the viewers in other languages; the
-- Windows driver.
pub mod Prelude
pub mod Protocol
pub mod Host
pub mod Viewer
pub mod Client
