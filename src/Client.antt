-- ===== src/Client.antt =====
-- shared/client/src/lib.rs: the connection of a client's handshake, over either transport, and how its steps
-- follow one another. What the connection delivers is a list, and `room` counts the messages that it takes
-- before it breaks.
pub mod Streams
pub mod Traffic
pub mod Handshake
pub mod Answers
pub mod Steps
pub mod Mutual
pub mod Reconnect
pub mod Serve
pub mod Pairing
mod Examples
use nebula_display.Prelude.{
  ℕ, zero, suc, Bool, true, false, not, Option, none, some, List, [], ◌∷◌, ◌++◌, if◌then◌else◌,
  list_eq, codes, Result, ok, err, ◌>>=◌, ok_or, ◌==◌,
}
use nebula_display.Protocol.Error.{ProtocolError}
use nebula_display.Protocol.Media.{Codec}
use nebula_display.Protocol.Crypto.{mac_equal, reauth_transcript, token_proof}
use nebula_display.Protocol.Envelope.{
  Sealer, Opener, new_sealer, new_opener, server_to_client, client_to_server,
}
use nebula_display.Protocol.Spake2.{Spake2Keys, Spake2Client, start, finish}
use nebula_display.Protocol.Messages.{
  ClientInfo, ServerInfo, AuthMethod, pair, pair_spake2, token_of, DisplayMode, ErrorText,
  ControlMsg, hello, hello_ack, pair_start, pair_challenge, pair_confirm, pair_result, spake2_start,
  spake2_challenge, spake2_confirm, spake2_result, auth_ok, auth_err,
}
use nebula_display.Protocol.Messages as Messages
use nebula_display.Host.Pairing.{protocol_version}
use nebula_display.Host.Handshake.{
  Primitives, pairing_key, shared_session_key, seal_blob, open_blob,
}

pub record Credentials : Type 0 where
  pub device_id : List ℕ
  pub token : List ℕ
  pub host_fingerprint : List ℕ

pub data Auth : Type 0 where
  by_pin by_pin_legacy : List ℕ → Auth
  by_token : Credentials → Auth

-- `Session`, without its transport.
pub record Session : Type 0 where
  pub sealer : Sealer
  pub opener : Opener
  pub codec : Codec
  pub mode : DisplayMode
  pub input_allowed : Bool
  pub new_credentials : Option Credentials
  pub server_fingerprint : List ℕ

-- The errors of a handshake.
pub data Failure : Type 0 where
  closed send_failed read_failed unexpected_frame not_json bad_base64 : Failure
  fingerprint_changed confirmation_failed ecdh_failed : Failure
  expected : ControlMsg → Failure
  rejected : ErrorText → Failure
  pairing_failed : Option ErrorText → Failure
  spake2_failed token_unseal : ProtocolError → Failure

-- A message of the WebSocket, and a frame of the control stream: a text stands for the message that it
-- parses to, if it does.
pub data WsItem : Type 0 where
  text : Option ControlMsg → WsItem
  close ping pong binary ws_error : WsItem

pub data QuicItem : Type 0 where
  frame : ℕ → Option ControlMsg → QuicItem
  quic_error : QuicItem

pub data Inbound : Type 0 where
  ws : List WsItem → Inbound
  quic : List QuicItem → Inbound

abbrev frame_text : ℕ
frame_text = 0

-- `recv_json`, over the WebSocket.
unfoldable pub receive_ws : List WsItem → Result Failure ControlMsg × Inbound
receive_ws [] = (err closed, ws [])
receive_ws (text m ∷ rest) = (ok_or m not_json, ws rest)
receive_ws (close ∷ rest) = (err closed, ws rest)
receive_ws (ping ∷ rest) = receive_ws rest
receive_ws (pong ∷ rest) = receive_ws rest
receive_ws (binary ∷ rest) = (err unexpected_frame, ws rest)
receive_ws (ws_error ∷ rest) = (err read_failed, ws rest)

-- `recv_json`.
unfoldable pub receive : Inbound → Result Failure ControlMsg × Inbound
unfolding receive_ws
receive (ws items) = receive_ws items
receive (quic []) = (err closed, quic [])
receive (quic (quic_error ∷ rest)) = (err read_failed, quic rest)
receive (quic (frame t m ∷ rest)) =
    (if t == frame_text then ok_or m not_json else err unexpected_frame, quic rest)

pub record Wire : Type 0 where
  pub inbound : Inbound
  pub room : ℕ

pub data Ended : Type 0 where
  connected : Session → Ended
  failed : Failure → Ended
  panicked : Ended

-- What a handshake sent, and how it ended.
pub record Run : Type 0 where
  pub sent : List ControlMsg
  pub ended : Ended

abbrev pub stop : Ended → Run
stop ended = record { sent = []; ended = ended }

-- `send_json(..).await?`, and what follows it.
unfoldable pub send_with : Wire → ControlMsg → (Wire → Run) → ℕ → Run
send_with w msg k zero = stop (failed send_failed)
send_with w msg k (suc room) =
    let run = k (record w { room = room }) in record run { sent = msg ∷ run.sent }

unfoldable pub send_json : Wire → ControlMsg → (Wire → Run) → Run
unfolding send_with
send_json w msg k = send_with w msg k w.room

-- `?` on a result, and `expect` on an option.
unfoldable pub attempt : {A : Type 0} → Result Failure A → (A → Run) → Run
attempt (err e) k = stop (failed e)
attempt (ok a) k = k a

unfoldable pub expecting : {A : Type 0} → Option A → (A → Run) → Run
expecting none k = stop panicked
expecting (some a) k = k a

-- `match ws.recv_json().await? { .. }`, and what follows it.
unfoldable pub await :
    {A : Type 0} → (ControlMsg → Result Failure A) → Wire → (Wire → A → Run) → Run
unfolding attempt receive
await view w k =
    attempt ((receive w.inbound).0 >>= view) (k (record w { inbound = (receive w.inbound).1 }))
