-- ===== src/Client/Traffic.antt =====
-- shared/client/src/lib.rs: an established session of a client, `send` and `recv`. The messages of the
-- session are a parameter, with their JSON form.
pub mod Latest
use nebula_display.Prelude.{
  ℕ, Bool, true, false, ◌&&◌, Option, none, some, List, [], ◌∷◌, ◌==◌, if◌then◌else◌, Result, ok,
  err,
}
use nebula_display.Protocol.Error.{ProtocolError, replay}
use nebula_display.Protocol.Media.{VideoFrame, decode_video, AudioFrame, decode_audio}
use nebula_display.Protocol.Envelope.{
  Channel, control, video, audio, chan_byte, Aead, Sealer, Opener, seal, open_envelope,
}

pub data Incoming (M : Type 0) : Type 0 where
  video_frame : VideoFrame → Incoming M
  audio_frame : AudioFrame → Incoming M
  control_msg : M → Incoming M
  closed : Incoming M

pub data TrafficError : Type 0 where
  envelope_error frame_error audio_error : ProtocolError → TrafficError
  bad_message read_failed send_failed no_json : TrafficError

-- What the WebSocket delivers.
pub data WsData : Type 0 where
  binary : List ℕ → WsData
  close other ws_failed : WsData

abbrev is_replay : {A : Type 0} → Result ProtocolError A → Bool
is_replay (err replay) = true
is_replay _ = false

-- `data.first() == Some(&(Channel::Video as u8))`.
abbrev on_video : List ℕ → Bool
on_video [] = false
on_video (b ∷ bytes) = b == chan_byte video

module _ (c : Aead) (M : Type 0) (parse : List ℕ → Option M) where
  video_of : Result ProtocolError VideoFrame → Result TrafficError (Incoming M)
  video_of (ok f) = ok (video_frame f)
  video_of (err e) = err (frame_error e)

  audio_of : Result ProtocolError AudioFrame → Result TrafficError (Incoming M)
  audio_of (ok f) = ok (audio_frame f)
  audio_of (err e) = err (audio_error e)

  message_of : Option M → Result TrafficError (Incoming M)
  message_of (some m) = ok (control_msg m)
  message_of none = err bad_message

  -- The end of `recv`: what has been opened is decoded.
  unfoldable pub incoming_of :
      Result ProtocolError (Channel × List ℕ) → Result TrafficError (Incoming M)
  unfolding video_of audio_of message_of
  incoming_of (err e) = err (envelope_error e)
  incoming_of (ok (video, pt)) = video_of (decode_video pt)
  incoming_of (ok (control, pt)) = message_of (parse pt)
  incoming_of (ok (audio, pt)) = audio_of (decode_audio pt)

  -- `recv` over the WebSocket, and over QUIC, where what the queue holds is a list of envelopes: the
  -- opener, what is left, and the result.
  unfoldable pub recv_ws :
      Opener → List WsData → Opener × List WsData × Result TrafficError (Incoming M)
  unfolding incoming_of
  recv_ws o [] = (o, [], ok closed)
  recv_ws o (binary bytes ∷ rest) =
      let (o', opened) = open_envelope c o bytes in (o', rest, incoming_of opened)
  recv_ws o (close ∷ rest) = (o, rest, ok closed)
  recv_ws o (other ∷ rest) = recv_ws o rest
  recv_ws o (ws_failed ∷ rest) = (o, rest, err read_failed)

  unfoldable pub recv_quic :
      Opener → List (List ℕ) → Opener × List (List ℕ) × Result TrafficError (Incoming M)
  unfolding incoming_of
  recv_quic o [] = (o, [], ok closed)
  recv_quic o (bytes ∷ rest) =
      let (o', opened) = open_envelope c o bytes in
      let later = recv_quic o' rest in
      if is_replay opened && on_video bytes then later else (o', rest, incoming_of opened)

  -- `Session::send`, for a message with this JSON form; `none` is a panic of the sealer.
  unfoldable pub send_message :
      Sealer → Option (List ℕ) → Bool → Option (Sealer × Result TrafficError (List ℕ))
  send_message s none writes = some (s, err no_json)
  send_message s (some json) writes = elim (seal c s control json) [
    | none ↦ none
    | some (s', env) ↦ some (s', if writes then ok env else err send_failed)
  ]
