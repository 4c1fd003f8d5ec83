-- ===== src/Host/Transport.antt =====
-- host/service/src/transport.rs: what the host writes on the streams of a connection and what it reads
-- from them, as the bytes of a stream. A list of bytes to read is a whole stream, up to its end.
pub mod Frames
mod Examples
use nebula_display.Prelude.{
  ℕ, suc, zero, ◌+◌, ◌%◌, ◌^◌, Option, none, some, List, [], ◌∷◌, ◌++◌, ltb, ◌==◌, if◌then◌else◌,
  length, take, drop, Result, ok, err, get_or,
}
use nebula_display.Protocol.Bytes.{to_be_bytes, from_be_bytes}

abbrev pub max_control_frame : ℕ
max_control_frame = 4_194_304

abbrev pub frame_text : ℕ
frame_text = 0

abbrev pub frame_envelope : ℕ
frame_envelope = 1

abbrev pub uni_video : ℕ
uni_video = 0x56

abbrev pub uni_audio : ℕ
uni_audio = 0x41

-- `Inbound`, with the two violations.
pub data Inbound : Type 0 where
  envelope : List ℕ → Inbound
  closed plaintext unknown_type : Inbound

pub data ReadError : Type 0 where
  finished_early oversize : ReadError

-- `(payload.len() as u32).to_be_bytes()`, and the payload.
unfoldable pub sized : List ℕ → List ℕ
sized payload = to_be_bytes 4 (length payload % 2 ^ 32) ++ payload

-- The bytes that `write_frame`, and so `send_control`, writes.
unfoldable pub write_frame : ℕ → List ℕ → List ℕ
unfolding sized
write_frame frame_type payload = frame_type ∷ sized payload

-- The bytes of the stream that `send_video` opens and ends, and of the stream that the calls of
-- `send_audio` share.
unfoldable pub video_stream : List ℕ → List ℕ
unfolding sized
video_stream bytes = uni_video ∷ sized bytes

unfoldable pub audio_frames : List (List ℕ) → List ℕ
unfolding sized
audio_frames [] = []
audio_frames (bytes ∷ later) = sized bytes ++ audio_frames later

unfoldable pub audio_stream : List (List ℕ) → List ℕ
unfolding audio_frames
audio_stream envelopes = uni_audio ∷ audio_frames envelopes

-- The payload after a head that has been read.
unfoldable pub read_payload : ℕ → ℕ → ℕ → List ℕ → Result ReadError (Option (ℕ × List ℕ)) × List ℕ
read_payload max_len frame_type len stream =
    if ltb max_len len
    then (err oversize, stream)
    else if ltb (length stream) len
    then (err finished_early, [])
    else (ok (some (frame_type, take len stream)), drop len stream)

-- `read_frame`, with what is left of the stream.
unfoldable pub read_frame : ℕ → List ℕ → Result ReadError (Option (ℕ × List ℕ)) × List ℕ
unfolding read_payload
read_frame max_len [] = (ok none, [])
read_frame max_len (frame_type ∷ bytes) =
    if ltb (length bytes) 4
    then (err finished_early, [])
    else read_payload max_len frame_type (from_be_bytes (take 4 bytes)) (drop 4 bytes)

-- `SessionStream::next` on a QUIC stream.
unfoldable pub inbound_of : Result ReadError (Option (ℕ × List ℕ)) → Inbound
inbound_of (ok (some (frame_type, payload))) =
    if frame_type == frame_envelope
    then envelope payload
    else if frame_type == frame_text
    then plaintext
    else unknown_type
inbound_of (ok none) = closed
inbound_of (err e) = closed

unfoldable pub next_inbound : List ℕ → Inbound × List ℕ
unfolding read_frame inbound_of
next_inbound stream =
    let (result, rest) = read_frame max_control_frame stream in (inbound_of result, rest)
