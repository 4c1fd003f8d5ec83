-- ===== src/Client/Streams.antt =====
-- shared/client/src/lib.rs: the streams that a host opens over QUIC, as the client reads them. A list of
-- bytes is a whole stream, up to its end.
use nebula_display.Prelude.{
  ℕ, zero, suc, ◌<◌, ◌≤◌, ◌≡◌, refl, ap, ◌∙◌, arith, false, Option, none, some, List, [], ◌∷◌, ◌++◌,
  All, ltb, ◌==◌, if◌then◌else◌, if_false, length, take, drop, append-nil, Result, ok, err,
}
use nebula_display.Protocol.Bytes.{from_be_bytes}
use nebula_display.Host.Transport.{
  uni_video, uni_audio, ReadError, finished_early, sized, video_stream, audio_frames, audio_stream,
  read_payload,
}
use nebula_display.Host.Transport.Frames.{read_payload-sized, read-sized}

abbrev pub max_media_frame : ℕ
max_media_frame = 33_554_432

-- `read_quic_frame_untyped`: a frame without the byte of its type, for which 0 stands here.
unfoldable pub read_untyped : List ℕ → Result ReadError (Option (ℕ × List ℕ)) × List ℕ
unfolding read_payload
read_untyped [] = (ok none, [])
read_untyped (b ∷ bytes) =
    if ltb (length (b ∷ bytes)) 4
    then (err finished_early, [])
    else read_payload max_media_frame 0 (from_be_bytes (take 4 (b ∷ bytes))) (drop 4 (b ∷ bytes))

-- The envelope that a read has given, if it has given one.
abbrev envelope_of : Result ReadError (Option (ℕ × List ℕ)) → Option (List ℕ)
envelope_of (ok (some (frame_type, payload))) = some payload
envelope_of _ = none

then_later : Option (List ℕ) → List (List ℕ) → List (List ℕ)
then_later none later = []
then_later (some bytes) later = bytes ∷ later

-- The loop of `read_uni` over an audio stream, for at most this number of frames.
unfoldable pub read_audio : ℕ → List ℕ → List (List ℕ)
unfolding then_later
read_audio zero stream = []
read_audio (suc k) stream =
    let (result, rest) = read_untyped stream in then_later (envelope_of result) (read_audio k rest)

-- `read_uni`: what it puts into the queue of the session.
unfoldable pub read_uni : ℕ → List ℕ → List (List ℕ)
unfolding read_audio
read_uni k [] = []
read_uni k (tag ∷ stream) =
    if tag == uni_video
    then then_later (envelope_of (read_untyped stream).0) []
    else if tag == uni_audio
    then read_audio k stream
    else []

read_untyped-long :
    (stream : List ℕ)
    → ltb (length stream) 4 ≡ false
    → read_untyped stream
      ≡ read_payload max_media_frame 0 (from_be_bytes (take 4 stream)) (drop 4 stream)
unfolding read_untyped
read_untyped-long [] h = absurd cc
read_untyped-long (b ∷ bytes) h = if_false _ _ _ h

read_untyped-sized :
    (bytes rest : List ℕ)
    → length bytes ≤ max_media_frame
    → read_untyped (sized bytes ++ rest) ≡ (ok (some (0, bytes)), rest)
read_untyped-sized bytes rest fits =
    let (long, size, after) = read-sized bytes rest (omega arith) in
    read_untyped-long (sized bytes ++ rest) long
    ∙ rw (size, after) (read_payload-sized max_media_frame 0 bytes rest fits)

read_audio-step :
    (k : ℕ) (stream bytes rest : List ℕ)
    → read_untyped stream ≡ (ok (some (0, bytes)), rest)
    → read_audio (suc k) stream ≡ bytes ∷ read_audio k rest
unfolding read_audio then_later
read_audio-step k stream bytes rest h = rw h refl

read_audio-frames :
    (envelopes : List (List ℕ)) (k : ℕ)
    → All (λ bytes. length bytes ≤ max_media_frame) envelopes
    → length envelopes < k
    → read_audio k (audio_frames envelopes) ≡ envelopes
unfolding audio_frames
read_audio-frames envelopes zero fits h = absurd (omega arith)
read_audio-frames [] (suc k) fits h = unfold read_audio read_untyped then_later in refl
read_audio-frames (bytes ∷ later) (suc k) (fit, fits) h =
    read_audio-step k (audio_frames (bytes ∷ later)) bytes (audio_frames later)
      (read_untyped-sized bytes (audio_frames later) fit)
    ∙ ap (λ z. bytes ∷ z) (read_audio-frames later k fits (omega arith))

-- A client reads from the stream of a video frame the one envelope that the host has written there, and
-- from the stream of the sound the envelopes that the host has written there, in their order. No envelope
-- is larger than the client allows; enough turns of its loop are one more than the envelopes.
pub streams_deliver :
    (bytes : List ℕ) (envelopes : List (List ℕ)) (k : ℕ)
    → length bytes ≤ max_media_frame
    → All (λ e. length e ≤ max_media_frame) envelopes
    → length envelopes < k
    → (read_uni k (video_stream bytes) ≡ bytes ∷ [])
      × (read_uni k (audio_stream envelopes) ≡ envelopes)
unfolding read_uni video_stream audio_stream then_later
streams_deliver bytes envelopes k fit fits h = (
  rw (← append-nil (sized bytes)) (rw (read_untyped-sized bytes [] fit) refl),
  read_audio-frames envelopes k fits h,
)
