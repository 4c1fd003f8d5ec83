-- ===== src/Protocol/Media.antt =====
-- shared/protocol/src/media.rs: video and audio frames, a fixed header before the payload.
pub mod RoundTrip
mod Examples
use Prim.Native.Nat.{bit_and}
use nebula_display.Prelude.{
  ℕ, zero, suc, ◌+◌, ◌-◌, ◌*◌, ◌/◌, ◌%◌, ◌^◌, ◌≤◌, ◌<◌, min, max, ◌≡◌, refl, sym, ap, ◌∙◌, subst,
  ◌≢◌, ◌↔◌, ◌⊎◌, inl, inr, Bool, true, false, not, ◌&&◌, ◌||◌, Option, none, some, List, [], ◌∷◌,
  ◌++◌, map, append_assoc, append-nil, arith, ltb, leb, ◌==◌, if◌then◌else◌, ltb→lt, lt→ltb, le→ltb,
  ==_iff, Bool-cases, Option-cases, length, get_or, set, take, drop, replicate, All, keep, first,
  length-append, length-set, get_or-set_self, get_or-set_ne, take-append, drop-append, length-drop,
  All-keep, All-append, take-append_eq, drop-append_eq, list_eq, list_eq→eq, list_eq_refl,
  list_eq-of_ne, Result, ok, err, ◌>>=◌, ok_or,
}
use nebula_display.Protocol.Error.{ProtocolError, malformed, crypto, replay}
use nebula_display.Protocol.Bytes.{
  IsByte, to_be_bytes, from_be_bytes, be_value, length-to_be_bytes, from_be_bytes-to_be_bytes,
  to_be_bytes-injective,
}
use nebula_display.Protocol.Envelope.{
  Channel, control, video, audio, chan_byte, channel_try_from, Direction, server_to_client,
  client_to_server, dir_byte, Aead, IsAead, u64_max, Sealer, Opener, new_sealer, new_opener,
  at_chan, concat, header, seal, seal_parts, env_counter, accept, open_on, open_envelope, nonce_for,
}

pub data Codec : Type 0 where
  jpeg h264 hevc av1 : Codec

-- `codec_to_u8` and `codec_from_u8`.
abbrev pub codec_to_u8 : Codec → ℕ
codec_to_u8 jpeg = 0
codec_to_u8 h264 = 1
codec_to_u8 hevc = 2
codec_to_u8 av1 = 3

unfoldable pub codec_from_u8 : ℕ → Result ProtocolError Codec
codec_from_u8 zero = ok jpeg
codec_from_u8 (suc zero) = ok h264
codec_from_u8 (suc (suc zero)) = ok hevc
codec_from_u8 (suc (suc (suc zero))) = ok av1
codec_from_u8 _ = err (malformed "unknown codec id")

pub record VideoFrame : Type 0 where
  pub codec : Codec
  pub keyframe : Bool
  pub seq : ℕ
  pub timestamp_us : ℕ
  pub width : ℕ
  pub height : ℕ
  pub payload : List ℕ

abbrev pub header_len : ℕ
header_len = 1 + 1 + 4 + 8 + 2 + 2

abbrev pub flag_keyframe : ℕ
flag_keyframe = 0b0000_0001

-- `&buf[from..to]`.
abbrev pub slice : List ℕ → ℕ → ℕ → List ℕ
slice buf from to = take (to - from) (drop from buf)

-- `VideoFrame::header`. The fields stand at offsets 0, 1, 2, 6, 14 and 16.
unfoldable pub video_header : VideoFrame → List ℕ
video_header f =
    codec_to_u8 f.codec
    ∷ (if f.keyframe then flag_keyframe else 0)
    ∷ (to_be_bytes 4 f.seq
        ++ (to_be_bytes 8 f.timestamp_us ++ (to_be_bytes 2 f.width ++ to_be_bytes 2 f.height)))

-- `VideoFrame::encode`.
unfoldable pub encode_video : VideoFrame → List ℕ
unfolding video_header
encode_video f = video_header f ++ f.payload

-- The fields that `VideoFrame::decode` reads once the codec is known.
abbrev pub video_fields : Codec → List ℕ → VideoFrame
video_fields codec buf = record {
  codec = codec;
  keyframe = not (bit_and (get_or buf 1 0) flag_keyframe == 0);
  seq = from_be_bytes (slice buf 2 6);
  timestamp_us = from_be_bytes (slice buf 6 14);
  width = from_be_bytes (slice buf 14 16);
  height = from_be_bytes (slice buf 16 18);
  payload = drop header_len buf;
}

-- `VideoFrame::decode`.
unfoldable pub decode_video : List ℕ → Result ProtocolError VideoFrame
decode_video buf =
    if ltb (length buf) header_len
    then err (malformed "video frame header truncated")
    else codec_from_u8 (get_or buf 0 0) >>= λ codec. ok (video_fields codec buf)

pub data AudioCodec : Type 0 where
  opus pcm_s16le : AudioCodec

abbrev pub audio_codec_to_u8 : AudioCodec → ℕ
audio_codec_to_u8 opus = 0
audio_codec_to_u8 pcm_s16le = 1

unfoldable pub audio_codec_from_u8 : ℕ → Result ProtocolError AudioCodec
audio_codec_from_u8 zero = ok opus
audio_codec_from_u8 (suc zero) = ok pcm_s16le
audio_codec_from_u8 _ = err (malformed "unknown audio codec id")

pub record AudioFrame : Type 0 where
  pub codec : AudioCodec
  pub channels : ℕ
  pub seq : ℕ
  pub timestamp_us : ℕ
  pub sample_rate : ℕ
  pub payload : List ℕ

abbrev pub audio_header_len : ℕ
audio_header_len = 1 + 1 + 4 + 8 + 4

-- `AudioFrame::header`. The fields stand at offsets 0, 1, 2, 6 and 14.
unfoldable pub audio_header : AudioFrame → List ℕ
audio_header f =
    audio_codec_to_u8 f.codec
    ∷ f.channels
    ∷ (to_be_bytes 4 f.seq ++ (to_be_bytes 8 f.timestamp_us ++ to_be_bytes 4 f.sample_rate))

-- `AudioFrame::encode`.
unfoldable pub encode_audio : AudioFrame → List ℕ
unfolding audio_header
encode_audio f = audio_header f ++ f.payload

-- `AudioFrame::decode`.
unfoldable pub decode_audio : List ℕ → Result ProtocolError AudioFrame
decode_audio buf =
    if ltb (length buf) audio_header_len
    then err (malformed "audio frame header truncated")
    else audio_codec_from_u8 (get_or buf 0 0) >>= λ codec. ok (record {
      codec = codec;
      channels = get_or buf 1 0;
      seq = from_be_bytes (slice buf 2 6);
      timestamp_us = from_be_bytes (slice buf 6 14);
      sample_rate = from_be_bytes (slice buf 14 18);
      payload = drop audio_header_len buf;
    })

-- The ranges of the fields' machine types.
pub record IsVideoFrame (f : VideoFrame) : Type 0 where
  pub seq_fits : f.seq < 2 ^ 32
  pub timestamp_fits : f.timestamp_us < 2 ^ 64
  pub width_fits : f.width < 2 ^ 16
  pub height_fits : f.height < 2 ^ 16

pub record IsAudioFrame (f : AudioFrame) : Type 0 where
  pub seq_fits : f.seq < 2 ^ 32
  pub timestamp_fits : f.timestamp_us < 2 ^ 64
  pub rate_fits : f.sample_rate < 2 ^ 32
