-- ===== src/Protocol/Media/Examples.antt =====
-- Runs of the theorems on frames.
use nebula_display.Prelude.{◌≡◌, true, some, [], ◌∷◌, arith, nat_eq, text_eq, ok}
use nebula_display.Protocol.Envelope.{Aead}
use nebula_display.Protocol.Media.{hevc, VideoFrame, encode_video, decode_video, opus, AudioFrame}
use nebula_display.Protocol.Media.RoundTrip.{decode_video-encode_video}

abbrev key_frame : VideoFrame
key_frame = record {
  codec = hevc;
  keyframe = true;
  seq = 70_000;
  timestamp_us = 5;
  width = 1920;
  height = 1080;
  payload = 1 ∷ 2 ∷ [];
}

abbrev sound : AudioFrame
sound = record {
  codec = opus;
  channels = 2;
  seq = 3;
  timestamp_us = 400_000;
  sample_rate = 48_000;
  payload = 9 ∷ [];
}

decode_video-encode_video_example : decode_video (encode_video key_frame) ≡ ok key_frame
decode_video-encode_video_example = decode_video-encode_video key_frame (record {
  seq_fits = omega arith;
  timestamp_fits = omega arith;
  width_fits = omega arith;
  height_fits = omega arith;
})

abbrev idle_cipher : Aead
idle_cipher = record {
  encrypt = λ key nonce aad text. text;
  decrypt = λ key nonce aad text. some text;
}
