-- ===== src/Host/Session/Video.antt =====
-- host/service/src/session.rs: `video_task`, one turn of its loop after it has waited and slept. What the
-- capture, the encoder and the clock give in the turn is in `VideoEnv`; how long the task sleeps is not
-- modelled. The bytes of a captured frame are known to the encoder only.
pub mod Keyframes
use nebula_display.Prelude.{
  ℕ, ◌+◌, ◌-◌, ◌%◌, ◌^◌, Bool, true, false, not, ◌&&◌, ◌||◌, Option, none, some, List, [], ◌∷◌, ltb,
  ◌==◌, if◌then◌else◌, length,
}
use nebula_display.Protocol.Media.{Codec, VideoFrame}
use nebula_display.Host.Adapt.{F32, on_tick, on_send_backlog}
use nebula_display.Host.Session.{Counters, Session, Flow, going, over, ema_update}

pub record CapturedFrame : Type 0 where
  pub seq : ℕ
  pub timestamp_us : ℕ
  pub width : ℕ
  pub height : ℕ

pub record Encoded : Type 0 where
  pub payload : List ℕ
  pub keyframe : Bool
  pub codec : Codec
  pub convert_us : ℕ

-- The task's own variables, the slot of the latest frame and what the writer has taken of it.
pub record Video : Type 0 where
  pub encoder_width : ℕ
  pub encoder_height : ℕ
  pub last_captured_seq : ℕ
  pub out_seq : ℕ
  pub frame_seq16 : ℕ
  pub slot : Option (ℕ × VideoFrame)
  pub consumed_seq : ℕ

abbrev pub no_video : Video
no_video = record {
  encoder_width = 0;
  encoder_height = 0;
  last_captured_seq = 0;
  out_seq = 0;
  frame_seq16 = 0;
  slot = none;
  consumed_seq = 0;
}

pub record VideoEnv : Type 0 where
  pub now_ms : ℕ
  pub now_us : ℕ
  pub newest : Option CapturedFrame
  pub recreated : Bool
  pub encoded : (force_keyframe : Bool) → Option Encoded
  pub encode_us : ℕ
  pub writer_gone : Bool

abbrev is_newer : CapturedFrame → ℕ → Bool → Bool
is_newer frame last want_key = ltb last frame.seq || want_key

-- Whether the slot holds a keyframe.
abbrev pub holds_keyframe : Option (ℕ × VideoFrame) → Bool
holds_keyframe none = false
holds_keyframe (some (seq, vf)) = vf.keyframe

module _ (f : F32) where
  -- The slot is written. A frame that the writer has not taken is skipped; when it was a keyframe and this
  -- one is not, a keyframe is asked for.
  publish : VideoEnv → Session f.Real → Video → VideoFrame → Session f.Real × Video × Flow
  publish env s v vf =
      let late = not (v.out_seq == 0) && ltb v.consumed_seq v.out_seq in
      let s' =
        if late
        then record s {
          counters = record s.counters {
            frames_skipped = (s.counters.frames_skipped + 1) % 2 ^ 64;
          };
          ctl = on_send_backlog f s.ctl env.now_ms;
          force_keyframe = s.force_keyframe || (holds_keyframe v.slot && not vf.keyframe);
        }
        else s in
      (
        s',
        record v { out_seq = v.out_seq + 1; slot = some (v.out_seq + 1, vf) },
        (if env.writer_gone then over else going),
      )

  -- A frame that was encoded; `fk` tells whether a keyframe was asked for. An empty payload is not sent.
  use_encoded :
      VideoEnv
      → Session f.Real
      → Video
      → CapturedFrame
      → (fk : Bool) → Option Encoded
      → Session f.Real × Video × Flow
  unfolding publish
  use_encoded env s v frame fk none = (s, v, going)
  use_encoded env s v frame fk (some e) =
      let s1 = record s {
        counters = record s.counters {
          encode_us_avg = ema_update s.counters.encode_us_avg env.encode_us;
          convert_us_avg = ema_update s.counters.convert_us_avg e.convert_us;
        };
      } in
      if length e.payload == 0
      then (s1, v, going)
      else publish env (record s1 { force_keyframe = s1.force_keyframe || (fk && not e.keyframe) })
          (record v { frame_seq16 = (v.frame_seq16 + 1) % 2 ^ 32 })
          (record {
            codec = e.codec;
            keyframe = e.keyframe;
            seq = (v.frame_seq16 + 1) % 2 ^ 32;
            timestamp_us = frame.timestamp_us;
            width = frame.width % 2 ^ 16;
            height = frame.height % 2 ^ 16;
            payload = e.payload;
          })

  -- The request is taken, and the frame is encoded.
  encode_frame : VideoEnv → Session f.Real → Video → CapturedFrame → Session f.Real × Video × Flow
  unfolding use_encoded
  encode_frame env s v frame =
      use_encoded env
        (record s {
          force_keyframe = false;
          counters = record s.counters {
            capture_age_us_avg =
                ema_update s.counters.capture_age_us_avg (env.now_us - frame.timestamp_us);
          };
        })
        (record v { encoder_width = frame.width; encoder_height = frame.height }) frame
        s.force_keyframe (env.encoded s.force_keyframe)

  -- A new resolution wants a new encoder, unless none has been used.
  fit_encoder : VideoEnv → Session f.Real → Video → CapturedFrame → Session f.Real × Video × Flow
  unfolding encode_frame
  fit_encoder env s v frame =
      if (v.encoder_width == frame.width) && (v.encoder_height == frame.height)
        || ((v.encoder_width == 0) && (v.encoder_height == 0))
      then encode_frame env s v frame
      else if env.recreated
      then encode_frame env (record s { force_keyframe = true }) v frame
      else (s, v, going)

  pick_frame :
      VideoEnv → Session f.Real → Video → Option CapturedFrame → Session f.Real × Video × Flow
  unfolding fit_encoder
  pick_frame env s v none = (s, v, going)
  pick_frame env s v (some frame) =
      if is_newer frame v.last_captured_seq s.force_keyframe
      then fit_encoder env s (record v { last_captured_seq = frame.seq }) frame
      else (s, v, going)

  unfoldable pub video_turn : VideoEnv → Session f.Real → Video → Session f.Real × Video × Flow
  unfolding pick_frame
  video_turn env s v = pick_frame env (record s { ctl = on_tick f s.ctl env.now_ms }) v env.newest
