-- ===== src/Host/Control.antt =====
-- shared/protocol/src/messages.rs: the messages of an established session. Texts are lists of codes; the
-- type of the code's f32 is a parameter. The JSON form of a message belongs to serde_json.
use nebula_display.Prelude.{ℕ, Bool, Option, List}
use nebula_display.Viewer.Receive.{Reason}
use nebula_display.Host.Adapt.{Profile}
use nebula_display.Host.Touch.{TouchPhase}
use Prim.Native.String.{String}

pub data AudioWireCodec : Type 0 where
  opus pcm : AudioWireCodec

pub data InputMode : Type 0 where
  view_only touchpad direct_touch keyboard_mouse drawing_tablet : InputMode

pub data InputEvent (R : Type 0) : Type 0 where
  mouse_move : (x y : R) → InputEvent R
  mouse_button : (button : ℕ) → (pressed : Bool) → InputEvent R
  wheel : (dx dy : R) → InputEvent R
  key : (code : List ℕ) → (pressed : Bool) → Option (List ℕ) → InputEvent R
  touch : (id : ℕ) → TouchPhase → (x y pressure : R) → InputEvent R
  pen : TouchPhase → (x y pressure tilt_x tilt_y : R) → InputEvent R
  typed : (text : List ℕ) → InputEvent R
  gamepad : (id buttons : ℕ) → (left_trigger right_trigger lx ly rx ry : R) → InputEvent R

pub record ViewerStats (R : Type 0) : Type 0 where
  pub fps_decoded : R
  pub decode_ms_avg : R
  pub queue_depth : ℕ
  pub frames_dropped : ℕ
  pub rtt_ms : R
  pub e2e_latency_ms : R
  pub net_ms_avg : R
  pub present_wait_ms_avg : R

-- The fields that a session writes. Averages are the microseconds that the code divides by 1000 to get its
-- f32 milliseconds.
pub record HostStats : Type 0 where
  pub target_bitrate_kbps : ℕ
  pub actual_bitrate_kbps : ℕ
  pub frames_sent : ℕ
  pub frames_skipped : ℕ
  pub capture_age_us_avg : ℕ
  pub encode_us_avg : ℕ
  pub convert_us_avg : ℕ
  pub seal_send_us_avg : ℕ

-- The variants of `ControlMsg` after the handshake.
pub data SessionMsg (R : Type 0) : Type 0 where
  ping : (t0_us : ℕ) → SessionMsg R
  pong : (t0_us t1_us : ℕ) → SessionMsg R
  set_profile_to : Profile → SessionMsg R
  set_input_mode : InputMode → SessionMsg R
  request_keyframe : SessionMsg R
  input : List (InputEvent R) → SessionMsg R
  stats_of : ViewerStats R → SessionMsg R
  host_stats : HostStats → SessionMsg R
  input_grant : (allowed : Bool) → SessionMsg R
  mode_change : (width height refresh_hz : ℕ) → SessionMsg R
  cursor_shape : (width height hot_x hot_y : ℕ) → (rgba : List ℕ) → SessionMsg R
  cursor_pos : (x y : R) → (visible : Bool) → SessionMsg R
  set_audio : (enabled : Bool) → Option AudioWireCodec → SessionMsg R
  audio_grant : (allowed : Bool) → SessionMsg R
  clipboard : (text : List ℕ) → SessionMsg R
  clipboard_grant : (allowed : Bool) → SessionMsg R
  file_offer : (id name : List ℕ) → (size_bytes : ℕ) → (sha256 : List ℕ) → SessionMsg R
  file_answer : (id : List ℕ) → (accept : Bool) → Option Reason → SessionMsg R
  file_chunk : (id : List ℕ) → (seq : ℕ) → (data_b64 : List ℕ) → SessionMsg R
  file_end : (id : List ℕ) → SessionMsg R
  file_done : (id : List ℕ) → SessionMsg R
  file_abort : (id : List ℕ) → Reason → SessionMsg R
  bye : (reason : List ℕ) → SessionMsg R
  error : (code message : String) → SessionMsg R
