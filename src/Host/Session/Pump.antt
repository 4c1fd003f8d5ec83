-- ===== src/Host/Session/Pump.antt =====
-- host/service/src/session.rs: `incoming_pump`, which reacts to the messages of the viewer. What the socket
-- and the opening of an envelope give is the argument `Incoming`.
use nebula_display.Prelude.{
  ℕ, ◌-◌, ◌*◌, ◌^◌, min, Bool, true, false, not, ◌&&◌, ◌||◌, Option, none, some, List, [], ◌∷◌,
  ◌++◌, map, ltb, leb, ◌==◌, if◌then◌else◌, length, list_eq, text_eq, Result, ok,
}
use nebula_display.Protocol.Files.{sanitize_filename}
use nebula_display.Viewer.Receive.{Codecs, text, to_lower}
use nebula_display.Host.Trust.{IoError}
use nebula_display.Host.Clipboard.{apply_from_viewer}
use nebula_display.Host.Adapt.{F32, set_profile, on_rtt_sample, on_viewer_stats}
use nebula_display.Host.Transfers.{PendingOffer, Pending, Answer, register}
use nebula_display.Host.Control.{
  InputEvent, ViewerStats, AudioWireCodec, SessionMsg, ping, pong, set_profile_to, set_input_mode,
  request_keyframe, input, stats_of, set_audio, audio_grant, clipboard, file_offer, file_answer,
  file_chunk, file_end, file_done, file_abort, bye, error,
}
use nebula_display.Host.Session.{
  ActiveTransfer, Session, Env, Flow, going, over, mode_to_u8, touch_recv, offer_msg, send_msg,
}
use nebula_display.Host.Session.Audio.{set_enabled}
use nebula_display.Host.Session.Inbound.{drop_transfer, on_chunk, on_end}
use nebula_display.Host.Session.Outbound.{on_file_answer, on_file_done}

abbrev in_range : ℕ → ℕ → ℕ → Bool
in_range lo hi c = leb lo c && leb c hi

abbrev is_id_char : ℕ → Bool
is_id_char c =
    in_range b'0' b'9' c || (in_range b'a' b'z' c || (in_range b'A' b'Z' c || (c == b'-')))

abbrev is_hex_digit : ℕ → Bool
is_hex_digit c = in_range b'0' b'9' c || (in_range b'a' b'f' c || in_range b'A' b'F' c)

abbrev all_pass : (ℕ → Bool) → List ℕ → Bool
all_pass p [] = true
all_pass p (c ∷ cs) = p c && all_pass p cs

unfoldable pub sane_id : List ℕ → Bool
sane_id id = not (length id == 0) && (leb (length id) 64 && all_pass is_id_char id)

unfoldable pub sane_hash : List ℕ → Bool
sane_hash sha256 = (length sha256 == 64) && all_pass is_hex_digit sha256

-- `max_file_mb.saturating_mul(1024 * 1024)`.
abbrev pub max_file_bytes : ℕ → ℕ
max_file_bytes mb = min (mb * (1024 * 1024)) (2 ^ 64 - 1)

abbrev pub is_busy : Option ActiveTransfer → Bool → Bool
is_busy none offer_pending = offer_pending
is_busy (some t) offer_pending = true

module _ {R : Type 0} where
  -- `Input`.
  unfoldable pub on_input : Session R → List (InputEvent R) → Session R
  on_input s events =
      if s.input_allowed && not (s.input_mode == 0)
      then record s { applied = s.applied ++ (events ∷ []) }
      else s

  -- `SetAudio`.
  unfoldable pub on_set_audio : Env → Session R → Bool → Option AudioWireCodec → Session R
  on_set_audio env s enabled codec =
      let (a, n) = set_enabled s.audio_enabled enabled codec s.audio s.listeners in
      let s' = record s { audio = a; listeners = n } in
      let s'' =
        if enabled && not s.audio.allowed then offer_msg env s' (audio_grant false) else s' in
      if enabled && not s.audio_enabled
      then offer_msg env s'' (error "audio_disabled" "audio is disabled on this host")
      else s''

  unfoldable pub clipboard_result : Env → Session R → Result IoError Bool → Session R
  clipboard_result env s (ok false) =
      offer_msg env s (error "clipboard_too_large" "clipboard payload exceeds the size cap")
  clipboard_result env s _ = s

  -- The text that the clipboard is asked to take is noted.
  unfoldable pub asked_to_set : Option (List ℕ) → Session R → Session R
  asked_to_set none s = s
  asked_to_set (some t) s = record s { clipboard_set = s.clipboard_set ++ (t ∷ []) }

  -- `Clipboard`. A task that does not join is taken not to have run.
  unfoldable pub on_clipboard : (List ℕ → ℕ) → Env → Session R → List ℕ → Session R
  unfolding clipboard_result asked_to_set
  on_clipboard text_hash env s content =
      if not s.clipboard_allowed || not env.clipboard_joined
      then s
      else let (sync, asked, result) =
          apply_from_viewer text_hash s.clipboard_sync content env.clipboard_writable in
        clipboard_result env (asked_to_set asked (record s { clipboard_sync = sync })) result

  -- The offer that the manager gets.
  abbrev pub offer_of :
      Env → Session R → (id name : List ℕ) → (size_bytes : ℕ) → (sha256 : List ℕ) → PendingOffer
  offer_of env s id name size_bytes sha256 = record {
    id = id;
    device_id = s.device_id;
    device_name = s.device_name;
    name = sanitize_filename name;
    size_bytes = size_bytes;
    sha256_hex = map to_lower sha256;
    offered_at = env.now_ms;
    offered_unix = env.now_unix;
    session = s.number;
  }

  unfoldable pub registered :
      Env → Session R → (id : List ℕ) → Pending × List Answer × Bool → Session R × Flow
  registered env s id (m, sent, true) = (record s { pending = m; offer_pending = true }, going)
  registered env s id (m, sent, false) =
      send_msg env (record s { pending = m })
        (file_answer id false (some (text "duplicate offer id")))

  -- `FileOffer`. The denials that the manager sends to expired offers go to the sessions' commands.
  unfoldable pub on_offer :
      Env → Session R → (id name : List ℕ) → (size_bytes : ℕ) → (sha256 : List ℕ) → Session R × Flow
  unfolding registered
  on_offer env s id name size_bytes sha256 =
      if not (sane_id id) || not (sane_hash sha256)
      then send_msg env s (file_answer id false (some (text "malformed offer")))
      else if (size_bytes == 0) || ltb (max_file_bytes s.max_file_mb) size_bytes
      then send_msg env s (file_answer id false (some (text "file exceeds the host's size limit")))
      else if is_busy s.transfer s.offer_pending
      then send_msg env s
          (file_answer id false (some (text "another transfer is already in progress")))
      else registered env s id (
          register env.session_room env.now_ms (offer_of env s id name size_bytes sha256) s.pending)

  unfoldable pub cancelled : Env → Session R → Option ActiveTransfer → (id : List ℕ) → Session R
  cancelled env s none id = s
  cancelled env s (some t) id = if list_eq t.id id then drop_transfer env (some t) s else s

  -- `FileAbort`.
  unfoldable pub on_abort : Env → Session R → (id : List ℕ) → Session R
  unfolding cancelled
  on_abort env s id = on_file_done env (cancelled env s s.transfer id) id

module _ (f : F32) (c : Codecs) (text_hash : List ℕ → ℕ) where
  -- `Stats`.
  unfoldable pub on_stats : Env → Session f.Real → ViewerStats f.Real → Session f.Real
  on_stats env s stats = record s {
    ctl =
        on_viewer_stats f (on_rtt_sample f s.ctl env.now_ms stats.rtt_ms) env.now_ms
          stats.queue_depth;
    viewer_stats = some stats;
  }

  -- The arms of the pump.
  unfoldable pub on_message : Env → Session f.Real → SessionMsg f.Real → Session f.Real × Flow
  on_message env s (input events) = (on_input s events, going)
  on_message env s (ping t0_us) = (offer_msg env s (pong t0_us env.now_us), going)
  on_message env s (stats_of stats) = (on_stats env s stats, going)
  on_message env s (set_profile_to profile) =
      (record s { ctl = set_profile f s.ctl env.now_ms profile }, going)
  on_message env s (set_input_mode mode) = (record s { input_mode = mode_to_u8 mode }, going)
  on_message env s request_keyframe = (record s { force_keyframe = true }, going)
  on_message env s (set_audio enabled codec) = (on_set_audio env s enabled codec, going)
  on_message env s (clipboard content) = (on_clipboard text_hash env s content, going)
  on_message env s (file_answer id accept reason) = (on_file_answer env s id accept, going)
  on_message env s (file_done id) = (on_file_done env s id, going)
  on_message env s (file_offer id name size_bytes sha256) = on_offer env s id name size_bytes sha256
  on_message env s (file_chunk id seq data_b64) = (on_chunk c env s id seq data_b64, going)
  on_message env s (file_end id) = on_end c env s id
  on_message env s (file_abort id reason) = (on_abort env s id, going)
  on_message env s (bye reason) = (s, over)
  on_message env s msg = (s, going)

  -- What one turn of the pump's loop gets from the socket and the opener.
  pub data Incoming : Type 0 where
    closed violation rejected other_channel : Incoming
    control : Option (SessionMsg f.Real) → Incoming  -- none: the payload is no message

  unfoldable pub pump_turn : Env → Session f.Real → Incoming → Session f.Real × Flow
  pump_turn env s closed = (s, over)
  pump_turn env s violation = (s, over)
  pump_turn env s rejected = (s, over)
  pump_turn env s other_channel = (s, going)
  pump_turn env s (control none) = (touch_recv env s, going)
  pump_turn env s (control (some msg)) = on_message env (touch_recv env s) msg
