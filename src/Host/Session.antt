-- ===== src/Host/Session.antt =====
-- host/service/src/session.rs: the session of an authenticated client. `Session` holds what the tasks of a
-- session share, with the parts of the host that they change: the count of audio listeners, the offers
-- that wait for the panel, the clipboard, the files of the transfer directory and of the outbox. What a
-- handler puts into the control queue, hands to the input sink or spawns is appended to lists. What the
-- environment does during one handler is in `Env`. The tasks run at once in the code: each handler is
-- atomic here.
pub mod Audio
pub mod Inbound
pub mod Arrivals
pub mod Outbound
pub mod Pump
pub mod Grants
pub mod Commands
pub mod Video
mod Examples
use nebula_display.Prelude.{
  ℕ, ◌+◌, ◌*◌, ◌/◌, ◌-◌, ◌%◌, ◌^◌, Bool, true, false, Option, none, some, List, [], ◌∷◌, ◌++◌,
  if◌then◌else◌, ◌==◌,
}
use nebula_display.Viewer.Receive.{Files}
use nebula_display.Host.Adapt.{Controller}
use nebula_display.Host.Clipboard.{ClipboardSync}
use nebula_display.Host.Transfers.{Pending, PendingOffer}
use nebula_display.Host.Control.{
  AudioWireCodec, opus, InputMode, view_only, touchpad, direct_touch, keyboard_mouse,
  drawing_tablet, InputEvent, ViewerStats, HostStats, SessionMsg,
}

-- Milliseconds.
abbrev pub recv_timeout : ℕ
recv_timeout = 30_000

-- `AudioCtl`, with the flag `audio_active` that the panel shows.
pub record AudioCtl : Type 0 where
  pub enabled : Bool
  pub allowed : Bool
  pub codec : AudioWireCodec
  pub counted : Bool
  pub audio_active : Bool

-- The open file is known by its path; what the hasher has seen is kept.
pub record ActiveTransfer : Type 0 where
  pub id : List ℕ
  pub part_path : List ℕ
  pub final_name : List ℕ
  pub expected_size : ℕ
  pub expected_sha256 : List ℕ
  pub hashed : List ℕ
  pub received : ℕ
  pub next_seq : ℕ

-- A spawned task is known by its number.
pub record OutboundTransfer : Type 0 where
  pub id : List ℕ
  pub path : List ℕ
  pub name : List ℕ
  pub task : Option ℕ

-- A running `send_file_chunks`.
pub record Sender : Type 0 where
  pub number : ℕ
  pub id : List ℕ
  pub path : List ℕ

-- The counters of `Shared`; averages are microseconds.
pub record Counters : Type 0 where
  pub bytes_sent : ℕ
  pub frames_sent : ℕ
  pub frames_skipped : ℕ
  pub encode_us_avg : ℕ
  pub convert_us_avg : ℕ
  pub capture_age_us_avg : ℕ
  pub seal_send_us_avg : ℕ

pub record Session (R : Type 0) : Type 0 where
  pub device_id : List ℕ
  pub device_name : List ℕ
  pub number : ℕ
  pub audio_enabled : Bool  -- of the configuration
  pub max_file_mb : ℕ
  pub listeners : ℕ
  pub pending : Pending
  pub clipboard_sync : ClipboardSync
  pub clipboard_set : List (List ℕ)  -- texts that the system's clipboard was asked to take
  pub files : Files
  pub outbox : Files
  pub input_allowed : Bool
  pub clipboard_allowed : Bool
  pub audio_allowed : Bool
  pub audio : AudioCtl
  pub transfer : Option ActiveTransfer
  pub outbound : Option OutboundTransfer
  pub sending_file : Bool
  pub offer_pending : Bool
  pub input_mode : ℕ
  pub force_keyframe : Bool
  pub ctl : Controller R
  pub last_recv_ms : ℕ
  pub counters : Counters
  pub window_start : ℕ  -- of the bytes counted
  pub host_stats : HostStats
  pub viewer_stats : Option (ViewerStats R)
  pub queue : List (SessionMsg R)
  pub applied : List (List (InputEvent R))
  pub senders : List Sender
  pub next_task : ℕ

-- What the environment does during one handler.
pub record Env : Type 0 where
  pub now_us : ℕ
  pub now_ms : ℕ
  pub now_unix : ℕ
  pub queue_room : Bool  -- `try_send` of the control queue succeeds
  pub writer_alive : Bool  -- `send` of the control queue succeeds
  pub session_room : PendingOffer → Bool
  pub dir_made : Bool
  pub opened : Bool
  pub chunk_written : Bool
  pub flushed : Bool
  pub renamed : Bool
  pub part_removed : Bool  -- `remove_file` of a partial file, whose failure is ignored
  pub spool_removed : Bool  -- `remove_file` of a spooled file, the same
  pub clipboard_joined : Bool
  pub clipboard_writable : Bool
  pub kbps_of : (bytes elapsed_ms : ℕ) → ℕ  -- f64 arithmetic

-- Whether a loop goes on after a handler.
pub data Flow : Type 0 where
  going over : Flow

unfoldable pub mode_to_u8 : InputMode → ℕ
mode_to_u8 view_only = 0
mode_to_u8 touchpad = 1
mode_to_u8 direct_touch = 2
mode_to_u8 keyboard_mouse = 3
mode_to_u8 drawing_tablet = 4

-- `ema_update`, in u64.
unfoldable pub ema_update : ℕ → ℕ → ℕ
ema_update prev sample = if prev == 0 then sample else ((prev * 9 + sample) % 2 ^ 64) / 10

module _ {R : Type 0} where
  -- `touch_recv`.
  abbrev pub touch_recv : Env → Session R → Session R
  touch_recv env s = record s { last_recv_ms = env.now_ms }

  abbrev pub recv_age : Env → Session R → ℕ
  recv_age env s = env.now_ms - s.last_recv_ms

  -- `ctl_tx.try_send(..)`, whose result is ignored.
  abbrev pub offer_msg : Env → Session R → SessionMsg R → Session R
  offer_msg env s msg = if env.queue_room then record s { queue = s.queue ++ (msg ∷ []) } else s

  -- `if ctl_tx.send(..).await.is_err() { break; }`.
  abbrev pub send_msg : Env → Session R → SessionMsg R → Session R × Flow
  send_msg env s msg =
      if env.writer_alive then (record s { queue = s.queue ++ (msg ∷ []) }, going) else (s, over)

  -- `let _ = ctl_tx.send(..).await`.
  abbrev pub send_anyway : Env → Session R → SessionMsg R → Session R
  send_anyway env s msg = if env.writer_alive then record s { queue = s.queue ++ (msg ∷ []) } else s
