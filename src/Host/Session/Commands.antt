-- ===== src/Host/Session/Commands.antt =====
-- host/service/src/session.rs: the supervisor's loop: the commands of the panel, the forwarding of the
-- host's clipboard and cursor, the tick of the timer, and what is undone when the loop ends.
use nebula_display.Prelude.{
  ℕ, ◌-◌, Bool, true, false, not, ◌||◌, Option, none, some, List, ltb, ◌==◌, if◌then◌else◌,
}
use nebula_display.Host.Transfers.{drop_for_device}
use nebula_display.Host.Control.{
  host_stats, input_grant, cursor_shape, cursor_pos, audio_grant, clipboard, clipboard_grant, bye,
}
use nebula_display.Host.Session.{
  Session, Env, Flow, going, over, send_msg, send_anyway, recv_age, recv_timeout,
}
use nebula_display.Host.Session.Audio.{set_allowed, release}
use nebula_display.Host.Session.Inbound.{on_answer, drop_transfer}
use nebula_display.Host.Session.Outbound.{on_send_file, drop_outbound}

-- `SessionCommand`.
pub data Command : Type 0 where
  set_input_grant set_clipboard_grant set_audio_grant : (allowed : Bool) → Command
  answer_file_offer :
      (id : List ℕ)
      → (accept : Bool) → (name : List ℕ) → (size_bytes : ℕ) → (sha256_hex : List ℕ) → Command
  send_file : (id path name : List ℕ) → (size_bytes : ℕ) → (sha256_hex : List ℕ) → Command
  kick : (reason : List ℕ) → Command

pub record CursorShape : Type 0 where
  pub width : ℕ
  pub height : ℕ
  pub hot_x : ℕ
  pub hot_y : ℕ
  pub rgba : List ℕ

pub record CursorState (R : Type 0) : Type 0 where
  pub seq : ℕ
  pub shape_seq : ℕ
  pub shape : Option CursorShape
  pub x : R
  pub y : R
  pub visible : Bool
  pub composited : Bool

-- What the supervisor remembers of the cursor that it sent.
pub record CursorSent : Type 0 where
  pub sent_shape_seq : ℕ
  pub sent_cursor_hidden : Bool

module _ {R : Type 0} where
  unfoldable pub on_command : Env → Session R → Command → Session R × Flow
  on_command env s (set_input_grant allowed) =
      send_msg env (record s { input_allowed = allowed }) (input_grant allowed)
  on_command env s (set_clipboard_grant allowed) =
      send_msg env (record s { clipboard_allowed = allowed }) (clipboard_grant allowed)
  on_command env s (set_audio_grant allowed) =
      let (a, n) = set_allowed allowed s.audio s.listeners in
      send_msg env (record s { audio_allowed = allowed; audio = a; listeners = n })
        (audio_grant allowed)
  on_command env s (answer_file_offer id accept name size_bytes sha256_hex) =
      on_answer env s id accept name size_bytes sha256_hex
  on_command env s (send_file id path name size_bytes sha256_hex) =
      on_send_file env s id path name size_bytes sha256_hex
  on_command env s (kick reason) = (send_anyway env s (bye reason), over)

  -- A change of the host's clipboard, with its sequence number.
  unfoldable pub on_host_clipboard : Env → Session R → ℕ → List ℕ → Session R × Flow
  on_host_clipboard env s seq text =
      if not s.clipboard_allowed || (seq == 0) then (s, going) else send_msg env s (clipboard text)

  -- The position is sent unless the queue is closed.
  place_cursor : Env → Session R → CursorState R → CursorSent → Session R × Flow × CursorSent
  place_cursor env s cs sent =
      let (s', flow) = send_msg env s (cursor_pos cs.x cs.y cs.visible) in (s', flow, sent)

  after_shape : Env → CursorState R → CursorSent → Session R × Flow → Session R × Flow × CursorSent
  unfolding place_cursor
  after_shape env cs sent (s, going) = place_cursor env s cs sent
  after_shape env cs sent (s, over) = (s, over, sent)

  draw_cursor :
      (List ℕ → List ℕ)
      → Env
      → Session R
      → CursorState R
      → Option CursorShape
      → CursorSent
      → Session R × Flow × CursorSent
  unfolding after_shape place_cursor
  draw_cursor b64_encode env s cs none sent = place_cursor env s cs sent
  draw_cursor b64_encode env s cs (some shape) sent =
      if cs.shape_seq == sent.sent_shape_seq
      then place_cursor env s cs sent
      else after_shape env cs (record sent { sent_shape_seq = cs.shape_seq })
          (send_msg env s
            (cursor_shape shape.width shape.height shape.hot_x shape.hot_y (b64_encode shape.rgba)))

  -- A change of the cursor, for a client that supports it.
  unfoldable pub on_cursor :
      (List ℕ → List ℕ)
      → Env
      → Session R
      → CursorState R
      → CursorSent
      → Session R × Flow × CursorSent
  unfolding draw_cursor
  on_cursor b64_encode env s cs sent =
      if cs.seq == 0
      then (s, going, sent)
      else if cs.composited
      then if sent.sent_cursor_hidden then (s, going, sent) else (
        (send_msg env s (cursor_pos cs.x cs.y false)).0,
        (send_msg env s (cursor_pos cs.x cs.y false)).1,
        record sent { sent_cursor_hidden = true },
      )
      else draw_cursor b64_encode env s cs cs.shape (record sent { sent_cursor_hidden = false })

  -- The statistics of the tick; `kbps_of` is applied when the window is longer than half a second.
  window_closed : Env → Session R → Session R
  window_closed env s =
      if ltb 500 (env.now_ms - s.window_start)
      then record s {
        host_stats = record s.host_stats {
          actual_bitrate_kbps = env.kbps_of s.counters.bytes_sent (env.now_ms - s.window_start);
        };
        counters = record s.counters { bytes_sent = 0 };
        window_start = env.now_ms;
      }
      else s

  measured : Session R → Session R
  measured s = record s {
    host_stats = record s.host_stats {
      target_bitrate_kbps = s.ctl.bitrate_kbps;
      frames_sent = s.counters.frames_sent;
      frames_skipped = s.counters.frames_skipped;
      capture_age_us_avg = s.counters.capture_age_us_avg;
      encode_us_avg = s.counters.encode_us_avg;
      convert_us_avg = s.counters.convert_us_avg;
      seal_send_us_avg = s.counters.seal_send_us_avg;
    };
  }

  unfoldable pub on_stats_tick : Env → Session R → Session R × Flow
  unfolding window_closed measured
  on_stats_tick env s =
      if ltb recv_timeout (recv_age env s)
      then (s, over)
      else let s' = window_closed env (measured s) in send_msg env s' (host_stats s'.host_stats)

  -- What is undone after the loop; the tasks that are aborted are the senders' only.
  unfoldable pub teardown : Env → Session R → Session R
  teardown env s =
      let s1 = record s { pending = drop_for_device s.device_id s.pending } in
      let s2 = drop_transfer env s1.transfer s1 in
      let s3 = drop_outbound env s2.outbound s2 in
      let (a, n) = release s3.audio s3.listeners in record s3 { audio = a; listeners = n }
