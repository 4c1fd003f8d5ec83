-- ===== src/Host/Session/Examples.antt =====
-- Runs of the theorems on sessions.
use nebula_display.Prelude.{
  ℕ, ◌+◌, ◌*◌, ◌/◌, min, ◌≡◌, refl, ◌≢◌, ◌⊎◌, inl, true, false, none, some, List, [], ◌∷◌, arith,
  ltb, leb, ◌==◌, length, list_eq, codes, text_eq, lookup,
}
use nebula_display.Protocol.Media.{h264}
use nebula_display.Viewer.Receive.{Codecs, Io, FileReceiver}
use nebula_display.Host.Adapt.{F32, office, new_controller}
use nebula_display.Host.Control.{opus, mouse_button, input}
use nebula_display.Host.Session.{Session, Env, ActiveTransfer}
use nebula_display.Host.Session.Audio.{
  new_audio, HubEvent, connect, toggle, grant, leave, on_events,
}
use nebula_display.Host.Session.Audio.Listeners.{listening, listeners_exact}
use nebula_display.Host.Session.Inbound.{new_transfer}
use nebula_display.Host.Session.Outbound.{
  SendIo, sender_messages, out_of_fuel, send_failed, answered, on_file_answer, start_sending,
}
use nebula_display.Host.Session.Outbound.Spool.{
  Offer, Unqueued, IsTidy, has_outbound, SlotEvent, spooled, taken, answer, done, sender_end,
  on_slot_events, outbox_emptied,
}
use nebula_display.Host.Session.Outbound.Streaming.{sender_ends}
use nebula_display.Host.Session.Pump.{pump_turn, Incoming, control}
use nebula_display.Host.Session.Grants.{IsGranted, turn-IsGranted}
use nebula_display.Host.Session.Commands.{teardown}
use nebula_display.Host.Session.Video.{no_video, VideoEnv}
use nebula_display.Host.Session.Video.Keyframes.{
  IsOwed, IsEncoding, VideoEvent, turn, request, take, Watched, on_video_events, any,
  keyframe_not_lost,
}

-- Numbers in tenths.
abbrev tenths : F32
tenths = record {
  Real = ℕ;
  of_ratio = λ p q. 10 * p / q;
  max_value = 1_000_000;
  leb_f = leb;
  ltb_f = ltb;
  eqb_f = λ a b. a == b;
  min_f = min;
  add_f = λ a b. a + b;
  mul_f = λ a b. a * b / 10;
  is_finite = λ a. true;
  of_u32 = λ n. 10 * n;
  to_u32 = λ a. a / 10;
}

-- The hash of any bytes is 64 zeros; hex and base64 leave bytes as they are.
abbrev zeros : List ℕ
zeros = codes "0000000000000000000000000000000000000000000000000000000000000000"

abbrev plain : Codecs
plain = record {
  hasher = record { sha256 = λ bytes. zeros };
  hex = record { encode = λ bytes. bytes; decode = λ chars. some chars };
  b64_decode = λ chars. some chars;
}

abbrev fair : Env
fair = record {
  now_us = 9_000;
  now_ms = 9;
  now_unix = 1;
  queue_room = true;
  writer_alive = true;
  session_room = λ o. true;
  dir_made = true;
  opened = true;
  chunk_written = true;
  flushed = true;
  renamed = true;
  part_removed = true;
  spool_removed = true;
  clipboard_joined = true;
  clipboard_writable = true;
  kbps_of = λ bytes ms. 8 * bytes / ms;
}

abbrev session : Session ℕ
session = record {
  device_id = codes "dev";
  device_name = codes "Tablet";
  number = 1;
  audio_enabled = true;
  max_file_mb = 512;
  listeners = 0;
  pending = [];
  clipboard_sync = record { last_seen_hash = none };
  clipboard_set = [];
  files = [];
  outbox = [];
  input_allowed = true;
  clipboard_allowed = false;
  audio_allowed = true;
  audio = new_audio true;
  transfer = none;
  outbound = none;
  sending_file = false;
  offer_pending = false;
  input_mode = 1;
  force_keyframe = true;
  ctl = new_controller tenths office h264 0;
  last_recv_ms = 0;
  counters = record {
    bytes_sent = 0;
    frames_sent = 0;
    frames_skipped = 0;
    encode_us_avg = 0;
    convert_us_avg = 0;
    capture_age_us_avg = 0;
    seal_send_us_avg = 0;
  };
  window_start = 0;
  host_stats = record {
    target_bitrate_kbps = 0;
    actual_bitrate_kbps = 0;
    frames_sent = 0;
    frames_skipped = 0;
    capture_age_us_avg = 0;
    encode_us_avg = 0;
    convert_us_avg = 0;
    seal_send_us_avg = 0;
  };
  viewer_stats = none;
  queue = [];
  applied = [];
  senders = [];
  next_task = 0;
}

abbrev click : Incoming tenths plain (λ t. length t)
click = control (some (input (mouse_button 0 true ∷ [])))

turn-IsGranted_example :
    IsGranted session (pump_turn tenths plain (λ t. length t) fair session click).0
turn-IsGranted_example = turn-IsGranted tenths plain (λ t. length t) fair session click

abbrev hub_events : List HubEvent
hub_events =
    connect true
    ∷ connect false
    ∷ toggle 0 true true none
    ∷ toggle 1 true true (some opus)
    ∷ grant 0 true
    ∷ leave 1
    ∷ []

listeners_exact_example :
    let h = on_events (record { listeners = 0; sessions = [] }) hub_events in
    h.listeners ≡ listening h.sessions
listeners_exact_example = listeners_exact hub_events (omega arith)

abbrev part : ActiveTransfer
part = new_transfer (codes "x1") (codes "a.txt") 2 zeros

abbrev part_full : ActiveTransfer
part_full = record part { hashed = 5 ∷ 6 ∷ []; received = 2; next_seq = 1 }

abbrev first_offer : Offer
first_offer = record {
  id = codes "s1";
  path = codes "spool1";
  name = codes "a.txt";
  size_bytes = 1;
  sha256_hex = zeros;
}

abbrev second_offer : Offer
second_offer = record first_offer { id = codes "s2"; path = codes "spool2"; name = codes "b.txt" }

abbrev slot_events : List SlotEvent
slot_events =
    spooled first_offer (7 ∷ [])
    ∷ taken fair
    ∷ answer fair (codes "s1") true
    ∷ spooled second_offer (8 ∷ [])
    ∷ taken fair
    ∷ sender_end fair 0 send_failed
    ∷ done fair (codes "s2")
    ∷ spooled first_offer (9 ∷ [])
    ∷ []

session-IsTidy : IsTidy [] session
unfolding lookup
session-IsTidy = record { spool = λ name u. refl; busy = refl }

outbox_emptied_example :
    let w = on_slot_events (record { session = session; queued = [] }) slot_events in
    ((name : List ℕ) → Unqueued w.queued name → lookup name (teardown fair w.session).outbox ≡ none)
    × (w.session.sending_file ≡ has_outbound w.session.outbound)
outbox_emptied_example =
    outbox_emptied session [] slot_events fair session-IsTidy
      (tt, (refl, (refl, (tt, (refl, (refl, (refl, (tt, tt)))))))) refl

-- A second answer starts a second sender; the slot knows only the later one.
twice_accepted :
    let s = record session {
      outbound = some (record { id = codes "s1"; path = codes "p"; name = codes "n"; task = none });
    } in
    (on_file_answer fair (on_file_answer fair s (codes "s1") true) (codes "s1") true).senders
    ≡ record { number = 1; id = codes "s1"; path = codes "p" }
      ∷ record { number = 0; id = codes "s1"; path = codes "p" }
      ∷ []
unfolding on_file_answer answered start_sending list_eq
twice_accepted = refl

-- Two bytes can be read at a time.
abbrev slow_disk : SendIo
slow_disk = record { file_opened = true; readable = λ k. some 2; writer_alive = λ k. true }

sender_ends_example :
    (sender_messages {R = ℕ} (λ bytes. bytes) 4 slow_disk (codes "s1") (5 ∷ 6 ∷ 7 ∷ [])).1
    ≢ out_of_fuel
sender_ends_example = sender_ends ℕ (λ bytes. bytes) slow_disk (codes "s1") (5 ∷ 6 ∷ 7 ∷ [])

abbrev all_well : Io
all_well = record {
  dir_made = true;
  opened = true;
  chunk_written = true;
  flushed = true;
  renamed = true;
  unix = 9;
}

abbrev waiting_viewer : FileReceiver
waiting_viewer = record { dir = some (codes "in"); active = none; files = [] }

-- The encoder gives a keyframe when it is asked for one.
abbrev encoding : ℕ → VideoEnv
encoding n = record {
  now_ms = 20 * n;
  now_us = 20_000 * n;
  newest = some (record { seq = n; timestamp_us = 20_000 * n; width = 640; height = 480 });
  recreated = true;
  encoded = λ fk. some (record { payload = 1 ∷ []; keyframe = fk; codec = h264; convert_us = 3 });
  encode_us = 7;
  writer_gone = false;
}

encodes : (n : ℕ) → IsEncoding (encoding n)
encodes n = λ fk. (_, refl, omega arith)

abbrev video_events : List VideoEvent
video_events =
    turn (encoding 1) ∷ turn (encoding 2) ∷ take ∷ turn (encoding 3) ∷ request ∷ take ∷ []

abbrev watched : Watched tenths
watched = record { session = session; video = no_video; taken = [] }

keyframe_not_lost_example :
    let w = on_video_events tenths watched video_events in
    (any w.taken ≡ true) ⊎ IsOwed w.session.force_keyframe w.video
keyframe_not_lost_example =
    keyframe_not_lost tenths watched video_events (encodes 1, (encodes 2, (encodes 3, tt)))
      (record { bounded = omega arith; owed = inl refl })
