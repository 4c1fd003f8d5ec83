-- ===== src/Client/Examples.antt =====
-- Runs of the theorems on the handshake of a client.
use nebula_display.Prelude.{
  ℕ, suc, ◌<◌, ◌≡◌, ◌≢◌, ◌⊎◌, refl, Bool, map, All, arith, true, false, ◌++◌, none, some, List, [],
  ◌∷◌, codes, replicate, ok,
}
use nebula_display.Protocol.Samples.{toy, same_bytes, tagged, toy-IsCurve, plain_aead-IsAead}
use nebula_display.Protocol.Media.{jpeg}
use nebula_display.Protocol.Spake2.{
  Spake2Keys, derive_keys, transcript, Spake2Client, Spake2Server, start, respond, finish,
  decode_point, w_scalar, m_point, n_point, derive_point, sampled_point,
}
use nebula_display.Protocol.Messages.{
  ServerInfo, ControlMsg, hello, hello_ack, pair_challenge, spake2_challenge, spake2_result,
  token_of, auth_ok,
}
use nebula_display.Host.Samples.{plain, tablet}
use nebula_display.Prelude.{lookup, list_eq}
use nebula_display.Protocol.Bytes.{to_be_bytes}
use nebula_display.Protocol.Crypto.{mac_equal, diff_loop}
use nebula_display.Host.Handshake.{open_blob, shared_session_key}
use nebula_display.Host.Pin.{PinManager, allowed, gate, current_pin}
use nebula_display.Host.Handshake.{AppState, AuthComplete, Draws, new_handshake}
use nebula_display.Client.Handshake.{
  Secrets, handshake, acknowledged, authenticate, pair_by_exchange, confirmed, accept_token,
  conclude, agree, reconnect, challenge_of, ack_of, share_of, result_of, auth_of, decode64,
}
use nebula_display.Client.{
  Credentials, by_pin, by_token, Session, ws, text, ping, quic, frame, Wire, connected, send_json,
  send_with, await, attempt, expecting, receive,
}
use nebula_display.Host.Pairing.{protocol_version}
use nebula_display.Protocol.Samples.{plain_aead}
use nebula_display.Protocol.Media.{VideoFrame, IsVideoFrame}
use nebula_display.Protocol.Envelope.{Opener, server_to_client}
use nebula_display.Client.Traffic.{video_frame, closed}
use nebula_display.Client.Traffic.Latest.{
  Numbered, sealed, recv_all, latest, IsSendable, recv_latest,
}
use nebula_display.Host.Transport.{video_stream, audio_stream}
use nebula_display.Client.Streams.{read_uni, streams_deliver}
use nebula_display.Host.Trust.{TrustedDevice, get}
use nebula_display.Client.Answers.{answers}
use nebula_display.Client.Steps.{session_of, paired}
use nebula_display.Client.Mutual.{IsMutual, pin_session-IsMutual}
use nebula_display.Client.Reconnect.{IsReconnect, token_session-IsReconnect, token_withheld}
use nebula_display.Client.Serve.{serve, arrivals}
use nebula_display.Client.Pairing.{delivered, pairing_completes}

abbrev digits : List ℕ
digits = codes "012345"

abbrev manager : PinManager
manager = record {
  digits = 6;
  ttl = 120_000;
  max_attempts = 3;
  lockout = 60_000;
  pin = digits;
  issued = 1_000;
  used = false;
  attempts = [];
}

abbrev host : AppState
host = record {
  pins = manager;
  trust = record { devices = []; saved = [] };
  mode = record { width = 1920; height = 1080; refresh_hz = 60 };
  name = codes "host";
  app_version = codes "1";
  fingerprint = 8 ∷ [];
  allow_legacy_pairing = false;
  supports = λ c. true;
}

abbrev drawn : Draws plain
drawn = record {
  now = 20_000;
  now_unix = 20;
  word = 5;
  next_word = 6;
  token = 1 ∷ 2 ∷ [];
  scalar = 4;
  secret = 3 ∷ [];
  salt = 9 ∷ [];
  seal_nonce = replicate 12 7;
  writable = true;
}

abbrev secrets : Secrets plain
secrets = record { scalar = 3; secret = 5 ∷ []; seal_nonce = replicate 12 6 }

abbrev nonce : List ℕ
nonce = 1 ∷ 2 ∷ []

abbrev pake : Spake2Client toy
pake = record { x = 3; w = 25; share = 53 ∷ []; nonce = nonce }

abbrev keys : Spake2Keys
keys = derive_keys same_bytes tagged (transcript toy nonce (53 ∷ []) (54 ∷ []) (12 ∷ []) 25)

abbrev server : Spake2Server toy
server = record { share = 54 ∷ []; keys = keys }

started : start toy same_bytes digits nonce 3 ≡ some pake
unfolding start w_scalar m_point derive_point sampled_point
started = refl

responded : respond toy same_bytes tagged digits nonce (53 ∷ []) 4 ≡ some (ok server)
unfolding respond decode_point w_scalar m_point n_point derive_point sampled_point
responded = refl

share_decodes : decode_point toy (54 ∷ []) ≡ ok 54
unfolding decode_point
share_decodes = refl

gated : gate manager 8 20_000 ≡ (manager, allowed)
unfolding gate lookup
gated = refl

shown : current_pin manager 20_000 5 ≡ (manager, digits)
unfolding current_pin
shown = refl

pairing_completes_example :
    (replies : List ControlMsg) × (done : AuthComplete) × (after : AppState) × (dev : TrustedDevice)
    × (let run =
          handshake plain secrets
            (record { inbound = delivered plain replies; room = suc (suc (suc 0)) })
            tablet
            (by_pin digits)
            [] in
        (serve plain host
            (new_handshake plain 8 nonce)
            (arrivals plain (drawn ∷ drawn ∷ drawn ∷ []) run.sent)
          ≡ some (after, replies, some done))
        × (run.ended
            ≡ connected (
                session_of done.session_key
                  (paired plain tablet (8 ∷ []) (1 ∷ 2 ∷ []))
                  (8 ∷ [])
                  done.codec
                  host.mode
                  done.input_allowed))
        × (get after.trust (codes "tab") ≡ some dev)
        × (dev.token_hex ≡ 1 ∷ 2 ∷ [])
        × (after.trust.saved ≡ after.trust.devices))
pairing_completes_example =
    pairing_completes plain toy-IsCurve plain_aead-IsAead (λ bytes. refl) host 8 nonce tablet []
      digits secrets drawn drawn drawn manager manager pake server 54 0 gated shown started
      responded share_decodes refl refl

-- The same answers over the WebSocket, a ping among them.
abbrev answered : Wire
answered = record {
  inbound = ws (
      text (
        some (
          hello_ack 1 (record { name = codes "host"; app_version = []; fingerprint = 8 ∷ [] }) true
            nonce))
      ∷ ping
      ∷ text (some (spake2_challenge (54 ∷ [])))
      ∷ text (
          some (
            spake2_result true (some keys.confirm_server)
              (some (replicate 12 7 ++ 1 ∷ 2 ∷ replicate 16 0)) none))
      ∷ text (some (auth_ok jpeg host.mode false))
      ∷ []);
  room = 3;
}

abbrev session : Session
session =
    session_of keys.session_key (paired plain tablet (8 ∷ []) (1 ∷ 2 ∷ [])) (8 ∷ []) jpeg host.mode
      false

connects : (handshake plain secrets answered tablet (by_pin digits) []).ended ≡ connected session
unfolding handshake acknowledged authenticate pair_by_exchange confirmed accept_token conclude
    send_json send_with await attempt expecting receive ack_of share_of result_of auth_of decode64
    mac_equal diff_loop open_blob start finish decode_point w_scalar m_point n_point derive_point
    sampled_point derive_keys transcript to_be_bytes
connects = refl

pin_session-IsMutual_example :
    IsMutual plain secrets tablet digits (answers answered.inbound) session
pin_session-IsMutual_example =
    pin_session-IsMutual plain secrets answered tablet digits [] session connects

abbrev credentials : Credentials
credentials = record { device_id = codes "tab"; token = 1 ∷ 2 ∷ []; host_fingerprint = 8 ∷ [] }

abbrev challenged : Wire
challenged = record {
  inbound = quic (
      frame 0 (
        some (
          hello_ack 1 (record { name = codes "host"; app_version = []; fingerprint = 8 ∷ [] }) false
            nonce))
      ∷ frame 0 (some (pair_challenge (6 ∷ []) (9 ∷ [])))
      ∷ frame 0 (some (auth_ok jpeg host.mode true))
      ∷ []);
  room = 3;
}

abbrev known_session : Session
known_session =
    session_of (shared_session_key plain (6 ∷ []) (9 ∷ []) nonce) none (8 ∷ []) jpeg host.mode true

reconnects :
    (handshake plain secrets challenged tablet (by_token credentials) []).ended
    ≡ connected known_session
unfolding handshake acknowledged authenticate agree reconnect conclude send_json send_with await
    attempt receive ack_of challenge_of auth_of decode64 list_eq
reconnects = refl

token_session-IsReconnect_example :
    IsReconnect plain secrets credentials (answers challenged.inbound) known_session
token_session-IsReconnect_example =
    token_session-IsReconnect plain secrets challenged tablet credentials [] known_session
      reconnects

abbrev stranger : Wire
stranger = record {
  inbound = ws (
      text (
        some (
          hello_ack 1 (record { name = codes "host"; app_version = []; fingerprint = 9 ∷ [] }) false
            nonce))
      ∷ []);
  room = 3;
}

foreign :
    (protocol : ℕ) (server : ServerInfo) (needed : Bool) (nonce64 : List ℕ)
    (later : List ControlMsg)
    → answers stranger.inbound ≡ hello_ack protocol server needed nonce64 ∷ later
    → credentials.host_fingerprint ≢ server.fingerprint
unfolding answers
foreign protocol server needed nonce64 later h same = absurd cc

token_withheld_example :
    ((handshake plain secrets stranger tablet (by_token credentials) []).sent ≡ [])
    ⊎ ((handshake plain secrets stranger tablet (by_token credentials) []).sent
        ≡ hello protocol_version tablet (token_of (codes "tab")) [] ∷ [])
token_withheld_example = token_withheld plain secrets stranger tablet credentials [] foreign

abbrev frame_of : ℕ → VideoFrame
frame_of n = record {
  codec = jpeg;
  keyframe = true;
  seq = n;
  timestamp_us = 0;
  width = 2;
  height = 2;
  payload = [];
}

-- The second frame overtakes the first.
abbrev overtaking : List Numbered
overtaking = (1, frame_of 1) ∷ (0, frame_of 0) ∷ (2, frame_of 2) ∷ []

abbrev new_session : Opener
new_session = record { key = []; dir = server_to_client; next_expected = replicate 4 0 }

fits : (n : ℕ) → n < 3 → IsVideoFrame (frame_of n)
fits n h = record {
  seq_fits = omega arith;
  timestamp_fits = omega arith;
  width_fits = omega arith;
  height_fits = omega arith;
}

sendable : All IsSendable overtaking
sendable = (
  (omega arith, fits 1 (omega arith)),
  ((omega arith, fits 0 (omega arith)), ((omega arith, fits 2 (omega arith)), tt)),
)

recv_latest_example :
    recv_all plain_aead ℕ
      (λ bytes. none)
      4
      new_session
      (map (sealed plain_aead new_session) overtaking)
    ≡ map (λ f. ok (video_frame f)) (latest 0 overtaking) ++ ok closed ∷ []
recv_latest_example =
    recv_latest plain_aead plain_aead-IsAead ℕ (λ bytes. none) new_session 0 4 overtaking refl refl
      sendable (omega arith)

streams_deliver_example :
    (read_uni 3 (video_stream (1 ∷ [])) ≡ (1 ∷ []) ∷ [])
    × (read_uni 3 (audio_stream ((2 ∷ []) ∷ [] ∷ [])) ≡ (2 ∷ []) ∷ [] ∷ [])
streams_deliver_example =
    streams_deliver (1 ∷ []) ((2 ∷ []) ∷ [] ∷ []) 3 (omega arith) (omega arith, (omega arith, tt))
      (omega arith)
