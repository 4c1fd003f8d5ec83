-- ===== src/Protocol/Envelope/Examples.antt =====
-- Runs of the theorems on envelopes, with a cipher that hides nothing.
use nebula_display.Prelude.{
  ℕ, ◌≡◌, refl, ◌⊎◌, true, false, some, List, [], ◌∷◌, arith, replicate, nat_eq, text_eq, ok, err,
}
use nebula_display.Protocol.Samples.{plain_aead, plain_aead-IsAead}
use nebula_display.Protocol.Error.{replay}
use nebula_display.Protocol.Bytes.{be_value}
use nebula_display.Protocol.Envelope.{
  control, video, channel_try_from, server_to_client, client_to_server, Sealer, Opener, accept,
  open_on, open_envelope,
}
use nebula_display.Protocol.Envelope.Sync.{InSync}
use nebula_display.Protocol.Envelope.Stream.{Sending, transmit, transmit_delivers}
use nebula_display.Protocol.Envelope.Replay.{
  Accepted, Refused, open_cases, open_all, replay_refused, last_counter_reopens,
}
use nebula_display.Protocol.Envelope.Nonces.{seal_nonces, Distinct, seal_nonces-Distinct}

abbrev session_key : List ℕ
session_key = 7 ∷ 9 ∷ []

abbrev host_sealer : Sealer
host_sealer = record { key = session_key; dir = server_to_client; counters = replicate 4 0 }

abbrev client_sealer : Sealer
client_sealer = record { key = session_key; dir = client_to_server; counters = replicate 4 0 }

abbrev client_opener : Opener
client_opener = record { key = session_key; dir = server_to_client; next_expected = replicate 4 0 }

start-InSync : InSync host_sealer client_opener
start-InSync = record {
  same_key = refl;
  same_dir = refl;
  sealer_len = refl;
  opener_len = refl;
  behind = λ ch. omega arith;
}

-- The first envelope on the channel of the video, with two parts.
abbrev first_envelope : List ℕ
first_envelope = 2 ∷ 0 ∷ 0 ∷ 0 ∷ 0 ∷ 0 ∷ 0 ∷ 0 ∷ 0 ∷ 10 ∷ 11 ∷ 12 ∷ replicate 16 0

abbrev other_envelope : List ℕ
other_envelope = 3 ∷ 0 ∷ 0 ∷ 0 ∷ 0 ∷ 0 ∷ 0 ∷ 0 ∷ 5 ∷ 13 ∷ replicate 16 0

abbrev last_envelope : List ℕ
last_envelope = 2 ∷ 255 ∷ 255 ∷ 255 ∷ 255 ∷ 255 ∷ 255 ∷ 255 ∷ 255 ∷ 10 ∷ replicate 16 0

first_opened :
    (open_envelope plain_aead client_opener first_envelope).1 ≡ ok (video, 10 ∷ 11 ∷ 12 ∷ [])
unfolding open_envelope open_on channel_try_from accept be_value
first_opened = refl

last_opened : (open_envelope plain_aead client_opener last_envelope).1 ≡ ok (video, 10 ∷ [])
unfolding open_envelope open_on channel_try_from accept be_value
last_opened = refl

-- Three messages, of which the second is lost.
abbrev messages : List Sending
messages =
    record { chan = video; parts = (1 ∷ []) ∷ (2 ∷ []) ∷ []; arrives = true }
    ∷ record { chan = video; parts = (3 ∷ []) ∷ []; arrives = false }
    ∷ record { chan = video; parts = (4 ∷ []) ∷ []; arrives = true }
    ∷ []

transmit_delivers_example :
    transmit plain_aead host_sealer client_opener messages
    ≡ some (ok (video, 1 ∷ 2 ∷ []) ∷ ok (video, 4 ∷ []) ∷ [])
transmit_delivers_example =
    transmit_delivers plain_aead plain_aead-IsAead host_sealer client_opener messages start-InSync
      (λ ch. ground arith)

replay_refused_example :
    let o =
      open_all plain_aead
        (open_envelope plain_aead client_opener first_envelope).0
        (other_envelope ∷ []) in
    open_envelope plain_aead o first_envelope ≡ (o, err replay)
unfolding be_value
replay_refused_example =
    replay_refused plain_aead client_opener first_envelope (video, 10 ∷ 11 ∷ 12 ∷ [])
      (other_envelope ∷ []) refl first_opened (omega arith) (omega arith, tt)

last_counter_reopens_example :
    (open_envelope plain_aead
      (open_envelope plain_aead client_opener last_envelope).0
      last_envelope).1
    ≡ ok (video, 10 ∷ [])
unfolding be_value
last_counter_reopens_example =
    last_counter_reopens plain_aead client_opener last_envelope (video, 10 ∷ []) refl last_opened
      refl

open_cases_example :
    Refused plain_aead client_opener first_envelope
    ⊎ Accepted plain_aead client_opener first_envelope
open_cases_example = open_cases plain_aead client_opener first_envelope

seal_nonces-Distinct_example :
    Distinct (seal_nonces host_sealer ((video, []) ∷ (control, []) ∷ (video, []) ∷ []))
seal_nonces-Distinct_example =
    seal_nonces-Distinct host_sealer ((video, []) ∷ (control, []) ∷ (video, []) ∷ []) refl
