-- ===== src/Host/Pairing/Examples.antt =====
-- Runs of the theorems on handshakes.
use nebula_display.Prelude.{
  ◌-◌, arith, ◌≤◌, ◌≡◌, refl, true, false, none, some, List, [], ◌∷◌, lookup, codes,
}
use nebula_display.Protocol.Crypto.{mac_equal, diff_loop}
use nebula_display.Protocol.Spake2.{Spake2Server}
use nebula_display.Protocol.Messages.{
  pair_spake2, pair_start, spake2_start, spake2_confirm, spake2_result,
}
use nebula_display.Host.Pin.{PinManager, consume}
use nebula_display.Host.Trust.{enroll}
use nebula_display.Host.Handshake.{
  AppState, Step, Draws, await_pair_start, await_spake2_confirm, finished, Handshake, select_codec,
  auth_ok_reply, seal_blob,
}
use nebula_display.Host.Handshake.{paired_device, enroll_client}
use nebula_display.Host.Spake2Arm.{spake2_enrolled, spake2_proved, spake2_checked}
use nebula_display.Host.Pairing.{dispatch, process}
use nebula_display.Host.Samples.{plain_hex, plain, tablet}
use nebula_display.Protocol.Samples.{toy}
use nebula_display.Host.Trust.{save, save_then}
use nebula_display.Host.Pairing.Completion.{
  Proved, complete_cases, Arrival, completions, completions_once,
}
use nebula_display.Host.Pairing.Limits.{lockout_refusal, lockout_stops, completed, spent_pin_pairs}

-- The address 8 is locked out.
abbrev manager : PinManager
manager = record {
  digits = 6;
  ttl = 120_000;
  max_attempts = 3;
  lockout = 60_000;
  pin = codes "012345";
  issued = 1_000;
  used = true;
  attempts = (8, record { failures = 3; locked_until = some 50_000 }) ∷ [];
}

abbrev host : AppState
host = record {
  pins = manager;
  trust = record { devices = []; saved = [] };
  mode = record { width = 1920; height = 1080; refresh_hz = 60 };
  name = codes "host";
  app_version = codes "1";
  fingerprint = [];
  allow_legacy_pairing = true;
  supports = λ c. true;
}

abbrev drawn : Draws plain
drawn = record {
  now = 20_000;
  now_unix = 20;
  word = 5;
  next_word = 6;
  token = 1 ∷ 2 ∷ [];
  scalar = 4;
  secret = 3 ∷ [];
  salt = 9 ∷ [];
  seal_nonce = [];
  writable = true;
}

abbrev server : Spake2Server toy
server = record {
  share = 54 ∷ [];
  keys = record {
    confirm_client = 1 ∷ [];
    confirm_server = 2 ∷ [];
    session_key = 3 ∷ [];
    token_key = 4 ∷ [];
  };
}

abbrev waiting : Handshake plain
waiting = record {
  peer_ip = 8;
  phase = await_spake2_confirm server;
  nonce = 1 ∷ [];
  client = some tablet;
  auth = some pair_spake2;
  client_codecs = [];
}

abbrev starting : Handshake plain
starting = record waiting { phase = await_pair_start }

spent_pin_pairs_example :
    completed plain (process plain host waiting drawn (spake2_confirm (1 ∷ [])))
    ≡ some (paired_device plain tablet (3 ∷ []) (select_codec plain host waiting))
spent_pin_pairs_example =
    spent_pin_pairs plain host manager waiting drawn server (1 ∷ []) tablet refl refl refl refl

lockout_stops_example :
    (true ≡ true
      → process plain host starting drawn (spake2_start (7 ∷ []))
        ≡ lockout_refusal plain host starting (50_000 - 20_000))
    × (false ≡ true
        → process plain host starting drawn (pair_start (7 ∷ []))
          ≡ lockout_refusal plain host starting (50_000 - 20_000))
unfolding lookup
lockout_stops_example =
    lockout_stops plain host starting drawn (7 ∷ []) 50_000
      (record { failures = 3; locked_until = some 50_000 }) refl refl refl (omega arith)

abbrev arrivals : List (Arrival plain)
arrivals =
    record { host = host; draws = drawn; message = spake2_confirm (1 ∷ []) }
    ∷ record { host = host; draws = drawn; message = spake2_confirm (1 ∷ []) }
    ∷ []

completions_once_example : completions plain waiting arrivals ≤ 1
completions_once_example = completions_once plain waiting arrivals

abbrev host_after : AppState
host_after = record host {
  pins = consume manager 8;
  trust =
      (enroll plain_hex host.trust (codes "tab") (codes "Tablet") (codes "android") (1 ∷ 2 ∷ []) 20
        true).0;
}

abbrev last_step : Step
last_step = record {
  replies =
      spake2_result true (some (2 ∷ []))
        (some (seal_blob plain [] (4 ∷ []) (1 ∷ 2 ∷ []) (codes "token"))) none
      ∷ auth_ok_reply plain host waiting false
      ∷ [];
  complete = some (paired_device plain tablet (3 ∷ []) (select_codec plain host waiting));
  reject = none;
}

completes :
    process plain host waiting drawn (spake2_confirm (1 ∷ []))
    ≡ some (host_after, record waiting { phase = finished }, last_step)
unfolding process dispatch spake2_checked spake2_proved spake2_enrolled enroll_client select_codec
    auth_ok_reply seal_blob mac_equal diff_loop enroll save_then save
completes = refl

complete_cases_example :
    ((record waiting { phase = finished }).phase ≡ finished)
    × Proved plain host waiting drawn
        (spake2_confirm (1 ∷ []))
        (paired_device plain tablet (3 ∷ []) (select_codec plain host waiting))
complete_cases_example =
    complete_cases plain host host_after waiting (record waiting { phase = finished }) drawn
      (spake2_confirm (1 ∷ [])) last_step
      (paired_device plain tablet (3 ∷ []) (select_codec plain host waiting)) completes refl
