-- ===== src/Host/Pairing.antt =====
-- host/service/src/pairing.rs: `ServerHandshake::process`, one function for each arm of its match. The
-- state of the host is passed along; `none` is a panic.
mod Soundness
pub mod Completion
pub mod Limits
mod Examples
use nebula_display.Prelude.{
  ℕ, ◌+◌, ◌-◌, ◌*◌, ◌/◌, ◌≤◌, ◌<◌, min, max, ◌≡◌, refl, sym, ap, ◌∙◌, ◌≢◌, ◌⊎◌, inl, inr, Bool,
  true, false, not, ◌&&◌, Option, none, some, List, [], ◌∷◌, ◌++◌, arith, ltb, if◌then◌else◌,
  list_eq, codes, Result, ok, err,
}
use nebula_display.Protocol.Error.{ProtocolError}
use nebula_display.Protocol.Media.{Codec}
use nebula_display.Protocol.Crypto.{mac_equal}
use nebula_display.Protocol.Spake2.{Spake2Keys, Spake2Server, respond}
use nebula_display.Protocol.Messages.{
  ClientInfo, ServerInfo, AuthMethod, pair, pair_spake2, token_of, DisplayMode, ErrorText, text,
  protocol_too_old, retry_in, unexpected_message, ControlMsg, hello, hello_ack, pair_start,
  pair_challenge, pair_confirm, pair_result, spake2_start, spake2_challenge, spake2_confirm,
  spake2_result, token_proof, auth_ok, auth_err, post_auth,
}
use nebula_display.Host.Pin.{
  PinManager, PinGate, allowed, locked_out, gate, current_pin, record_failure, consume,
}
use nebula_display.Host.Trust.{TrustedDevice, TrustStore, IoError, enroll, verify}
use nebula_display.Host.Handshake.{
  Primitives, AppState, AuthComplete, Step, reply_with, reject_with, Draws, Phase, await_hello,
  await_pair_start, await_proof, await_spake2_confirm, finished, Handshake, select_codec,
  auth_ok_reply, pairing_key, shared_session_key, seal_blob, open_blob, is_pair, is_pair_spake2,
  Outcome, refuse, paired_device, enroll_client,
}
use Prim.Native.String.{String}
use nebula_display.Host.Spake2Arm.{refused_result, on_spake2_start, spake2_checked}
use nebula_display.Host.PinArm.{on_pair_start, on_pair_confirm}

abbrev pub min_protocol_version : ℕ
min_protocol_version = 1

abbrev pub protocol_version : ℕ
protocol_version = 1

abbrev pairing_needed : AuthMethod → Bool
pairing_needed (token_of id) = false
pairing_needed _ = true

-- `variant_name`.
abbrev pub variant_name : ControlMsg → String
variant_name (hello _ _ _ _) = "hello"
variant_name (hello_ack _ _ _ _) = "hello_ack"
variant_name (pair_start _) = "pair_start"
variant_name (pair_challenge _ _) = "pair_challenge"
variant_name (pair_confirm _) = "pair_confirm"
variant_name (pair_result _ _ _) = "pair_result"
variant_name (spake2_start _) = "spake2_start"
variant_name (spake2_challenge _) = "spake2_challenge"
variant_name (spake2_confirm _) = "spake2_confirm"
variant_name (spake2_result _ _ _ _) = "spake2_result"
variant_name (token_proof _) = "token_proof"
variant_name (auth_ok _ _ _) = "auth_ok"
variant_name (auth_err _) = "auth_err"
variant_name post_auth = "post-auth message"

module _ (p : Primitives) where
  pub on_hello : AppState → Handshake p → ℕ → ClientInfo → AuthMethod → List Codec → Outcome p
  unfolding refuse
  on_hello s h protocol client auth codecs =
      if ltb protocol min_protocol_version
      then refuse p s h (auth_err (protocol_too_old protocol)) "protocol too old"
      else if is_pair (some auth) && not s.allow_legacy_pairing
      then refuse p s h
          (auth_err (
            text
              "this host requires SPAKE2 pairing (legacy PIN pairing is disabled) — update your viewer app"))
          "legacy pairing disabled"
      else some (
        s,
        record h {
          client = some client;
          auth = some auth;
          client_codecs = codecs;
          phase = await_pair_start;
        },
        reply_with (
            hello_ack (min protocol_version protocol)
              (record { name = s.name; app_version = s.app_version; fingerprint = s.fingerprint })
              (pairing_needed auth) (p.b64_encode h.nonce)),
      )

  token_verified :
      AppState
      → Handshake p
      → (session_key : List ℕ) → Option ClientInfo
      → Option TrustedDevice
      → Outcome p
  unfolding refuse
  token_verified s h session_key client none =
      refuse p s h (auth_err (text "unknown device or bad proof; pair again")) "token rejected"
  token_verified s h session_key none (some dev) = none
  token_verified s h session_key (some client) (some dev) = some (
    s,
    record h { phase = finished },
    record {
      replies = auth_ok_reply p s h dev.input_allowed ∷ [];
      complete = some (record {
        client = client;
        session_key = session_key;
        codec = select_codec p s h;
        input_allowed = dev.input_allowed;
        clipboard_allowed = dev.clipboard_allowed;
        audio_allowed = dev.audio_allowed;
        newly_paired = false;
      });
      reject = none;
    },
  )

  token_decoded :
      AppState
      → Handshake p
      → Draws p
      → (shared salt client_pub server_pub device_id : List ℕ) → Option (List ℕ)
      → Outcome p
  unfolding refuse token_verified
  token_decoded s h d shared salt client_pub server_pub device_id none =
      refuse p s h (auth_err (text "bad proof encoding")) "bad proof b64"
  token_decoded s h d shared salt client_pub server_pub device_id (some proof) =
      let (trust, verified) =
        verify p.hasher p.hex s.trust device_id h.nonce client_pub server_pub proof d.now_unix
          d.writable in
      token_verified (record s { trust = trust }) h (shared_session_key p shared salt h.nonce)
        h.client verified

  pub on_token_proof :
      AppState
      → Handshake p
      → Draws p
      → (shared salt client_pub server_pub proof : List ℕ) → Option AuthMethod
      → Outcome p
  unfolding refuse token_decoded
  on_token_proof s h d shared salt client_pub server_pub proof (some (token_of device_id)) =
      token_decoded s h d shared salt client_pub server_pub device_id (p.b64_decode proof)
  on_token_proof s h d shared salt client_pub server_pub proof _ =
      refuse p s h (auth_err (text "token proof without token auth")) "protocol misuse"

  pub unexpected : AppState → Handshake p → ControlMsg → Outcome p
  unfolding refuse
  unexpected s h msg =
      refuse p s h (auth_err (unexpected_message (variant_name msg))) "protocol violation"

  -- The match of `process`, on the phase and the message.
  dispatch : AppState → Handshake p → Draws p → Phase p → ControlMsg → Outcome p
  unfolding on_hello on_spake2_start spake2_checked on_pair_start on_pair_confirm on_token_proof
      unexpected
  dispatch s h d await_hello (hello protocol client auth codecs) =
      on_hello s h protocol client auth codecs
  dispatch s h d await_pair_start (spake2_start share) =
      if is_pair_spake2 h.auth
      then on_spake2_start p s h d share
      else unexpected s h (spake2_start share)
  dispatch s h d (await_spake2_confirm server) (spake2_confirm mac) =
      spake2_checked p s h d server.keys (p.b64_decode mac)
  dispatch s h d await_pair_start (pair_start client_pubkey) = on_pair_start p s h d client_pubkey
  dispatch s h d (await_proof shared salt client_pub server_pub) (pair_confirm sealed) =
      if is_pair h.auth
      then on_pair_confirm p s h d shared salt (p.b64_decode sealed)
      else unexpected s h (pair_confirm sealed)
  dispatch s h d (await_proof shared salt client_pub server_pub) (token_proof proof) =
      on_token_proof s h d shared salt client_pub server_pub proof h.auth
  dispatch s h d _ msg = unexpected s h msg

  -- `process`.
  unfoldable pub process : AppState → Handshake p → Draws p → ControlMsg → Outcome p
  unfolding dispatch
  process s h d msg = dispatch s h d h.phase msg
