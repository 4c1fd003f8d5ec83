-- ===== src/Host/PinArm.antt =====
-- host/service/src/pairing.rs: the arms of `process` for the older pairing, under a key that the PIN gives,
-- and for the start of a key exchange. `none` is a panic.
use nebula_display.Prelude.{
  ℕ, ◌/◌, true, false, Option, none, some, List, [], ◌∷◌, ◌++◌, if◌then◌else◌, list_eq, codes,
  Result, ok, err,
}
use nebula_display.Protocol.Error.{ProtocolError}
use nebula_display.Protocol.Messages.{
  ClientInfo, text, retry_in, ControlMsg, pair_challenge, pair_result, auth_err,
}
use nebula_display.Host.Pin.{PinGate, allowed, locked_out, gate, current_pin, record_failure}
use nebula_display.Host.Trust.{IoError}
use nebula_display.Host.Handshake.{
  Primitives, AppState, reply_with, Draws, await_proof, finished, Handshake, select_codec,
  auth_ok_reply, pairing_key, shared_session_key, seal_blob, open_blob, is_pair, Outcome, refuse,
  paired_device, enroll_client,
}
use Prim.Native.String.{String}

abbrev pub refused_pair : String → ControlMsg
refused_pair why = pair_result false none (some (text why))

module _ (p : Primitives) where
  unfoldable pub pair_agreed :
      AppState → Handshake p → Draws p → List ℕ → Option (List ℕ) → Outcome p
  unfolding refuse
  pair_agreed s h d client_pub none =
      refuse p s h (auth_err (text "invalid public key")) "bad pubkey"
  pair_agreed s h d client_pub (some shared) = some (
    s,
    record h { phase = await_proof shared d.salt client_pub (p.ecdh_public d.secret) },
    reply_with (pair_challenge (p.b64_encode (p.ecdh_public d.secret)) (p.b64_encode d.salt)),
  )

  unfoldable pub pair_decoded : AppState → Handshake p → Draws p → Option (List ℕ) → Outcome p
  unfolding refuse pair_agreed
  pair_decoded s h d none =
      refuse p s h (auth_err (text "bad public key encoding")) "bad pubkey b64"
  pair_decoded s h d (some client_pub) =
      pair_agreed s h d client_pub (p.ecdh_agree d.secret client_pub)

  unfoldable pub pair_gated : AppState → Handshake p → Draws p → List ℕ → PinGate → Outcome p
  unfolding refuse pair_decoded
  pair_gated s h d client_pubkey (locked_out retry_after) =
      refuse p s h (auth_err (retry_in (retry_after / 1000))) "pairing lockout"
  pair_gated s h d client_pubkey allowed = pair_decoded s h d (p.b64_decode client_pubkey)

  -- Only a pairing is limited by the gate.
  unfoldable pub on_pair_start : AppState → Handshake p → Draws p → List ℕ → Outcome p
  unfolding pair_gated pair_decoded
  on_pair_start s h d client_pubkey =
      if is_pair h.auth
      then (let (pins, answer) = gate s.pins h.peer_ip d.now in
          pair_gated (record s { pins = pins }) h d client_pubkey answer)
      else pair_decoded s h d (p.b64_decode client_pubkey)

  abbrev pub confirm_context : List ℕ
  confirm_context = codes "ndsp-confirm-v1"

  unfoldable pub pair_enrolled :
      AppState
      → Handshake p
      → Draws p
      → (pair_key session_key : List ℕ) → ClientInfo
      → Result IoError (List ℕ)
      → Outcome p
  unfolding refuse
  pair_enrolled s h d pair_key session_key client (err e) =
      refuse p s h (refused_pair "host storage error") "trust store error"
  pair_enrolled s h d pair_key session_key client (ok token) = some (
    s,
    record h { phase = finished },
    record {
      replies =
          pair_result true
            (some (p.b64_encode (seal_blob p d.seal_nonce pair_key token (codes "token")))) none
          ∷ auth_ok_reply p s h false
          ∷ [];
      complete = some (paired_device p client session_key (select_codec p s h));
      reject = none;
    },
  )

  unfoldable pub pair_proved :
      AppState
      → Handshake p
      → Draws p
      → (pair_key session_key : List ℕ) → Option ClientInfo
      → Outcome p
  unfolding pair_enrolled enroll_client
  pair_proved s h d pair_key session_key none = none
  pair_proved s h d pair_key session_key (some client) =
      let (s', result) = enroll_client p s h d client in
      pair_enrolled s' h d pair_key session_key client result

  unfoldable pub pair_wrong : AppState → Handshake p → Draws p → Outcome p
  unfolding refuse
  pair_wrong s h d =
      refuse p (record s { pins = record_failure s.pins h.peer_ip d.now d.next_word }) h
        (refused_pair "wrong PIN") "wrong PIN"

  unfoldable pub pair_opened :
      AppState
      → Handshake p
      → Draws p
      → (pair_key session_key : List ℕ) → Result ProtocolError (List ℕ)
      → Outcome p
  unfolding pair_proved pair_wrong
  pair_opened s h d pair_key session_key (err e) = pair_wrong s h d
  pair_opened s h d pair_key session_key (ok pt) =
      if list_eq pt (confirm_context ++ h.nonce)
      then pair_proved s h d pair_key session_key h.client
      else pair_wrong s h d

  unfoldable pub on_pair_confirm :
      AppState → Handshake p → Draws p → (shared salt : List ℕ) → Option (List ℕ) → Outcome p
  unfolding refuse pair_opened
  on_pair_confirm s h d shared salt none =
      refuse p s h (refused_pair "bad encoding") "bad confirm b64"
  on_pair_confirm s h d shared salt (some sealed) =
      let (pins, pin) = current_pin s.pins d.now d.word in
      let pair_key = pairing_key p shared salt pin h.nonce in
      pair_opened (record s { pins = pins }) h d pair_key (shared_session_key p shared salt h.nonce)
        (open_blob p pair_key sealed [])
