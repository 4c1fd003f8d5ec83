-- ===== src/Host/Spake2Arm.antt =====
-- host/service/src/pairing.rs: the arms of `process` for a pairing by SPAKE2. `none` is a panic.
use nebula_display.Prelude.{
  ℕ, ◌/◌, true, false, not, Option, none, some, List, [], ◌∷◌, if◌then◌else◌, codes, Result, ok,
  err,
}
use nebula_display.Protocol.Error.{ProtocolError}
use nebula_display.Protocol.Crypto.{mac_equal}
use nebula_display.Protocol.Spake2.{Spake2Keys, Spake2Server, respond}
use nebula_display.Protocol.Messages.{
  ClientInfo, text, retry_in, ControlMsg, spake2_challenge, spake2_result, auth_err,
}
use nebula_display.Host.Pin.{PinGate, allowed, locked_out, gate, current_pin, record_failure}
use nebula_display.Host.Trust.{IoError}
use nebula_display.Host.Handshake.{
  Primitives, AppState, reply_with, Draws, await_spake2_confirm, finished, Handshake, select_codec,
  auth_ok_reply, seal_blob, Outcome, refuse, paired_device, enroll_client,
}
use Prim.Native.String.{String}

abbrev pub refused_result : String → ControlMsg
refused_result why = spake2_result false none none (some (text why))

module _ (p : Primitives) where
  unfoldable pub spake2_answered :
      AppState
      → Handshake p
      → Draws p
      → Option (Result ProtocolError (Spake2Server p.curve))
      → Outcome p
  unfolding refuse
  spake2_answered s h d none = none
  spake2_answered s h d (some (err e)) =
      refuse p (record s { pins = record_failure s.pins h.peer_ip d.now d.next_word }) h
        (auth_err (text "invalid SPAKE2 share")) "bad spake2 share"
  spake2_answered s h d (some (ok server)) = some (
    s,
    record h { phase = await_spake2_confirm server },
    reply_with (spake2_challenge (p.b64_encode server.share)),
  )

  unfoldable pub spake2_decoded : AppState → Handshake p → Draws p → Option (List ℕ) → Outcome p
  unfolding refuse spake2_answered
  spake2_decoded s h d none =
      refuse p s h (auth_err (text "bad share encoding")) "bad spake2 share b64"
  spake2_decoded s h d (some client_share) =
      let (pins, pin) = current_pin s.pins d.now d.word in
      spake2_answered (record s { pins = pins }) h d
        (respond p.curve p.hasher p.kdf pin h.nonce client_share d.scalar)

  unfoldable pub spake2_gated : AppState → Handshake p → Draws p → List ℕ → PinGate → Outcome p
  unfolding refuse spake2_decoded
  spake2_gated s h d share (locked_out retry_after) =
      refuse p s h (auth_err (retry_in (retry_after / 1000))) "pairing lockout"
  spake2_gated s h d share allowed = spake2_decoded s h d (p.b64_decode share)

  unfoldable pub on_spake2_start : AppState → Handshake p → Draws p → List ℕ → Outcome p
  unfolding spake2_gated
  on_spake2_start s h d share =
      let (pins, answer) = gate s.pins h.peer_ip d.now in
      spake2_gated (record s { pins = pins }) h d share answer

  unfoldable pub spake2_enrolled :
      AppState
      → Handshake p
      → Draws p
      → Spake2Keys
      → ClientInfo
      → Result IoError (List ℕ)
      → Outcome p
  unfolding refuse
  spake2_enrolled s h d keys client (err e) =
      refuse p s h (refused_result "host storage error") "trust store error"
  spake2_enrolled s h d keys client (ok token) = some (
    s,
    record h { phase = finished },
    record {
      replies =
          spake2_result true (some (p.b64_encode keys.confirm_server))
            (some (p.b64_encode (seal_blob p d.seal_nonce keys.token_key token (codes "token"))))
            none
          ∷ auth_ok_reply p s h false
          ∷ [];
      complete = some (paired_device p client keys.session_key (select_codec p s h));
      reject = none;
    },
  )

  unfoldable pub spake2_proved :
      AppState → Handshake p → Draws p → Spake2Keys → Option ClientInfo → Outcome p
  unfolding spake2_enrolled enroll_client
  spake2_proved s h d keys none = none
  spake2_proved s h d keys (some client) =
      let (s', result) = enroll_client p s h d client in spake2_enrolled s' h d keys client result

  unfoldable pub spake2_checked :
      AppState → Handshake p → Draws p → Spake2Keys → Option (List ℕ) → Outcome p
  unfolding refuse spake2_proved
  spake2_checked s h d keys none = refuse p s h (refused_result "bad encoding") "bad spake2 mac b64"
  spake2_checked s h d keys (some mac) =
      if not (mac_equal mac keys.confirm_client)
      then refuse p (record s { pins = record_failure s.pins h.peer_ip d.now d.word }) h
          (refused_result "wrong PIN") "wrong PIN (spake2)"
      else spake2_proved s h d keys h.client
