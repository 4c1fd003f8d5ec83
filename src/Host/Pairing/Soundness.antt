-- ===== src/Host/Pairing/Soundness.antt =====
-- What each arm of `process` completes to, if it completes.
use nebula_display.Prelude.{
  ℕ, ◌/◌, ◌≡◌, refl, ap, subst, inl, inr, true, false, Option, none, some, List, [], ◌++◌, arith,
  list_eq, list_eq→eq, Bool-cases, Result, ok, err,
}
use nebula_display.Protocol.Error.{ProtocolError}
use nebula_display.Protocol.Media.{Codec}
use nebula_display.Protocol.Crypto.{mac_equal, mac_equal_iff}
use nebula_display.Protocol.Spake2.{Spake2Keys, Spake2Server, respond}
use nebula_display.Protocol.Messages.{
  ClientInfo, AuthMethod, pair, pair_spake2, token_of, text, retry_in, unexpected_message,
  ControlMsg, auth_err,
}
use nebula_display.Host.Pin.{PinGate, allowed, locked_out, gate, current_pin, record_failure}
use nebula_display.Host.Trust.{TrustedDevice, IoError, verify}
use nebula_display.Host.Handshake.{
  Primitives, AppState, AuthComplete, Draws, finished, Handshake, select_codec, pairing_key,
  shared_session_key, open_blob,
}
use Prim.Native.String.{String}
use nebula_display.Host.Trust.{get}
use nebula_display.Host.Trust.Auth.{Proves, verify_lem}
use nebula_display.Host.Handshake.{is_pair, Outcome, refuse, paired_device, enroll_client}
use nebula_display.Host.Pairing.{
  variant_name, on_hello, token_verified, token_decoded, on_token_proof, unexpected,
}
use nebula_display.Host.Spake2Arm.{
  refused_result, spake2_answered, spake2_decoded, spake2_gated, on_spake2_start, spake2_enrolled,
  spake2_proved, spake2_checked,
}
use nebula_display.Host.PinArm.{
  refused_pair, pair_agreed, pair_decoded, pair_gated, on_pair_start, confirm_context,
  pair_enrolled, pair_proved, pair_wrong, pair_opened, on_pair_confirm,
}

module _ (p : Primitives) where
  -- What a pairing completes to: neither input nor the clipboard is allowed, the sound is.
  abbrev pub fresh_device : ClientInfo → List ℕ → Codec → AuthComplete
  fresh_device client session_key codec = record {
    client = client;
    session_key = session_key;
    codec = codec;
    input_allowed = false;
    clipboard_allowed = false;
    audio_allowed = true;
    newly_paired = true;
  }

  -- What a reconnect completes to: the grants are those of the record.
  abbrev pub known_device : ClientInfo → List ℕ → Codec → TrustedDevice → AuthComplete
  known_device client session_key codec dev = record {
    client = client;
    session_key = session_key;
    codec = codec;
    input_allowed = dev.input_allowed;
    clipboard_allowed = dev.clipboard_allowed;
    audio_allowed = dev.audio_allowed;
    newly_paired = false;
  }

  -- An outcome completes only to what has a proof, and then the handshake is finished.
  abbrev pub Sound : (AuthComplete → Type 0) → Outcome p → Type 0
  Sound P none = Unit {0}
  Sound P (some (s', h', step)) =
      (done : AuthComplete) → step.complete ≡ some done → (h'.phase ≡ finished) × P done

  refuse-Sound :
      (P : AuthComplete → Type 0) (s : AppState) (h : Handshake p) (msg : ControlMsg) (why : String)
      → Sound P (refuse p s h msg why)
  unfolding refuse
  refuse-Sound P s h msg why done e = absurd (none-some e)
    where
      none-some : {a : AuthComplete} → none ≡ some a → ⊥
      none-some q = cc

  pub hello-Sound :
      (P : AuthComplete → Type 0) (s : AppState) (h : Handshake p) (protocol : ℕ)
      (client : ClientInfo) (auth : AuthMethod) (codecs : List Codec)
      → Sound P (on_hello p s h protocol client auth codecs)
  unfolding on_hello refuse
  hello-Sound P s h protocol client auth codecs = ground arith

  answered-Sound :
      (P : AuthComplete → Type 0) (s : AppState) (h : Handshake p) (d : Draws p)
      (r : Option (Result ProtocolError (Spake2Server p.curve)))
      → Sound P (spake2_answered p s h d r)
  unfolding spake2_answered refuse
  answered-Sound P s h d none = tt
  answered-Sound P s h d (some (err x)) = λ done e. absurd cc
  answered-Sound P s h d (some (ok server)) = λ done e. absurd cc

  gated-Sound :
      (P : AuthComplete → Type 0) (s : AppState) (h : Handshake p) (d : Draws p) (share : List ℕ)
      (g : PinGate) (o : Option (List ℕ))
      → p.b64_decode share ≡ o
      → Sound P (spake2_gated p s h d share g)
  unfolding spake2_gated spake2_decoded
  gated-Sound P s h d share (locked_out w) o q =
      refuse-Sound P s h (auth_err (retry_in (w / 1000))) "pairing lockout"
  gated-Sound P s h d share allowed none q =
      rw q (refuse-Sound P s h (auth_err (text "bad share encoding")) "bad spake2 share b64")
  gated-Sound P s h d share allowed (some cs) q =
      let (pins, pin) = current_pin s.pins d.now d.word in
      rw q (
        answered-Sound P (record s { pins = pins }) h d
          (respond p.curve p.hasher p.kdf pin h.nonce cs d.scalar))

  agreed-Sound :
      (P : AuthComplete → Type 0) (s : AppState) (h : Handshake p) (d : Draws p)
      (o : Option (List ℕ))
      → Sound P (pair_decoded p s h d o)
  unfolding pair_decoded pair_agreed
  agreed-Sound P s h d none =
      refuse-Sound P s h (auth_err (text "bad public key encoding")) "bad pubkey b64"
  agreed-Sound P s h d (some key) = shared-Sound (p.ecdh_agree d.secret key)
    where
      shared-Sound : (o : Option (List ℕ)) → Sound P (pair_agreed p s h d key o)
      shared-Sound none = refuse-Sound P s h (auth_err (text "invalid public key")) "bad pubkey"
      shared-Sound (some shared) = λ done e. absurd cc

  pair_gated-Sound :
      (P : AuthComplete → Type 0) (s : AppState) (h : Handshake p) (d : Draws p) (key : List ℕ)
      (g : PinGate)
      → Sound P (pair_gated p s h d key g)
  unfolding pair_gated
  pair_gated-Sound P s h d key (locked_out w) =
      refuse-Sound P s h (auth_err (retry_in (w / 1000))) "pairing lockout"
  pair_gated-Sound P s h d key allowed = agreed-Sound P s h d (p.b64_decode key)

  -- After the proof of a PIN, by either scheme.
  spake2_enrolled-Sound :
      (P : AuthComplete → Type 0) (s : AppState) (h : Handshake p) (d : Draws p) (keys : Spake2Keys)
      (client : ClientInfo) (r : Result IoError (List ℕ))
      → P (paired_device p client keys.session_key (select_codec p s h))
      → Sound P (spake2_enrolled p s h d keys client r)
  unfolding spake2_enrolled
  spake2_enrolled-Sound P s h d keys client (err x) good =
      refuse-Sound P s h (refused_result "host storage error") "trust store error"
  spake2_enrolled-Sound P s h d keys client (ok token) good = λ done e.
      let same : paired_device p client keys.session_key (select_codec p s h) ≡ done = cc in
      (refl, subst P same good)

  pair_enrolled-Sound :
      (P : AuthComplete → Type 0) (s : AppState) (h : Handshake p) (d : Draws p)
      (pair_key session_key : List ℕ) (client : ClientInfo) (r : Result IoError (List ℕ))
      → P (paired_device p client session_key (select_codec p s h))
      → Sound P (pair_enrolled p s h d pair_key session_key client r)
  unfolding pair_enrolled
  pair_enrolled-Sound P s h d pair_key session_key client (err x) good =
      refuse-Sound P s h (refused_pair "host storage error") "trust store error"
  pair_enrolled-Sound P s h d pair_key session_key client (ok token) good = λ done e.
      let same : paired_device p client session_key (select_codec p s h) ≡ done = cc in
      (refl, subst P same good)

  spake2_proved-Sound :
      (P : AuthComplete → Type 0) (s : AppState) (h : Handshake p) (d : Draws p) (keys : Spake2Keys)
      (client : Option ClientInfo)
      → ((c : ClientInfo)
          → client ≡ some c
          → P (paired_device p c keys.session_key (select_codec p s h)))
      → Sound P (spake2_proved p s h d keys client)
  unfolding spake2_proved enroll_client select_codec
  spake2_proved-Sound P s h d keys none good = tt
  spake2_proved-Sound P s h d keys (some client) good =
      let (s', result) = enroll_client p s h d client in
      spake2_enrolled-Sound P s' h d keys client result (good client refl)

  pub spake2_checked-Sound :
      (P : AuthComplete → Type 0) (s : AppState) (h : Handshake p) (d : Draws p) (keys : Spake2Keys)
      (mac : Option (List ℕ))
      → ((c : ClientInfo)
          → mac ≡ some keys.confirm_client
          → h.client ≡ some c
          → P (paired_device p c keys.session_key (select_codec p s h)))
      → Sound P (spake2_checked p s h d keys mac)
  unfolding spake2_checked
  spake2_checked-Sound P s h d keys none good =
      refuse-Sound P s h (refused_result "bad encoding") "bad spake2 mac b64"
  spake2_checked-Sound P s h d keys (some mac) good =
      elim (Bool-cases (mac_equal mac keys.confirm_client)) [
        | inl e ↦
            let same = (mac_equal_iff mac keys.confirm_client).0 e in
            rw e (spake2_proved-Sound P s h d keys h.client (λ c q. good c (ap some same) q))
        | inr e ↦ rw e (
            refuse-Sound P (record s { pins = record_failure s.pins h.peer_ip d.now d.word }) h
              (refused_result "wrong PIN") "wrong PIN (spake2)")
      ]

  pair_wrong-Sound :
      (P : AuthComplete → Type 0) (s : AppState) (h : Handshake p) (d : Draws p)
      → Sound P (pair_wrong p s h d)
  unfolding pair_wrong
  pair_wrong-Sound P s h d =
      refuse-Sound P (record s { pins = record_failure s.pins h.peer_ip d.now d.next_word }) h
        (refused_pair "wrong PIN") "wrong PIN"

  pair_proved-Sound :
      (P : AuthComplete → Type 0) (s : AppState) (h : Handshake p) (d : Draws p)
      (pair_key session_key : List ℕ) (client : Option ClientInfo)
      → ((c : ClientInfo)
          → client ≡ some c
          → P (paired_device p c session_key (select_codec p s h)))
      → Sound P (pair_proved p s h d pair_key session_key client)
  unfolding pair_proved enroll_client select_codec
  pair_proved-Sound P s h d pair_key session_key none good = tt
  pair_proved-Sound P s h d pair_key session_key (some client) good =
      let (s', result) = enroll_client p s h d client in
      pair_enrolled-Sound P s' h d pair_key session_key client result (good client refl)

  pair_opened-Sound :
      (P : AuthComplete → Type 0) (s : AppState) (h : Handshake p) (d : Draws p)
      (pair_key session_key : List ℕ) (r : Result ProtocolError (List ℕ))
      → ((c : ClientInfo)
          → r ≡ ok (confirm_context p ++ h.nonce)
          → h.client ≡ some c
          → P (paired_device p c session_key (select_codec p s h)))
      → Sound P (pair_opened p s h d pair_key session_key r)
  unfolding pair_opened
  pair_opened-Sound P s h d pair_key session_key (err x) good = pair_wrong-Sound P s h d
  pair_opened-Sound P s h d pair_key session_key (ok pt) good =
      elim (Bool-cases (list_eq pt (confirm_context p ++ h.nonce))) [
        | inl e ↦
            let same = list_eq→eq pt (confirm_context p ++ h.nonce) e in
            rw e (
              pair_proved-Sound P s h d pair_key session_key h.client
                (λ c q. good c (ap ok same) q))
        | inr e ↦ rw e (pair_wrong-Sound P s h d)
      ]

  verified-Sound :
      (P : AuthComplete → Type 0) (s : AppState) (h : Handshake p) (session_key : List ℕ)
      (client : Option ClientInfo) (dev : Option TrustedDevice)
      → ((c : ClientInfo) (e : TrustedDevice)
          → client ≡ some c
          → dev ≡ some e
          → P (known_device c session_key (select_codec p s h) e))
      → Sound P (token_verified p s h session_key client dev)
  unfolding token_verified
  verified-Sound P s h session_key client none good =
      refuse-Sound P s h (auth_err (text "unknown device or bad proof; pair again"))
        "token rejected"
  verified-Sound P s h session_key none (some dev) good = tt
  verified-Sound P s h session_key (some client) (some dev) good = λ done e.
      let same : known_device client session_key (select_codec p s h) dev ≡ done = cc in
      (refl, subst P same (good client dev refl refl))

  decoded-Sound :
      (P : AuthComplete → Type 0) (s : AppState) (h : Handshake p) (d : Draws p)
      (shared salt client_pub server_pub device_id : List ℕ) (o : Option (List ℕ))
      → ((c : ClientInfo) (dev : TrustedDevice) (proof : List ℕ)
          → o ≡ some proof
          → Proves p.hasher p.hex s.trust device_id h.nonce client_pub server_pub proof
          → get s.trust device_id ≡ some dev
          → h.client ≡ some c
          → P (known_device c (shared_session_key p shared salt h.nonce) (select_codec p s h) dev))
      → Sound P (token_decoded p s h d shared salt client_pub server_pub device_id o)
  unfolding token_decoded select_codec
  decoded-Sound P s h d shared salt cpub spub id none good =
      refuse-Sound P s h (auth_err (text "bad proof encoding")) "bad proof b64"
  decoded-Sound P s h d shared salt cpub spub id (some proof) good =
      let r = verify p.hasher p.hex s.trust id h.nonce cpub spub proof d.now_unix d.writable in
      let key = shared_session_key p shared salt h.nonce in
      elim (verify_lem p.hasher p.hex s.trust id h.nonce cpub spub proof d.now_unix d.writable) [
        | inl (np, e) ↦
            verified-Sound P (record s { trust = r.0 }) h key h.client r.1
              (λ c dev q v. absurd (ground arith))
        | inr (proves, dev, g, e, rest) ↦
            verified-Sound P (record s { trust = r.0 }) h key h.client r.1
              (λ c dev' q v.
                let same : dev' ≡ record dev { last_seen_unix = d.now_unix } = cc in
                rw same (good c dev proof refl proves g q))
      ]

  pub token-Sound :
      (P : AuthComplete → Type 0) (s : AppState) (h : Handshake p) (d : Draws p)
      (shared salt client_pub server_pub sent : List ℕ) (auth : Option AuthMethod)
      → ((c : ClientInfo) (dev : TrustedDevice) (device_id proof : List ℕ)
          → auth ≡ some (token_of device_id)
          → p.b64_decode sent ≡ some proof
          → Proves p.hasher p.hex s.trust device_id h.nonce client_pub server_pub proof
          → get s.trust device_id ≡ some dev
          → h.client ≡ some c
          → P (known_device c (shared_session_key p shared salt h.nonce) (select_codec p s h) dev))
      → Sound P (on_token_proof p s h d shared salt client_pub server_pub sent auth)
  unfolding on_token_proof
  token-Sound P s h d shared salt cpub spub sent (some (token_of id)) good =
      decoded-Sound P s h d shared salt cpub spub id (p.b64_decode sent)
        (λ c dev proof. good c dev id proof refl)
  token-Sound P s h d shared salt cpub spub sent none good =
      refuse-Sound P s h (auth_err (text "token proof without token auth")) "protocol misuse"
  token-Sound P s h d shared salt cpub spub sent (some pair) good =
      refuse-Sound P s h (auth_err (text "token proof without token auth")) "protocol misuse"
  token-Sound P s h d shared salt cpub spub sent (some pair_spake2) good =
      refuse-Sound P s h (auth_err (text "token proof without token auth")) "protocol misuse"

  pub pair_confirm-Sound :
      (P : AuthComplete → Type 0) (s : AppState) (h : Handshake p) (d : Draws p)
      (shared salt : List ℕ) (o : Option (List ℕ))
      → ((c : ClientInfo) (blob : List ℕ)
          → o ≡ some blob
          → open_blob p
              (pairing_key p shared salt (current_pin s.pins d.now d.word).1 h.nonce)
              blob
              []
            ≡ ok (confirm_context p ++ h.nonce)
          → h.client ≡ some c
          → P (paired_device p c (shared_session_key p shared salt h.nonce) (select_codec p s h)))
      → Sound P (on_pair_confirm p s h d shared salt o)
  unfolding on_pair_confirm select_codec
  pair_confirm-Sound P s h d shared salt none good =
      refuse-Sound P s h (refused_pair "bad encoding") "bad confirm b64"
  pair_confirm-Sound P s h d shared salt (some blob) good =
      let (pins, pin) = current_pin s.pins d.now d.word in
      let pair_key = pairing_key p shared salt pin h.nonce in
      pair_opened-Sound P (record s { pins = pins }) h d pair_key
        (shared_session_key p shared salt h.nonce) (open_blob p pair_key blob [])
        (λ c. good c blob refl)

  pub unexpected-Sound :
      (P : AuthComplete → Type 0) (s : AppState) (h : Handshake p) (msg : ControlMsg)
      → Sound P (unexpected p s h msg)
  unfolding unexpected
  unexpected-Sound P s h msg =
      refuse-Sound P s h (auth_err (unexpected_message (variant_name msg))) "protocol violation"

  pub starts-Sound :
      (P : AuthComplete → Type 0) (s : AppState) (h : Handshake p) (d : Draws p) (key : List ℕ)
      → Sound P (on_pair_start p s h d key)
  unfolding on_pair_start
  starts-Sound P s h d key = elim (Bool-cases (is_pair h.auth)) [
    | inl e ↦
        let (pins, answer) = gate s.pins h.peer_ip d.now in
        rw e (pair_gated-Sound P (record s { pins = pins }) h d key answer)
    | inr e ↦ rw e (agreed-Sound P s h d (p.b64_decode key))
  ]

  pub spake2_starts-Sound :
      (P : AuthComplete → Type 0) (s : AppState) (h : Handshake p) (d : Draws p) (share : List ℕ)
      → Sound P (on_spake2_start p s h d share)
  unfolding on_spake2_start
  spake2_starts-Sound P s h d share =
      let (pins, answer) = gate s.pins h.peer_ip d.now in
      gated-Sound P (record s { pins = pins }) h d share answer (p.b64_decode share) refl
