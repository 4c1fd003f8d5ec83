-- ===== src/Client/Pairing.antt =====
-- shared/client/src/lib.rs with host/service/src/pairing.rs: the two sides of a pairing by the key
-- exchange, joined: each message that one side sends is the next that the other receives.
use nebula_display.Prelude.{
  ℕ, suc, ◌≡◌, refl, ap, Bool, true, false, none, some, List, [], ◌∷◌, length, codes, map, ok,
}
use nebula_display.Protocol.Media.{Codec}
use nebula_display.Protocol.Crypto.{mac_equal_iff}
use nebula_display.Protocol.Envelope.{IsAead}
use nebula_display.Protocol.Spake2.{
  Spake2Keys, Spake2Client, Spake2Server, IsCurve, start, respond, finish, decode_point,
}
use nebula_display.Protocol.Spake2.Agreement.{same_pin_agrees}
use nebula_display.Protocol.Messages.{
  ClientInfo, pair_spake2, DisplayMode, ControlMsg, hello, spake2_start, spake2_challenge,
  spake2_confirm, auth_ok,
}
use nebula_display.Host.Pin.{PinManager, allowed, gate, current_pin}
use nebula_display.Host.Handshake.{
  Primitives, AppState, AuthComplete, Draws, await_spake2_confirm, finished, Handshake,
  new_handshake, select_codec, auth_ok_reply, seal_blob, open_blob, paired_device,
}
use nebula_display.Host.Trust.{TrustedDevice, get, new_device}
use nebula_display.Host.Pairing.{protocol_version}
use nebula_display.Client.Handshake.{
  Secrets, handshake, acknowledged, authenticate, pair_by_exchange, confirmed, accept_token,
  conclude, ack_of, share_of, result_of, auth_of, decode64,
}
use nebula_display.Client.{
  by_pin, text, Inbound, ws, connected, Run, send_json, send_with, await, attempt, expecting,
  receive,
}
use nebula_display.Client.Steps.{session_of, paired}
use nebula_display.Client.Serve.{
  serve, serve-step, arrivals, Arrival, open_blob-seal_blob, greeted, ack, process-hello,
  process-spake2_start, enrolled, enrolled-device, enrolled-saved, granted, process-spake2_confirm,
}

module _ (p : Primitives) where
  -- The client, on the answers of such a host.
  abbrev answers_of :
      AppState
      → List ℕ
      → Spake2Server p.curve
      → Draws p
      → Codec
      → DisplayMode
      → Bool
      → List ControlMsg
  answers_of s nonce server d codec mode can_input =
      ack p s nonce
      ∷ spake2_challenge (p.b64_encode server.share)
      ∷ granted p d server.keys
      ∷ auth_ok codec mode can_input
      ∷ []

  abbrev pub delivered : List ControlMsg → Inbound
  delivered msgs = ws (map (λ m. text (some m)) msgs)

  abbrev requests : ClientInfo → List Codec → Spake2Client p.curve → Spake2Keys → List ControlMsg
  requests client codecs pake keys =
      hello protocol_version client pair_spake2 codecs
      ∷ spake2_start (p.b64_encode pake.share)
      ∷ spake2_confirm (p.b64_encode keys.confirm_client)
      ∷ []

  handshake-answers :
      (e : Secrets p) (room : ℕ) (client : ClientInfo) (chars : List ℕ) (codecs : List Codec)
      (s : AppState) (nonce : List ℕ) (pake : Spake2Client p.curve) (server : Spake2Server p.curve)
      (d : Draws p) (codec : Codec) (mode : DisplayMode) (can_input : Bool)
      → ((bytes : List ℕ) → p.b64_decode (p.b64_encode bytes) ≡ some bytes)
      → start p.curve p.hasher chars nonce e.scalar ≡ some pake
      → finish p.curve p.hasher p.kdf pake server.share ≡ some (ok server.keys)
      → open_blob p server.keys.token_key
          (seal_blob p d.seal_nonce server.keys.token_key d.token (codes "token"))
          (codes "token")
        ≡ ok d.token
      → handshake p e
          (record {
            inbound = delivered (answers_of s nonce server d codec mode can_input);
            room = suc (suc (suc room));
          })
          client
          (by_pin chars)
          codecs
        ≡ record {
          sent = requests client codecs pake server.keys;
          ended = connected (
              session_of server.keys.session_key
                (paired p client s.fingerprint d.token)
                s.fingerprint
                codec
                mode
                can_input);
        }
  unfolding handshake acknowledged authenticate pair_by_exchange confirmed accept_token conclude
      send_json send_with await attempt expecting receive ack_of share_of result_of auth_of decode64
  handshake-answers e room client chars codecs s nonce pake server d codec mode can_input b64 begun
        over opens =
      let same = (mac_equal_iff server.keys.confirm_server server.keys.confirm_server).1 refl in
      rw (b64, begun, b64, over, b64, same, b64, opens) refl

  -- A client that pairs by the key exchange with the PIN that the host shows, on a connection that
  -- loses nothing, gets the session that the host completes to, when the gate lets its address through,
  -- the two shares can be used, and the store can be written: what the client sends makes the host
  -- answer what the client receives; both hold the same session key, codec and grant of input; and the
  -- client keeps, under the host's fingerprint, the token by which the host's store, which is saved, then
  -- knows the device.
  pub pairing_completes :
      (curve_laws : IsCurve p.curve) (cipher_laws : IsAead p.aead)
      (b64 : (bytes : List ℕ) → p.b64_decode (p.b64_encode bytes) ≡ some bytes) (s : AppState)
      (ip : ℕ) (nonce : List ℕ) (client : ClientInfo) (codecs : List Codec) (chars : List ℕ)
      (e : Secrets p) (d0 d1 d2 : Draws p) (pins pins' : PinManager) (pake : Spake2Client p.curve)
      (server : Spake2Server p.curve) (pb : p.curve.Point) (room : ℕ)
      → gate s.pins ip d1.now ≡ (pins, allowed)
      → current_pin pins d1.now d1.word ≡ (pins', chars)
      → start p.curve p.hasher chars nonce e.scalar ≡ some pake
      → respond p.curve p.hasher p.kdf chars nonce pake.share d1.scalar ≡ some (ok server)
      → decode_point p.curve server.share ≡ ok pb
      → d2.writable ≡ true
      → length d2.seal_nonce ≡ 12
      → (replies : List ControlMsg) × (done : AuthComplete) × (after : AppState)
        × (dev : TrustedDevice) × (let run =
              handshake p e
                (record { inbound = delivered replies; room = suc (suc (suc room)) })
                client
                (by_pin chars)
                codecs in
            (serve p s (new_handshake p ip nonce) (arrivals p (d0 ∷ d1 ∷ d2 ∷ []) run.sent)
              ≡ some (after, replies, some done))
            × (run.ended
                ≡ connected (
                    session_of done.session_key
                      (paired p client s.fingerprint d2.token)
                      s.fingerprint
                      done.codec
                      s.mode
                      done.input_allowed))
            × (get after.trust client.device_id ≡ some dev)
            × (dev.token_hex ≡ p.hex.encode d2.token)
            × (after.trust.saved ≡ after.trust.devices))
  unfolding serve auth_ok_reply
  pairing_completes curve_laws cipher_laws b64 s ip nonce client codecs chars e d0 d1 d2 pins pins'
        pake server pb room gated shown begun responds decodes good len =
      let over =
        same_pin_agrees p.curve p.hasher p.kdf curve_laws chars nonce e.scalar d1.scalar pake server
          pb begun responds decodes in
      let opens =
        open_blob-seal_blob p cipher_laws d2.seal_nonce server.keys.token_key d2.token
          (codes "token") len in
      let h = greeted p ip nonce client codecs in
      let waiting : Handshake p = record h { phase = await_spake2_confirm server } in
      let s' : AppState = record s { pins = pins' } in
      let after = enrolled p s' waiting d2 client in
      let codec = select_codec p after waiting in
      let run =
        handshake-answers e room client chars codecs s nonce pake server d2 codec s.mode false b64
          begun over opens in
      let first = process-hello p s ip nonce d0 client codecs in
      let second =
        process-spake2_start p s h d1 pake.share chars pins pins' server refl refl (b64 pake.share)
          gated shown responds in
      let third =
        process-spake2_confirm p s' waiting d2 client server refl refl
          (b64 server.keys.confirm_client) good in
      let third_arrival : Arrival p = record {
        draws = d2;
        message = spake2_confirm (p.b64_encode server.keys.confirm_client);
      } in
      let second_arrival : Arrival p = record {
        draws = d1;
        message = spake2_start (p.b64_encode pake.share);
      } in
      let first_arrival : Arrival p = record {
        draws = d0;
        message = hello protocol_version client pair_spake2 codecs;
      } in
      let confirmed_to =
        serve-step p s' after after waiting (record waiting { phase = finished }) third_arrival [] _
          [] none third refl in
      let challenged =
        serve-step p s s' after h waiting second_arrival (third_arrival ∷ []) _ _ _ second
          confirmed_to in
      let served =
        serve-step p s s after (new_handshake p ip nonce) h first_arrival
          (second_arrival ∷ third_arrival ∷ []) _ _ _ first challenged in
      (
        answers_of s nonce server d2 codec s.mode false,
        paired_device p client server.keys.session_key codec,
        after,
        new_device p.hex client.device_id client.name client.platform d2.token d2.now_unix,
        (
          rw run served,
          ap (λ (r : Run). r.ended) run,
          enrolled-device p s' waiting d2 client,
          refl,
          enrolled-saved p s' waiting d2 client,
        ),
      )
