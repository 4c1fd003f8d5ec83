-- ===== src/Client/Handshake.antt =====
-- shared/client/src/lib.rs: `handshake`, with the primitives of the host. The arms of each match on a message
-- are a function of their own; what a handshake draws at random stands in `Secrets`.
use nebula_display.Prelude.{
  ℕ, Bool, true, false, not, Option, none, some, List, [], ◌++◌, if◌then◌else◌, list_eq, codes,
  Result, ok, err, ◌>>=◌, ok_or,
}
use nebula_display.Protocol.Error.{ProtocolError}
use nebula_display.Protocol.Media.{Codec}
use nebula_display.Protocol.Crypto.{mac_equal, reauth_transcript, token_proof}
use nebula_display.Protocol.Envelope.{new_sealer, new_opener, server_to_client, client_to_server}
use nebula_display.Protocol.Spake2.{Spake2Keys, start, finish}
use nebula_display.Protocol.Messages.{
  ClientInfo, ServerInfo, AuthMethod, pair, pair_spake2, token_of, DisplayMode, ErrorText,
  ControlMsg, hello, hello_ack, pair_start, pair_challenge, pair_confirm, pair_result, spake2_start,
  spake2_challenge, spake2_confirm, spake2_result, auth_ok, auth_err,
}
use nebula_display.Protocol.Messages as Messages
use nebula_display.Host.Pairing.{protocol_version}
use nebula_display.Host.Handshake.{
  Primitives, pairing_key, shared_session_key, seal_blob, open_blob,
}
use nebula_display.Prelude.{leb, ltb, length, get_or, ◌&&◌, ◌||◌}
use nebula_display.Client.{Ended, panicked}
use nebula_display.Client.{
  Credentials, Auth, by_pin, by_pin_legacy, by_token, Failure, bad_base64, fingerprint_changed,
  confirmation_failed, ecdh_failed, expected, rejected, pairing_failed, spake2_failed, token_unseal,
  Wire, connected, failed, Run, stop, send_json, attempt, expecting, await,
}

-- The arms of the matches on a message.
unfoldable pub auth_of : ControlMsg → Result Failure (Codec × DisplayMode × Bool)
auth_of (auth_ok codec mode input_allowed) = ok (codec, mode, input_allowed)
auth_of (auth_err error) = err (rejected error)
auth_of other = err (expected other)

unfoldable pub result_of : ControlMsg → Result Failure (List ℕ × List ℕ)
result_of (spake2_result true (some mac) (some tok) error) = ok (mac, tok)
result_of (spake2_result false mac tok error) = err (pairing_failed error)
result_of other = err (expected other)

unfoldable pub legacy_result_of : ControlMsg → Result Failure (List ℕ)
legacy_result_of (pair_result true (some tok) error) = ok tok
legacy_result_of (pair_result false tok error) = err (pairing_failed error)
legacy_result_of other = err (expected other)

module _ (p : Primitives) where
  pub record Secrets : Type 0 where
    pub scalar : p.curve.Scalar
    pub secret : List ℕ
    pub seal_nonce : List ℕ

  unfoldable pub decode64 : List ℕ → Result Failure (List ℕ)
  decode64 chars = ok_or (p.b64_decode chars) bad_base64

  unfoldable pub ack_of : ControlMsg → Result Failure (ServerInfo × List ℕ)
  unfolding decode64
  ack_of (hello_ack protocol server pairing_needed nonce) =
      decode64 nonce >>= λ bytes. ok (server, bytes)
  ack_of other = err (expected other)

  unfoldable pub share_of : ControlMsg → Result Failure (List ℕ)
  unfolding decode64
  share_of (spake2_challenge share) = decode64 share
  share_of (auth_err error) = err (rejected error)
  share_of other = err (expected other)

  unfoldable pub challenge_of : ControlMsg → Result Failure (List ℕ × List ℕ)
  unfolding decode64
  challenge_of (pair_challenge server_pubkey salt) =
      decode64 server_pubkey >>= λ key. decode64 salt >>= λ bytes. ok (key, bytes)
  challenge_of (auth_err error) = err (rejected error)
  challenge_of other = err (expected other)

  -- `map_err` of the errors of the protocol library.
  abbrev pub blame :
      {A : Type 0} → (ProtocolError → Failure) → Result ProtocolError A → Result Failure A
  blame f (ok a) = ok a
  blame f (err e) = err (f e)

  -- The last answer, and the session.
  unfoldable pub conclude : Wire → List ℕ → Option Credentials → List ℕ → Run
  conclude w session_key new_credentials fingerprint = await auth_of w (λ w' answer.
      let (codec, mode, input_allowed) = answer in
      stop (
        connected (record {
          sealer = new_sealer session_key client_to_server;
          opener = new_opener session_key server_to_client;
          codec = codec;
          mode = mode;
          input_allowed = input_allowed;
          new_credentials = new_credentials;
          server_fingerprint = fingerprint;
        })))

  -- A token that a pairing brings, opened under the key of the pairing.
  unfoldable pub accept_token : Wire → ClientInfo → (fingerprint session_key key tok : List ℕ) → Run
  accept_token w client fingerprint session_key key tok = attempt (decode64 tok) (λ sealed.
      attempt (blame token_unseal (open_blob p key sealed (codes "token"))) (λ bytes.
        conclude w session_key
          (some (record {
            device_id = client.device_id;
            token = bytes;
            host_fingerprint = fingerprint;
          }))
          fingerprint))

  unfoldable pub confirmed : Wire → ClientInfo → List ℕ → Spake2Keys → List ℕ → List ℕ → Run
  confirmed w client fingerprint keys mac tok =
      if not (mac_equal mac keys.confirm_server)
      then stop (failed confirmation_failed)
      else accept_token w client fingerprint keys.session_key keys.token_key tok

  -- Pairing by the key exchange.
  unfoldable pub pair_by_exchange :
      Secrets → Wire → ClientInfo → (fingerprint nonce pin : List ℕ) → Run
  pair_by_exchange e w client fingerprint nonce pin =
      expecting (start p.curve p.hasher pin nonce e.scalar) (λ pake.
        send_json w (spake2_start (p.b64_encode pake.share)) (λ w.
          await share_of w (λ w server_share.
            expecting (finish p.curve p.hasher p.kdf pake server_share) (λ finished.
              attempt (blame spake2_failed finished) (λ keys.
                send_json w (spake2_confirm (p.b64_encode keys.confirm_client)) (λ w.
                  await result_of w (λ w answer.
                    attempt (decode64 answer.0)
                      (λ mac. confirmed w client fingerprint keys mac answer.1))))))))

  unfoldable pub pair_legacy :
      Secrets → Wire → ClientInfo → (fingerprint nonce pin shared salt : List ℕ) → Run
  pair_legacy e w client fingerprint nonce pin shared salt =
      let pair_key = pairing_key p shared salt pin nonce in
      send_json w
        (pair_confirm
          (p.b64_encode (seal_blob p e.seal_nonce pair_key (codes "ndsp-confirm-v1" ++ nonce) [])))
        (λ w. await legacy_result_of w (λ w tok.
          accept_token w client fingerprint (shared_session_key p shared salt nonce) pair_key tok))

  unfoldable pub reconnect :
      Wire → Credentials → (fingerprint nonce client_pub server_pub shared salt : List ℕ) → Run
  reconnect w creds fingerprint nonce client_pub server_pub shared salt =
      let proof =
        token_proof p.hasher creds.token (reauth_transcript nonce client_pub server_pub) in
      send_json w (Messages.token_proof (p.b64_encode proof))
        (λ w. conclude w (shared_session_key p shared salt nonce) none fingerprint)

  -- The exchange of keys before the older pairing and before a reconnect.
  unfoldable pub agree :
      Secrets → Wire → List ℕ → (Wire → (server_pub shared salt : List ℕ) → Run) → Run
  agree e w client_pub k = send_json w (pair_start (p.b64_encode client_pub)) (λ w.
      await challenge_of w (λ w answer.
        attempt (ok_or (p.ecdh_agree e.secret answer.0) ecdh_failed)
          (λ shared. k w answer.0 shared answer.1)))

  unfoldable pub authenticate :
      Secrets → Wire → ClientInfo → (fingerprint nonce : List ℕ) → Auth → Run
  authenticate e w client fingerprint nonce (by_pin chars) =
      pair_by_exchange e w client fingerprint nonce chars
  authenticate e w client fingerprint nonce (by_pin_legacy chars) =
      agree e w (p.ecdh_public e.secret)
        (λ w server_pub shared salt. pair_legacy e w client fingerprint nonce chars shared salt)
  authenticate e w client fingerprint nonce (by_token creds) =
      let client_pub = p.ecdh_public e.secret in
      agree e w client_pub (λ w server_pub shared salt.
        reconnect w creds fingerprint nonce client_pub server_pub shared salt)

  abbrev pub auth_method : Auth → AuthMethod
  auth_method (by_pin chars) = pair_spake2
  auth_method (by_pin_legacy chars) = pair
  auth_method (by_token creds) = token_of creds.device_id

  abbrev pub foreign_host : Auth → List ℕ → Bool
  foreign_host (by_token creds) fingerprint = not (list_eq creds.host_fingerprint fingerprint)
  foreign_host _ fingerprint = false

  -- `&text[..16.min(text.len())]`, which panics where a character goes on past the sixteenth byte.
  abbrev pub cuts_at_16 : List ℕ → Bool
  cuts_at_16 bytes =
      leb (length bytes) 16 || (ltb (get_or bytes 16 0) 0x80 || leb 0xc0 (get_or bytes 16 0))

  -- The error, whose text shows the front of both fingerprints.
  unfoldable pub refusal : Auth → List ℕ → Ended
  refusal (by_token creds) fingerprint =
      if cuts_at_16 fingerprint && cuts_at_16 creds.host_fingerprint
      then failed fingerprint_changed
      else panicked
  refusal auth fingerprint = failed fingerprint_changed

  unfoldable pub acknowledged :
      Secrets → Wire → ClientInfo → Auth → (fingerprint nonce : List ℕ) → Run
  acknowledged e w client auth fingerprint nonce =
      if foreign_host auth fingerprint
      then stop (refusal auth fingerprint)
      else authenticate e w client fingerprint nonce auth

  -- `handshake`.
  unfoldable pub handshake : Secrets → Wire → ClientInfo → Auth → List Codec → Run
  handshake e w client auth codecs =
      send_json w (hello protocol_version client (auth_method auth) codecs) (λ w.
        await ack_of w (λ w answer. acknowledged e w client auth answer.0.fingerprint answer.1))
