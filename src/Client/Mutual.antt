-- ===== src/Client/Mutual.antt =====
-- shared/client/src/lib.rs: what a pairing by the key exchange has established when it gives a session.
use nebula_display.Prelude.{
  ℕ, ◌≡◌, refl, ap, ◌∙◌, inl, inr, Bool, true, Bool-cases, Option, some, List, ◌∷◌, codes, ok,
}
use nebula_display.Protocol.Media.{Codec}
use nebula_display.Protocol.Crypto.{mac_equal, mac_equal_iff}
use nebula_display.Protocol.Spake2.{Spake2Keys, Spake2Client, start, finish}
use nebula_display.Protocol.Messages.{
  ClientInfo, ServerInfo, ErrorText, ControlMsg, hello_ack, spake2_challenge, spake2_result,
  auth_ok,
}
use nebula_display.Host.Handshake.{Primitives, open_blob}
use nebula_display.Client.Handshake.{
  Secrets, decode64, accept_token, confirmed, pair_by_exchange, authenticate, handshake,
}
use nebula_display.Client.{by_pin, Session, Inbound, Wire}
use nebula_display.Client.{spake2_failed, confirmation_failed, connected}
use nebula_display.Client.Answers.{
  Sound, failed-Sound, attempt-Sound, expecting-Sound, send-Sound, await-Sound, answers,
}
use nebula_display.Client.Steps.{
  decoded, share_of_lem, result_of_lem, session_of, unblamed, token-Sound, handshake-Sound,
}

module _ (p : Primitives) where
  -- What a session by the key exchange rests on: the four answers of the server in their order, the keys
  -- of the exchange with its share, its proof of the same keys, and the token under them.
  pub record IsMutual (e : Secrets p) (client : ClientInfo) (chars : List ℕ)
      (heard : List ControlMsg) (s : Session) : Type 0 where
    pub protocol : ℕ
    pub server : ServerInfo
    pub needed : Bool
    pub nonce64 : List ℕ
    pub share64 : List ℕ
    pub mac64 : List ℕ
    pub token64 : List ℕ
    pub error : Option ErrorText
    pub later : List ControlMsg
    pub answered :
        heard
        ≡ hello_ack protocol server needed nonce64
          ∷ spake2_challenge share64
          ∷ spake2_result true (some mac64) (some token64) error
          ∷ auth_ok s.codec s.mode s.input_allowed
          ∷ later
    pub nonce : List ℕ
    pub nonce_read : p.b64_decode nonce64 ≡ some nonce
    pub share : List ℕ
    pub share_read : p.b64_decode share64 ≡ some share
    pub pake : Spake2Client p.curve
    pub started : start p.curve p.hasher chars nonce e.scalar ≡ some pake
    pub keys : Spake2Keys
    pub agreed : finish p.curve p.hasher p.kdf pake share ≡ some (ok keys)
    pub proved : p.b64_decode mac64 ≡ some keys.confirm_server
    pub sealed : List ℕ
    pub sealed_read : p.b64_decode token64 ≡ some sealed
    pub token : List ℕ
    pub opened : open_blob p keys.token_key sealed (codes "token") ≡ ok token
    pub session :
        s
        ≡ session_of keys.session_key
            (some (record {
              device_id = client.device_id;
              token = token;
              host_fingerprint = server.fingerprint;
            }))
            server.fingerprint
            s.codec
            s.mode
            s.input_allowed

  confirmed-Sound :
      (P : Session → Type 0) (w : Wire) (client : ClientInfo) (fingerprint : List ℕ)
      (keys : Spake2Keys) (mac tok : List ℕ)
      → (mac ≡ keys.confirm_server
          → Sound P (accept_token p w client fingerprint keys.session_key keys.token_key tok))
      → Sound P (confirmed p w client fingerprint keys mac tok)
  unfolding confirmed
  confirmed-Sound P w client fingerprint keys mac tok good =
      elim (Bool-cases (mac_equal mac keys.confirm_server)) [
        | inl q ↦ rw q (good ((mac_equal_iff mac keys.confirm_server).0 q))
        | inr q ↦ rw q (failed-Sound P confirmation_failed)
      ]

  exchange-Sound :
      (P : Session → Type 0) (e : Secrets p) (w : Wire) (client : ClientInfo)
      (fingerprint nonce chars : List ℕ)
      → ((pake : Spake2Client p.curve) (i j : Inbound) (share64 share mac64 tok mac : List ℕ)
            (keys : Spake2Keys) (error : Option ErrorText) (n : ℕ)
          → start p.curve p.hasher chars nonce e.scalar ≡ some pake
          → answers w.inbound ≡ spake2_challenge share64 ∷ answers i
          → p.b64_decode share64 ≡ some share
          → finish p.curve p.hasher p.kdf pake share ≡ some (ok keys)
          → answers i ≡ spake2_result true (some mac64) (some tok) error ∷ answers j
          → p.b64_decode mac64 ≡ some mac
          → Sound P
              (confirmed p (record { inbound = j; room = n }) client fingerprint keys mac tok))
      → Sound P (pair_by_exchange p e w client fingerprint nonce chars)
  unfolding pair_by_exchange decode64
  exchange-Sound P e w client fingerprint nonce chars good = expecting-Sound P _ _ (λ pake begun.
      send-Sound P w _ _ (λ n. await-Sound P _ _ _ (λ i m share heard seen.
        expecting-Sound P _ _ (λ done over. attempt-Sound P _ _ (λ keys fine.
          send-Sound P _ _ _ (λ n2. await-Sound P _ _ _ (λ j m2 answer heard2 seen2.
            attempt-Sound P _ _ (λ mac read.
              let (share64, said, decoded_share) = share_of_lem p m share seen in
              let (mac64, tok) = answer in
              let (error, said2) = result_of_lem m2 mac64 tok seen2 in
              good pake i j share64 share mac64 tok mac keys error n2 begun
                (heard ∙ ap (λ z. z ∷ answers i) said) decoded_share
                (over ∙ ap some (unblamed p spake2_failed done keys fine))
                (heard2 ∙ ap (λ z. z ∷ answers j) said2) (decoded p mac64 mac read)))))))))

  -- If a handshake with a PIN gives a session, the server sent an acknowledgement, its share, its result
  -- and an acceptance, in this order; the result carries the server's own confirmation of the keys that
  -- the PIN, the nonce and the server's share give; the token that is kept opens under the token key of
  -- these keys; and the session's two directions stand on their session key.
  pub pin_session-IsMutual :
      (e : Secrets p) (w : Wire) (client : ClientInfo) (chars : List ℕ) (codecs : List Codec)
      (s : Session)
      → (handshake p e w client (by_pin chars) codecs).ended ≡ connected s
      → IsMutual e client chars (answers w.inbound) s
  unfolding authenticate
  pin_session-IsMutual e w client chars codecs s ends =
      let P = λ (t : Session). IsMutual e client chars (answers w.inbound) t in
      let sound =
        handshake-Sound p P e w client (by_pin chars) codecs
          (λ i protocol server needed nonce64 nonce n acked nonce_read own.
            exchange-Sound P e (record { inbound = i; room = n }) client server.fingerprint nonce
              chars
              (λ pake j k share64 share mac64 tok mac keys error m begun shared share_read agreed
                  resulted mac_read.
                confirmed-Sound P (record { inbound = k; room = m }) client server.fingerprint keys
                  mac tok
                  (λ same.
                    token-Sound p P (record { inbound = k; room = m }) client server.fingerprint
                      keys.session_key keys.token_key tok
                      (λ l sealed token codec mode allowed sealed_read opened accepted. record {
                        protocol = protocol;
                        server = server;
                        needed = needed;
                        nonce64 = nonce64;
                        share64 = share64;
                        mac64 = mac64;
                        token64 = tok;
                        error = error;
                        later = answers l;
                        answered =
                            acked
                            ∙ ap (λ z. hello_ack protocol server needed nonce64 ∷ z)
                                (shared
                                  ∙ ap (λ z. spake2_challenge share64 ∷ z)
                                      (resulted
                                        ∙ ap
                                            (λ z.
                                              spake2_result true (some mac64) (some tok) error ∷ z)
                                            accepted));
                        nonce = nonce;
                        nonce_read = nonce_read;
                        share = share;
                        share_read = share_read;
                        pake = pake;
                        started = begun;
                        keys = keys;
                        agreed = agreed;
                        proved = mac_read ∙ ap some same;
                        sealed = sealed;
                        sealed_read = sealed_read;
                        token = token;
                        opened = opened;
                        session = refl;
                      })))) in
      sound.holds s ends
