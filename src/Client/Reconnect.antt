-- ===== src/Client/Reconnect.antt =====
-- shared/client/src/lib.rs: the reconnect of a device with its token.
use nebula_display.Prelude.{
  ℕ, zero, suc, ◌≡◌, ◌≢◌, refl, ap, ◌∙◌, arith, ◌⊎◌, inl, inr, Bool, false, Bool-cases,
  Option-cases, Option, none, some, List, [], ◌∷◌, list_eq→eq, Result, ok, err, ◌>>=◌, ok_or,
}
use nebula_display.Protocol.Media.{Codec}
use nebula_display.Protocol.Messages.{
  ClientInfo, ServerInfo, ControlMsg, hello, hello_ack, pair_challenge, token_of, auth_ok,
}
use nebula_display.Host.Handshake.{Primitives, shared_session_key}
use nebula_display.Host.Pairing.{protocol_version}
use nebula_display.Client.Handshake.{
  Secrets, decode64, ack_of, challenge_of, reconnect, agree, authenticate, acknowledged, handshake,
  foreign_host,
}
use nebula_display.Client.{
  Credentials, by_token, Session, Failure, Inbound, Wire, Run, connected, ecdh_failed, receive,
  send_with, send_json, attempt, await,
}
use nebula_display.Client.Answers.{
  attempt-Sound, send-Sound, await-Sound, answers, receive-answers, bound-ok,
}
use nebula_display.Client.Steps.{ack_of_lem, session_of, conclude-Sound, handshake-Sound}

module _ (p : Primitives) where
  challenge_of_lem :
      (m : ControlMsg) (key salt : List ℕ)
      → challenge_of p m ≡ ok (key, salt)
      → (key64 salt64 : List ℕ) × (m ≡ pair_challenge key64 salt64)
        × (p.b64_decode key64 ≡ some key)
        × (p.b64_decode salt64 ≡ some salt)
  unfolding challenge_of decode64
  challenge_of_lem (pair_challenge a b) key salt h = elim (Option-cases (p.b64_decode a)) [
    | inl q ↦ absurd (ground arith)
    | inr (x, q) ↦ elim (Option-cases (p.b64_decode b)) [
      | inl r ↦ absurd (ground arith)
      | inr (y, r) ↦ (a, b, refl, ground arith, ground arith)
    ]
  ]
  challenge_of_lem _ key salt h = absurd cc

  -- What a session by a token rests on: an acknowledgement with the fingerprint of the pairing, a
  -- challenge, an acceptance, and the secret shared with the key of the challenge.
  pub record IsReconnect (e : Secrets p) (creds : Credentials) (heard : List ControlMsg)
      (s : Session) : Type 0 where
    pub protocol : ℕ
    pub server : ServerInfo
    pub needed : Bool
    pub nonce64 : List ℕ
    pub key64 : List ℕ
    pub salt64 : List ℕ
    pub later : List ControlMsg
    pub answered :
        heard
        ≡ hello_ack protocol server needed nonce64
          ∷ pair_challenge key64 salt64
          ∷ auth_ok s.codec s.mode s.input_allowed
          ∷ later
    pub same_host : creds.host_fingerprint ≡ server.fingerprint
    pub nonce : List ℕ
    pub nonce_read : p.b64_decode nonce64 ≡ some nonce
    pub key : List ℕ
    pub key_read : p.b64_decode key64 ≡ some key
    pub salt : List ℕ
    pub salt_read : p.b64_decode salt64 ≡ some salt
    pub shared : List ℕ
    pub agreed : p.ecdh_agree e.secret key ≡ some shared
    pub session :
        s
        ≡ session_of
            (shared_session_key p shared salt nonce)
            none
            server.fingerprint
            s.codec
            s.mode
            s.input_allowed

  own_host :
      (creds : Credentials) (fingerprint : List ℕ)
      → foreign_host p (by_token creds) fingerprint ≡ false
      → creds.host_fingerprint ≡ fingerprint
  own_host creds fingerprint h = list_eq→eq creds.host_fingerprint fingerprint (ground arith)

  agreed_secret : (o : Option (List ℕ)) (a : List ℕ) → ok_or o ecdh_failed ≡ ok a → o ≡ some a
  agreed_secret none a h = cc
  agreed_secret (some b) a h = cc

  -- If a handshake with a token gives a session, the server acknowledged with the fingerprint that was
  -- seen at the pairing, sent a challenge and accepted, in this order; the session's two directions
  -- stand on the key of the secret that is shared with the challenge's key, and no new credentials are kept.
  pub token_session-IsReconnect :
      (e : Secrets p) (w : Wire) (client : ClientInfo) (creds : Credentials) (codecs : List Codec)
      (s : Session)
      → (handshake p e w client (by_token creds) codecs).ended ≡ connected s
      → IsReconnect e creds (answers w.inbound) s
  unfolding authenticate agree reconnect
  token_session-IsReconnect e w client creds codecs s ends =
      let P = λ (t : Session). IsReconnect e creds (answers w.inbound) t in
      let sound =
        handshake-Sound p P e w client (by_token creds) codecs
          (λ i protocol server needed nonce64 nonce n acked nonce_read own.
            send-Sound P _ _ _ (λ n1. await-Sound P _ _ _ (λ j m answer heard seen.
              attempt-Sound P _ _ (λ shared agrees. send-Sound P _ _ _ (λ n2.
                conclude-Sound p P _ _ _ _ (λ k codec mode allowed accepted.
                  let (key, salt) = answer in
                  let (key64, salt64, said, key_read, salt_read) =
                    challenge_of_lem m key salt seen in
                  record {
                    protocol = protocol;
                    server = server;
                    needed = needed;
                    nonce64 = nonce64;
                    key64 = key64;
                    salt64 = salt64;
                    later = answers k;
                    answered =
                        acked
                        ∙ ap (λ z. hello_ack protocol server needed nonce64 ∷ z)
                            (heard
                              ∙ ap (λ z. z ∷ answers j) said
                              ∙ ap (λ z. pair_challenge key64 salt64 ∷ z) accepted);
                    same_host = own_host creds server.fingerprint own;
                    nonce = nonce;
                    nonce_read = nonce_read;
                    key = key;
                    key_read = key_read;
                    salt = salt;
                    salt_read = salt_read;
                    shared = shared;
                    agreed = agreed_secret (p.ecdh_agree e.secret key) shared agrees;
                    session = refl;
                  })))))) in
      sound.holds s ends

  -- A run that sends nothing, and one that sends this message at most.
  record IsQuiet (run : Run) : Type 0 where
    quiet : run.sent ≡ []

  record SendsAtMost (msg : ControlMsg) (run : Run) : Type 0 where
    sends : (run.sent ≡ []) ⊎ (run.sent ≡ msg ∷ [])

  attempt-IsQuiet :
      {A : Type 0} (r : Result Failure A) (k : A → Run)
      → ((a : A) → r ≡ ok a → IsQuiet (k a))
      → IsQuiet (attempt r k)
  unfolding attempt
  attempt-IsQuiet (err e) k h = record { quiet = refl }
  attempt-IsQuiet (ok a) k h = h a refl

  await-IsQuiet :
      {A : Type 0} (view : ControlMsg → Result Failure A) (w : Wire) (k : Wire → A → Run)
      → ((i : Inbound) (m : ControlMsg) (a : A)
          → answers w.inbound ≡ m ∷ answers i
          → view m ≡ ok a
          → IsQuiet (k (record w { inbound = i }) a))
      → IsQuiet (await view w k)
  unfolding await
  await-IsQuiet view w k h = attempt-IsQuiet ((receive w.inbound).0 >>= view) _ (λ a bound.
      let (m, received, seen) = bound-ok (receive w.inbound).0 view a bound in
      h (receive w.inbound).1 m a (receive-answers w.inbound m received) seen)

  send-SendsAtMost :
      (w : Wire) (msg : ControlMsg) (k : Wire → Run)
      → ((n : ℕ) → IsQuiet (k (record w { room = n })))
      → SendsAtMost msg (send_json w msg k)
  unfolding send_json send_with
  send-SendsAtMost w msg k h = elim w.room as (λ n. SendsAtMost msg (send_with w msg k n)) [
    | zero ↦ record { sends = inl refl }
    | suc n ↦ record { sends = inr (ap (λ z. msg ∷ z) (h n).quiet) }
  ]

  acknowledged-IsQuiet :
      (e : Secrets p) (w : Wire) (client : ClientInfo) (creds : Credentials)
      (fingerprint nonce : List ℕ)
      → creds.host_fingerprint ≢ fingerprint
      → IsQuiet (acknowledged p e w client (by_token creds) fingerprint nonce)
  unfolding acknowledged
  acknowledged-IsQuiet e w client creds fingerprint nonce foreign =
      elim (Bool-cases (foreign_host p (by_token creds) fingerprint)) [
        | inl q ↦ rw q (record { quiet = refl })
        | inr q ↦ absurd (foreign (own_host creds fingerprint q))
      ]

  -- A client with a token sends nothing after its hello unless the first message of the server is an
  -- acknowledgement with the fingerprint that was seen at the pairing.
  pub token_withheld :
      (e : Secrets p) (w : Wire) (client : ClientInfo) (creds : Credentials) (codecs : List Codec)
      → ((protocol : ℕ) (server : ServerInfo) (needed : Bool) (nonce64 : List ℕ)
            (later : List ControlMsg)
          → answers w.inbound ≡ hello_ack protocol server needed nonce64 ∷ later
          → creds.host_fingerprint ≢ server.fingerprint)
      → ((handshake p e w client (by_token creds) codecs).sent ≡ [])
        ⊎ ((handshake p e w client (by_token creds) codecs).sent
            ≡ hello protocol_version client (token_of creds.device_id) codecs ∷ [])
  unfolding handshake
  token_withheld e w client creds codecs foreign =
      let at_most =
        send-SendsAtMost w (hello protocol_version client (token_of creds.device_id) codecs) _ (λ n.
          await-IsQuiet (ack_of p) _ _ (λ i m answer heard seen.
            let (server, nonce) = answer in
            let (protocol, needed, nonce64, said, read) = ack_of_lem p m server nonce seen in
            acknowledged-IsQuiet e (record { inbound = i; room = n }) client creds
              server.fingerprint nonce
              (foreign protocol server needed nonce64 (answers i)
                (heard ∙ ap (λ z. z ∷ answers i) said)))) in
      at_most.sends
