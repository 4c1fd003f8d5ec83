-- ===== src/Client/Steps.antt =====
-- shared/client/src/lib.rs: what each message that a handshake matches has carried, and the steps that its
-- ways share: the acknowledgement, a token under the key of a pairing, and the last answer.
use nebula_display.Prelude.{
  ℕ, ◌≡◌, refl, ap, ◌∙◌, arith, Option-cases, inl, inr, Bool, true, false, Bool-cases, Option, some,
  List, ◌∷◌, codes, Result, ok, err, ok_or,
}
use nebula_display.Protocol.Error.{ProtocolError}
use nebula_display.Protocol.Media.{Codec}
use nebula_display.Protocol.Envelope.{new_sealer, new_opener, server_to_client, client_to_server}
use nebula_display.Protocol.Messages.{
  ClientInfo, ServerInfo, DisplayMode, ErrorText, ControlMsg, hello_ack, spake2_challenge,
  spake2_result, auth_ok,
}
use nebula_display.Host.Handshake.{Primitives, open_blob}
use nebula_display.Client.Handshake.{
  auth_of, result_of, Secrets, decode64, ack_of, share_of, blame, foreign_host, conclude,
  accept_token, authenticate, acknowledged, handshake,
}
use nebula_display.Client.{Credentials, Auth, Session, Failure, Inbound, Wire}
use nebula_display.Client.{token_unseal, fingerprint_changed, bad_base64}
use nebula_display.Prelude.{◌&&◌}
use nebula_display.Viewer.Receive.Consistency.{if_both}
use nebula_display.Client.{by_pin, by_pin_legacy, by_token, stop}
use nebula_display.Client.Handshake.{refusal, cuts_at_16}
use nebula_display.Client.Answers.{panicked-Sound}
use nebula_display.Client.Answers.{
  Sound, failed-Sound, connected-Sound, attempt-Sound, send-Sound, await-Sound, answers,
}

pub decoded :
    (p : Primitives) (chars bytes : List ℕ)
    → ok_or (p.b64_decode chars) bad_base64 ≡ ok bytes
    → p.b64_decode chars ≡ some bytes
decoded p chars bytes h = elim (Option-cases (p.b64_decode chars)) [
  | inl q ↦ absurd cc
  | inr (b, q) ↦ q ∙ ap some cc
]

pub auth_of_lem :
    (m : ControlMsg) (codec : Codec) (mode : DisplayMode) (allowed : Bool)
    → auth_of m ≡ ok (codec, mode, allowed)
    → m ≡ auth_ok codec mode allowed
unfolding auth_of
auth_of_lem (auth_ok c o a) codec mode allowed h = cc
auth_of_lem _ codec mode allowed h = absurd cc

pub result_of_lem :
    (m : ControlMsg) (mac tok : List ℕ)
    → result_of m ≡ ok (mac, tok)
    → (error : Option ErrorText) × (m ≡ spake2_result true (some mac) (some tok) error)
unfolding result_of
result_of_lem (spake2_result true (some a) (some b) error) mac tok h = (error, cc)
result_of_lem _ mac tok h = absurd cc

pub share_of_lem :
    (p : Primitives) (m : ControlMsg) (share : List ℕ)
    → share_of p m ≡ ok share
    → (chars : List ℕ) × (m ≡ spake2_challenge chars) × (p.b64_decode chars ≡ some share)
unfolding share_of decode64
share_of_lem p (spake2_challenge chars) share h = (chars, refl, decoded p chars share h)
share_of_lem p _ share h = absurd cc

pub ack_of_lem :
    (p : Primitives) (m : ControlMsg) (server : ServerInfo) (nonce : List ℕ)
    → ack_of p m ≡ ok (server, nonce)
    → (protocol : ℕ) × (needed : Bool) × (chars : List ℕ) × (m
        ≡ hello_ack protocol server needed chars)
      × (p.b64_decode chars ≡ some nonce)
unfolding ack_of decode64
ack_of_lem p (hello_ack protocol known needed chars) server nonce h =
    elim (Option-cases (p.b64_decode chars)) [
      | inl q ↦ absurd (ground arith)
      | inr (bytes, q) ↦ (protocol, needed, chars, ground arith, ground arith)
    ]
ack_of_lem p _ server nonce h = absurd cc

-- The session that a handshake gives.
abbrev pub session_of : List ℕ → Option Credentials → List ℕ → Codec → DisplayMode → Bool → Session
session_of session_key new_credentials fingerprint codec mode input_allowed = record {
  sealer = new_sealer session_key client_to_server;
  opener = new_opener session_key server_to_client;
  codec = codec;
  mode = mode;
  input_allowed = input_allowed;
  new_credentials = new_credentials;
  server_fingerprint = fingerprint;
}

module _ (p : Primitives) where
  pub conclude-Sound :
      (P : Session → Type 0) (w : Wire) (session_key : List ℕ)
      (new_credentials : Option Credentials) (fingerprint : List ℕ)
      → ((i : Inbound) (codec : Codec) (mode : DisplayMode) (allowed : Bool)
          → answers w.inbound ≡ auth_ok codec mode allowed ∷ answers i
          → P (session_of session_key new_credentials fingerprint codec mode allowed))
      → Sound P (conclude p w session_key new_credentials fingerprint)
  unfolding conclude
  conclude-Sound P w session_key new_credentials fingerprint good =
      await-Sound P auth_of w _ (λ i m answer heard seen.
        let (codec, mode, allowed) = answer in
        let said = auth_of_lem m codec mode allowed seen in
        connected-Sound P (session_of session_key new_credentials fingerprint codec mode allowed)
          (good i codec mode allowed (heard ∙ ap (λ z. z ∷ answers i) said)))

  pub unblamed :
      {A : Type 0} (f : ProtocolError → Failure) (r : Result ProtocolError A) (a : A)
      → blame p f r ≡ ok a
      → r ≡ ok a
  unblamed f (ok b) a h = cc
  unblamed f (err e) a h = cc

  -- The credentials that a pairing leaves.
  abbrev pub paired : ClientInfo → List ℕ → List ℕ → Option Credentials
  paired client fingerprint token =
      some (record { device_id = client.device_id; token = token; host_fingerprint = fingerprint })

  pub token-Sound :
      (P : Session → Type 0) (w : Wire) (client : ClientInfo)
      (fingerprint session_key key tok : List ℕ)
      → ((i : Inbound) (sealed token : List ℕ) (codec : Codec) (mode : DisplayMode) (allowed : Bool)
          → p.b64_decode tok ≡ some sealed
          → open_blob p key sealed (codes "token") ≡ ok token
          → answers w.inbound ≡ auth_ok codec mode allowed ∷ answers i
          → P (
              session_of session_key
                (paired client fingerprint token)
                fingerprint
                codec
                mode
                allowed))
      → Sound P (accept_token p w client fingerprint session_key key tok)
  unfolding accept_token decode64
  token-Sound P w client fingerprint session_key key tok good = attempt-Sound P _ _ (λ sealed read.
      attempt-Sound P _ _ (λ token opens.
        conclude-Sound P w session_key (paired client fingerprint token) fingerprint
          (λ i codec mode allowed.
            good i sealed token codec mode allowed (decoded p tok sealed read)
              (unblamed token_unseal (open_blob p key sealed (codes "token")) token opens))))

  refusal-Sound :
      (P : Session → Type 0) (auth : Auth) (fingerprint : List ℕ)
      → Sound P (stop (refusal p auth fingerprint))
  unfolding refusal
  refusal-Sound P (by_pin chars) fingerprint = failed-Sound P fingerprint_changed
  refusal-Sound P (by_pin_legacy chars) fingerprint = failed-Sound P fingerprint_changed
  refusal-Sound P (by_token creds) fingerprint =
      if_both (λ e. Sound P (stop e))
        (cuts_at_16 p fingerprint && cuts_at_16 p creds.host_fingerprint) _ _
        (λ _. failed-Sound P fingerprint_changed) (λ _. panicked-Sound P)

  pub handshake-Sound :
      (P : Session → Type 0) (e : Secrets p) (w : Wire) (client : ClientInfo) (auth : Auth)
      (codecs : List Codec)
      → ((i : Inbound) (protocol : ℕ) (server : ServerInfo) (needed : Bool) (nonce64 nonce : List ℕ)
            (n : ℕ)
          → answers w.inbound ≡ hello_ack protocol server needed nonce64 ∷ answers i
          → p.b64_decode nonce64 ≡ some nonce
          → foreign_host p auth server.fingerprint ≡ false
          → Sound P (
              authenticate p e
                (record { inbound = i; room = n })
                client
                server.fingerprint
                nonce
                auth))
      → Sound P (handshake p e w client auth codecs)
  unfolding handshake acknowledged
  handshake-Sound P e w client auth codecs good = send-Sound P w _ _ (λ n.
      await-Sound P _ _ _ (λ i m answer heard seen.
        let (server, nonce) = answer in
        let (protocol, needed, nonce64, said, read) = ack_of_lem p m server nonce seen in
        elim (Bool-cases (foreign_host p auth server.fingerprint)) [
          | inl q ↦ rw q (refusal-Sound P auth server.fingerprint)
          | inr q ↦ rw q (
              good i protocol server needed nonce64 nonce n (heard ∙ ap (λ z. z ∷ answers i) said)
                read q)
        ]))
