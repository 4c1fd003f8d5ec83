-- ===== src/Host/Handshake.antt =====
-- host/service/src/pairing.rs: the state of a handshake on the host, and what of the host's own state it
-- uses; with the keys and the sealed blobs of shared/protocol/src/crypto.rs. The primitives of
-- third-party crates are fields of `Primitives`; all that a step draws or reads of the clock stands in
-- `Draws`.
use nebula_display.Prelude.{
  ℕ, ◌+◌, Bool, Option, none, some, List, [], ◌∷◌, ◌++◌, ltb, if◌then◌else◌, first, take, drop,
  length, codes, Result, err, ok_or, true, false,
}
use nebula_display.Protocol.Error.{ProtocolError, crypto}
use nebula_display.Protocol.Envelope.{Aead}
use nebula_display.Protocol.Media.{Codec, jpeg}
use nebula_display.Protocol.Crypto.{Hasher}
use nebula_display.Protocol.Spake2.{Curve, Kdf, Spake2Server}
use nebula_display.Protocol.Messages.{
  ClientInfo, AuthMethod, pair, pair_spake2, DisplayMode, ControlMsg, auth_ok,
}
use nebula_display.Host.Pin.{PinManager, consume}
use nebula_display.Host.Trust.{TrustStore, Hex, IoError, enroll}
use Prim.Native.String.{String}

-- What the code uses of the crates p256, hkdf, hmac, sha2, aes-gcm, base64 and hex.
pub record Primitives : Type 1 where
  pub curve : Curve
  pub hasher : Hasher
  pub kdf : Kdf
  pub aead : Aead
  pub hex : Hex
  pub ecdh_public : List ℕ → List ℕ
  pub ecdh_agree : List ℕ → List ℕ → Option (List ℕ)
  pub hkdf_derive : List ℕ → List ℕ → List ℕ → List ℕ
  pub b64_encode : List ℕ → List ℕ
  pub b64_decode : List ℕ → Option (List ℕ)

-- What the handshake uses of `AppState`. `supports` is what this build and its hardware can encode.
pub record AppState : Type 0 where
  pub pins : PinManager
  pub trust : TrustStore
  pub mode : DisplayMode
  pub name : List ℕ
  pub app_version : List ℕ
  pub fingerprint : List ℕ
  pub allow_legacy_pairing : Bool
  pub supports : Codec → Bool

pub record AuthComplete : Type 0 where
  pub client : ClientInfo
  pub session_key : List ℕ
  pub codec : Codec
  pub input_allowed : Bool
  pub clipboard_allowed : Bool
  pub audio_allowed : Bool
  pub newly_paired : Bool

-- What the transport should do after a message.
pub record Step : Type 0 where
  pub replies : List ControlMsg
  pub complete : Option AuthComplete
  pub reject : Option String

-- `Step::reply` and `Step::reject`.
abbrev pub reply_with : ControlMsg → Step
reply_with msg = record { replies = msg ∷ []; complete = none; reject = none }

abbrev pub reject_with : ControlMsg → String → Step
reject_with msg why = record { replies = msg ∷ []; complete = none; reject = some why }

abbrev pub is_pair : Option AuthMethod → Bool
is_pair (some pair) = true
is_pair _ = false

abbrev pub is_pair_spake2 : Option AuthMethod → Bool
is_pair_spake2 (some pair_spake2) = true
is_pair_spake2 _ = false

module _ (p : Primitives) where
  -- All that a step draws at random or reads of a clock, and whether the store's file can be written.
  pub record Draws : Type 0 where
    pub now : ℕ
    pub now_unix : ℕ
    pub word : ℕ
    pub next_word : ℕ
    pub token : List ℕ
    pub scalar : p.curve.Scalar
    pub secret : List ℕ
    pub salt : List ℕ
    pub seal_nonce : List ℕ
    pub writable : Bool

  pub data Phase : Type 0 where
    await_hello : Phase
    await_pair_start : Phase
    await_proof : (shared salt client_pub server_pub : List ℕ) → Phase
    await_spake2_confirm : Spake2Server p.curve → Phase
    finished : Phase

  -- `ServerHandshake`, without the shared state.
  pub record Handshake : Type 0 where
    pub peer_ip : ℕ
    pub phase : Phase
    pub nonce : List ℕ
    pub client : Option ClientInfo
    pub auth : Option AuthMethod
    pub client_codecs : List Codec

  -- `ServerHandshake::new`, with the nonce that it draws.
  unfoldable pub new_handshake : ℕ → List ℕ → Handshake
  new_handshake peer_ip nonce = record {
    peer_ip = peer_ip;
    phase = await_hello;
    nonce = nonce;
    client = none;
    auth = none;
    client_codecs = [];
  }

  abbrev or_jpeg : Option Codec → Codec
  or_jpeg none = jpeg
  or_jpeg (some c) = c

  -- `select_codec`.
  unfoldable pub select_codec : AppState → Handshake → Codec
  unfolding first
  select_codec s h = or_jpeg (first s.supports h.client_codecs)

  -- `auth_ok`.
  unfoldable pub auth_ok_reply : AppState → Handshake → Bool → ControlMsg
  auth_ok_reply s h input_allowed = auth_ok (select_codec s h) s.mode input_allowed

  -- `pairing_key` and `session_key` of a shared secret.
  unfoldable pub pairing_key : List ℕ → List ℕ → List ℕ → List ℕ → List ℕ
  pairing_key shared salt pin nonce =
      p.hkdf_derive shared salt (codes "ndsp-pair-v1" ++ (pin ++ nonce))

  unfoldable pub shared_session_key : List ℕ → List ℕ → List ℕ → List ℕ
  shared_session_key shared salt nonce =
      p.hkdf_derive shared salt (codes "ndsp-session-v1" ++ nonce)

  -- `crypto::seal`, with the nonce that it draws, and `crypto::open`.
  unfoldable pub seal_blob : List ℕ → List ℕ → List ℕ → List ℕ → List ℕ
  seal_blob nonce key plaintext aad = nonce ++ p.aead.encrypt key nonce aad plaintext

  unfoldable pub open_blob : List ℕ → List ℕ → List ℕ → Result ProtocolError (List ℕ)
  open_blob key blob aad =
      if ltb (length blob) (12 + 16)
      then err (crypto "sealed blob too short")
      else ok_or (p.aead.decrypt key (take 12 blob) aad (drop 12 blob))
          (crypto "AEAD open failed (wrong key/PIN or tampering)")

  -- The state of the host, the handshake and the step; `none` is a panic.
  abbrev pub Outcome : Type 0
  Outcome = Option (AppState × Handshake × Step)

  unfoldable pub refuse : AppState → Handshake → ControlMsg → String → Outcome
  refuse s h msg why = some (s, h, reject_with msg why)

  -- The new state when a PIN has proved right, by either scheme.
  abbrev pub paired_device : ClientInfo → List ℕ → Codec → AuthComplete
  paired_device client session_key codec = record {
    client = client;
    session_key = session_key;
    codec = codec;
    input_allowed = false;
    clipboard_allowed = false;
    audio_allowed = true;
    newly_paired = true;
  }

  -- `consume` and `enroll`, in this order.
  unfoldable pub enroll_client :
      AppState → Handshake → Draws → ClientInfo → AppState × Result IoError (List ℕ)
  enroll_client s h d client =
      let (trust, result) =
        enroll p.hex s.trust client.device_id client.name client.platform d.token d.now_unix
          d.writable in
      (record s { pins = consume s.pins h.peer_ip; trust = trust }, result)
