-- ===== src/Protocol/Messages.antt =====
-- shared/protocol/src/messages.rs: the messages of the handshake. What follows it is `post_auth`, of which
-- the handshake reads nothing. Texts are lists of codes; base64 texts are carried as they are on the wire.
use nebula_display.Prelude.{ℕ, Bool, Option, List}
use nebula_display.Protocol.Media.{Codec}
use Prim.Native.String.{String}

pub record ClientInfo : Type 0 where
  pub device_id : List ℕ
  pub name : List ℕ
  pub platform : List ℕ
  pub app_version : List ℕ
  pub features : List (List ℕ)

pub record ServerInfo : Type 0 where
  pub name : List ℕ
  pub app_version : List ℕ
  pub fingerprint : List ℕ

pub data AuthMethod : Type 0 where
  pair pair_spake2 : AuthMethod
  token_of : List ℕ → AuthMethod

pub record DisplayMode : Type 0 where
  pub width : ℕ
  pub height : ℕ
  pub refresh_hz : ℕ

-- An error for a client: a fixed text, or one of the three that are formatted.
pub data ErrorText : Type 0 where
  text : String → ErrorText
  protocol_too_old : ℕ → ErrorText
  retry_in : ℕ → ErrorText
  unexpected_message : String → ErrorText

pub data ControlMsg : Type 0 where
  hello : ℕ → ClientInfo → AuthMethod → List Codec → ControlMsg
  hello_ack : ℕ → ServerInfo → Bool → List ℕ → ControlMsg
  pair_start : List ℕ → ControlMsg
  pair_challenge : List ℕ → List ℕ → ControlMsg
  pair_confirm : List ℕ → ControlMsg
  pair_result : Bool → Option (List ℕ) → Option ErrorText → ControlMsg
  spake2_start : List ℕ → ControlMsg
  spake2_challenge : List ℕ → ControlMsg
  spake2_confirm : List ℕ → ControlMsg
  spake2_result : Bool → Option (List ℕ) → Option (List ℕ) → Option ErrorText → ControlMsg
  token_proof : List ℕ → ControlMsg
  auth_ok : Codec → DisplayMode → Bool → ControlMsg
  auth_err : ErrorText → ControlMsg
  post_auth : ControlMsg
