-- ===== src/Host/Samples.antt =====
-- Concrete primitives and a client, for the examples.
use nebula_display.Prelude.{some, [], codes}
use nebula_display.Protocol.Messages.{ClientInfo}
use nebula_display.Protocol.Samples.{plain_aead, toy, same_bytes, tagged}
use nebula_display.Host.Trust.{Hex}
use nebula_display.Host.Handshake.{Primitives}

abbrev pub plain_hex : Hex
plain_hex = record { encode = λ bytes. bytes; decode = λ chars. some chars }

-- Every text of base64 stands for itself, and a shared secret is the peer's key.
abbrev pub plain : Primitives
plain = record {
  curve = toy;
  hasher = same_bytes;
  kdf = tagged;
  aead = plain_aead;
  hex = plain_hex;
  ecdh_public = λ secret. secret;
  ecdh_agree = λ secret peer. some peer;
  hkdf_derive = λ ikm salt info. info;
  b64_encode = λ bytes. bytes;
  b64_decode = λ chars. some chars;
}

abbrev pub tablet : ClientInfo
tablet = record {
  device_id = codes "tab";
  name = codes "Tablet";
  platform = codes "android";
  app_version = [];
  features = [];
}
