-- ===== src/Host/Trust/Examples.antt =====
-- Runs of the theorems on the store of trusted devices.
use nebula_display.Prelude.{ℕ, refl, true, false, some, List, [], ◌∷◌, All, codes, nat_eq, text_eq}
use nebula_display.Protocol.Samples.{same_bytes}
use nebula_display.Host.Trust.{TrustedDevice, TrustStore, Hex, IsHex, get}
use nebula_display.Host.Trust.Grants.{
  Op, enrolls, verifies, revokes, run_ops, InputDenied, ClipboardDenied, NoInputGrant,
  NoClipboardGrant, denied_until_granted,
}

abbrev plain_hex : Hex
plain_hex = record { encode = λ bytes. bytes; decode = λ text. some text }

plain_hex-IsHex : IsHex plain_hex
plain_hex-IsHex = record { decodes = λ bytes. refl }

abbrev tablet : TrustedDevice
tablet = record {
  device_id = codes "tab";
  name = codes "Tablet";
  platform = codes "android";
  token_hex = 1 ∷ 2 ∷ [];
  created_unix = 10;
  last_seen_unix = 10;
  input_allowed = false;
  clipboard_allowed = false;
  audio_allowed = true;
}

abbrev a_store : TrustStore
a_store = record { devices = tablet ∷ []; saved = tablet ∷ [] }

-- The token, the nonce and the two keys, which this hash leaves as they are.
abbrev proof : List ℕ
proof = 1 ∷ 2 ∷ 5 ∷ 6 ∷ 7 ∷ []

-- The device pairs again, reconnects, and another device is allowed input.
abbrev calls : List Op
calls =
    enrolls (codes "tab") (codes "Tablet") (codes "android") (4 ∷ []) 50 true
    ∷ verifies (codes "tab") (5 ∷ []) (6 ∷ []) (7 ∷ []) proof 60 true
    ∷ revokes (codes "pc") true
    ∷ []

denied_until_granted_example :
    (All (NoInputGrant same_bytes plain_hex (codes "tab")) calls
      → InputDenied same_bytes plain_hex (get a_store (codes "tab"))
      → InputDenied same_bytes plain_hex
          (get (run_ops same_bytes plain_hex a_store calls) (codes "tab")))
    × (All (NoClipboardGrant same_bytes plain_hex (codes "tab")) calls
        → ClipboardDenied same_bytes plain_hex (get a_store (codes "tab"))
        → ClipboardDenied same_bytes plain_hex
            (get (run_ops same_bytes plain_hex a_store calls) (codes "tab")))
denied_until_granted_example = denied_until_granted same_bytes plain_hex a_store (codes "tab") calls
