-- ===== src/Host/Trust.antt =====
-- host/service/src/trust.rs: the store of trusted devices. Texts are lists of codes. The file is what was
-- last saved, as parsed records: whether a save succeeds is an argument of each method that saves. Hex
-- and SHA-256 are parameters, and so are the token that `enroll` draws and the clock.
pub mod Lookup
pub mod Auth
pub mod Grants
mod Examples
use nebula_display.Prelude.{
  ℕ, zero, suc, ◌+◌, ◌-◌, ◌*◌, ◌/◌, ◌%◌, ◌^◌, ◌≤◌, ◌<◌, min, max, ◌≡◌, refl, sym, ap, ◌∙◌, subst,
  ◌≢◌, ◌↔◌, ◌⊎◌, inl, inr, Bool, true, false, not, ◌&&◌, ◌||◌, Option, none, some, List, [], ◌∷◌,
  ◌++◌, map, append_assoc, append-nil, arith, ltb, leb, ◌==◌, if◌then◌else◌, ltb→lt, lt→ltb, le→ltb,
  ==_iff, Bool-cases, Option-cases, length, get_or, set, take, drop, replicate, All, keep, first,
  length-append, length-set, get_or-set_self, get_or-set_ne, take-append, drop-append, length-drop,
  All-keep, All-append, take-append_eq, drop-append_eq, list_eq, list_eq→eq, list_eq_refl,
  list_eq-of_ne, Eq, nat_eq, text_eq, lookup, insert, remove, lookup-insert, lookup-remove,
  lookup-insert_self, lookup-insert_ne, lookup-remove_self, lookup-remove_ne, Result, ok, err,
  ◌>>=◌, ok_or,
}
use nebula_display.Protocol.Crypto.{Hasher, token_proof, reauth_transcript, mac_equal}

pub record TrustedDevice : Type 0 where
  pub device_id : List ℕ
  pub name : List ℕ
  pub platform : List ℕ
  pub token_hex : List ℕ
  pub created_unix : ℕ
  pub last_seen_unix : ℕ
  pub input_allowed : Bool
  pub clipboard_allowed : Bool
  pub audio_allowed : Bool

-- A record of the file: two fields may be absent.
pub record StoredDevice : Type 0 where
  pub device : TrustedDevice
  pub clipboard : Option Bool
  pub audio : Option Bool

pub data IoError : Type 0 where
  io_error : IoError

pub record TrustStore : Type 0 where
  pub devices : List TrustedDevice
  pub saved : List TrustedDevice

-- What the code uses of the crate hex.
pub record Hex : Type 0 where
  pub encode : List ℕ → List ℕ
  pub decode : List ℕ → Option (List ℕ)

pub record IsHex (x : Hex) : Type 0 where
  pub decodes : (bytes : List ℕ) → x.decode (x.encode bytes) ≡ some bytes

abbrev or_default : Option Bool → Bool → Bool
or_default none b = b
or_default (some a) b = a

-- The defaults of serde: a missing clipboard grant is denied, a missing audio grant allowed.
unfoldable pub with_defaults : StoredDevice → TrustedDevice
with_defaults d = record d.device {
  clipboard_allowed = or_default d.clipboard false;
  audio_allowed = or_default d.audio true;
}

-- `TrustStore::load`: `none` is a missing file, `some none` one that cannot be read.
unfoldable pub load : Option (Option (List StoredDevice)) → TrustStore
unfolding with_defaults
load none = record { devices = []; saved = [] }
load (some none) = record { devices = []; saved = [] }
load (some (some ds)) = record { devices = map with_defaults ds; saved = map with_defaults ds }

-- `save`: a temporary file that is renamed, so that a failure leaves the old file.
unfoldable pub save : Bool → TrustStore → TrustStore × Result IoError (Unit {0})
save true s = (record s { saved = s.devices }, ok tt)
save false s = (s, err io_error)

-- `save()?; Ok(a)`.
unfoldable pub save_then {ℓ} : {A : Type ℓ} → Bool → TrustStore → A → TrustStore × Result IoError A
unfolding save
save_then good s a = ((save good s).0, (save good s).1 >>= λ _. ok a)

abbrev pub is_device : List ℕ → TrustedDevice → Bool
is_device id d = list_eq d.device_id id

-- `get`, and the `find` of the other methods.
unfoldable pub get : TrustStore → List ℕ → Option TrustedDevice
unfolding first
get s id = first (is_device id) s.devices

-- The devices with another id.
unfoldable pub without : List ℕ → List TrustedDevice → List TrustedDevice
unfolding keep
without id ds = keep (λ d. not (is_device id d)) ds

-- The record that `enroll` adds.
abbrev pub new_device : Hex → List ℕ → List ℕ → List ℕ → List ℕ → ℕ → TrustedDevice
new_device x id name platform token now = record {
  device_id = id;
  name = name;
  platform = platform;
  token_hex = x.encode token;
  created_unix = now;
  last_seen_unix = now;
  input_allowed = false;
  clipboard_allowed = false;
  audio_allowed = true;
}

-- `enroll`.
unfoldable pub enroll :
    Hex
    → TrustStore
    → List ℕ
    → List ℕ
    → List ℕ
    → List ℕ
    → ℕ
    → Bool
    → TrustStore × Result IoError (List ℕ)
unfolding save_then
enroll x s id name platform token now good =
    let d = new_device x id name platform token now in
    save_then good (record s { devices = without id s.devices ++ d ∷ [] }) token

-- What `iter_mut().find(..)` lets the caller change: the first device with the id.
unfoldable pub update :
    List ℕ → (TrustedDevice → TrustedDevice) → List TrustedDevice → List TrustedDevice
update id f [] = []
update id f (d ∷ ds) = if is_device id d then f d ∷ ds else d ∷ update id f ds

-- The proof that a device must give on a connection.
abbrev pub expected_proof : Hasher → List ℕ → List ℕ → List ℕ → List ℕ → List ℕ
expected_proof h token nonce client_pub server_pub =
    token_proof h token (reauth_transcript nonce client_pub server_pub)

check_proof :
    Hasher
    → TrustStore
    → List ℕ
    → List ℕ
    → List ℕ
    → List ℕ
    → List ℕ
    → ℕ
    → Bool
    → TrustedDevice
    → Option (List ℕ)
    → TrustStore × Option TrustedDevice
unfolding save
check_proof h s id nonce cpub spub proof now good d none = (s, none)
check_proof h s id nonce cpub spub proof now good d (some token) =
    if mac_equal proof (expected_proof h token nonce cpub spub)
    then (
      (save good
          (record s { devices = update id (λ e. record e { last_seen_unix = now }) s.devices })).0,
      some (record d { last_seen_unix = now }),
    )
    else (s, none)

verify_found :
    Hasher
    → Hex
    → TrustStore
    → List ℕ
    → List ℕ
    → List ℕ
    → List ℕ
    → List ℕ
    → ℕ
    → Bool
    → Option TrustedDevice
    → TrustStore × Option TrustedDevice
unfolding check_proof
verify_found h x s id nonce cpub spub proof now good none = (s, none)
verify_found h x s id nonce cpub spub proof now good (some d) =
    check_proof h s id nonce cpub spub proof now good d (x.decode d.token_hex)

-- `verify`. A failure of its save is ignored.
unfoldable pub verify :
    Hasher
    → Hex
    → TrustStore
    → List ℕ
    → List ℕ
    → List ℕ
    → List ℕ
    → List ℕ
    → ℕ
    → Bool
    → TrustStore × Option TrustedDevice
unfolding verify_found
verify h x s id nonce cpub spub proof now good =
    verify_found h x s id nonce cpub spub proof now good (get s id)

pub set_found :
    (TrustedDevice → TrustedDevice)
    → TrustStore
    → List ℕ
    → Bool
    → Option TrustedDevice
    → TrustStore × Result IoError Bool
unfolding save_then
set_found f s id good none = (s, ok false)
set_found f s id good (some d) = save_then good (record s { devices = update id f s.devices }) true

-- `set_input_allowed`, `set_clipboard_allowed` and `set_audio_allowed`.
unfoldable pub set_input_allowed :
    TrustStore → List ℕ → Bool → Bool → TrustStore × Result IoError Bool
unfolding set_found
set_input_allowed s id allowed good =
    set_found (λ d. record d { input_allowed = allowed }) s id good (get s id)

unfoldable pub set_clipboard_allowed :
    TrustStore → List ℕ → Bool → Bool → TrustStore × Result IoError Bool
unfolding set_found
set_clipboard_allowed s id allowed good =
    set_found (λ d. record d { clipboard_allowed = allowed }) s id good (get s id)

unfoldable pub set_audio_allowed :
    TrustStore → List ℕ → Bool → Bool → TrustStore × Result IoError Bool
unfolding set_found
set_audio_allowed s id allowed good =
    set_found (λ d. record d { audio_allowed = allowed }) s id good (get s id)

-- `revoke`.
unfoldable pub revoke : TrustStore → List ℕ → Bool → TrustStore × Result IoError Bool
unfolding save_then
revoke s id good =
    let left = without id s.devices in
    if not (length left == length s.devices)
    then save_then good (record s { devices = left }) true
    else (record s { devices = left }, ok false)
