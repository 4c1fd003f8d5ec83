-- ===== src/Host/Trust/Grants.antt =====
-- Grants change only by the operations that set them.
use nebula_display.Prelude.{
  ℕ, ◌≡◌, refl, ◌⊎◌, inl, inr, Bool, false, Option, none, some, List, [], ◌∷◌, arith, All, nat_eq,
  text_eq,
}
use nebula_display.Protocol.Crypto.{Hasher}
use nebula_display.Host.Trust.{
  TrustedDevice, TrustStore, Hex, get, enroll, verify, set_input_allowed, set_clipboard_allowed,
  set_audio_allowed, revoke,
}
use nebula_display.Host.Trust.Lookup.{ids_eq, get-enroll, get-revoke, get-set_found, changed}
use nebula_display.Host.Trust.Auth.{verify_lem}

-- The calls that change a store. The last field says whether the save succeeds.
pub data Op : Type 0 where
  enrolls : List ℕ → List ℕ → List ℕ → List ℕ → ℕ → Bool → Op
  verifies : List ℕ → List ℕ → List ℕ → List ℕ → List ℕ → ℕ → Bool → Op
  sets_input : List ℕ → Bool → Bool → Op
  sets_clipboard : List ℕ → Bool → Bool → Op
  sets_audio : List ℕ → Bool → Bool → Op
  revokes : List ℕ → Bool → Op

module _ (h : Hasher) (x : Hex) where
  unfoldable pub run_op : TrustStore → Op → TrustStore
  unfolding set_input_allowed set_clipboard_allowed set_audio_allowed
  run_op s (enrolls id name platform token now good) =
      (enroll x s id name platform token now good).0
  run_op s (verifies id nonce cpub spub proof now good) =
      (verify h x s id nonce cpub spub proof now good).0
  run_op s (sets_input id allowed good) = (set_input_allowed s id allowed good).0
  run_op s (sets_clipboard id allowed good) = (set_clipboard_allowed s id allowed good).0
  run_op s (sets_audio id allowed good) = (set_audio_allowed s id allowed good).0
  run_op s (revokes id good) = (revoke s id good).0

  unfoldable pub run_ops : TrustStore → List Op → TrustStore
  run_ops s [] = s
  run_ops s (o ∷ os) = run_ops (run_op s o) os

  -- The device is unknown or has no grant for input; likewise for the clipboard.
  abbrev pub InputDenied : Option TrustedDevice → Type 0
  InputDenied none = Unit {0}
  InputDenied (some d) = d.input_allowed ≡ false

  abbrev pub ClipboardDenied : Option TrustedDevice → Type 0
  ClipboardDenied none = Unit {0}
  ClipboardDenied (some d) = d.clipboard_allowed ≡ false

  -- The call is not one that allows the device input.
  abbrev pub NoInputGrant : List ℕ → Op → Type 0
  NoInputGrant id (sets_input j allowed good) = j ≡ id → allowed ≡ false
  NoInputGrant id _ = Unit {0}

  abbrev pub NoClipboardGrant : List ℕ → Op → Type 0
  NoClipboardGrant id (sets_clipboard j allowed good) = j ≡ id → allowed ≡ false
  NoClipboardGrant id _ = Unit {0}

  get-verify :
      (s : TrustStore) (id j nonce cpub spub proof : List ℕ) (now : ℕ) (good : Bool)
      → let r = (verify h x s id nonce cpub spub proof now good).0 in
        (get r j ≡ get s j)
        ⊎ (get r j ≡ changed id j (λ e. record e { last_seen_unix = now }) (get s j))
  get-verify s id j nonce cpub spub proof now good =
      elim (verify_lem h x s id nonce cpub spub proof now good) [
        | inl (_, e) ↦ inl (rw e)
        | inr (_, d, _, _, all) ↦ inr (all j)
      ]

  op-InputDenied :
      (s : TrustStore) (id : List ℕ) (o : Op)
      → NoInputGrant id o
      → InputDenied (get s id)
      → InputDenied (get (run_op s o) id)
  unfolding run_op
  op-InputDenied s id (enrolls j name platform token now good) n d =
      ground (arith, get-enroll x s j name platform token id now good)
  op-InputDenied s id (verifies j nonce cpub spub proof now good) n d =
      ground (arith, get-verify s j id nonce cpub spub proof now good)
  op-InputDenied s id (sets_input j allowed good) n d = ground (
    arith,
    ids_eq j id,
    get-set_found (λ e. record e { input_allowed = allowed }) s j id good (λ e. refl),
  )
  op-InputDenied s id (sets_clipboard j allowed good) n d =
      ground (
        arith,
        get-set_found (λ e. record e { clipboard_allowed = allowed }) s j id good (λ e. refl),
      )
  op-InputDenied s id (sets_audio j allowed good) n d =
      ground
        (arith, get-set_found (λ e. record e { audio_allowed = allowed }) s j id good (λ e. refl))
  op-InputDenied s id (revokes j good) n d = ground (arith, get-revoke s j id good)

  op-ClipboardDenied :
      (s : TrustStore) (id : List ℕ) (o : Op)
      → NoClipboardGrant id o
      → ClipboardDenied (get s id)
      → ClipboardDenied (get (run_op s o) id)
  unfolding run_op
  op-ClipboardDenied s id (enrolls j name platform token now good) n d =
      ground (arith, get-enroll x s j name platform token id now good)
  op-ClipboardDenied s id (verifies j nonce cpub spub proof now good) n d =
      ground (arith, get-verify s j id nonce cpub spub proof now good)
  op-ClipboardDenied s id (sets_input j allowed good) n d =
      ground
        (arith, get-set_found (λ e. record e { input_allowed = allowed }) s j id good (λ e. refl))
  op-ClipboardDenied s id (sets_clipboard j allowed good) n d = ground (
    arith,
    ids_eq j id,
    get-set_found (λ e. record e { clipboard_allowed = allowed }) s j id good (λ e. refl),
  )
  op-ClipboardDenied s id (sets_audio j allowed good) n d =
      ground
        (arith, get-set_found (λ e. record e { audio_allowed = allowed }) s j id good (λ e. refl))
  op-ClipboardDenied s id (revokes j good) n d = ground (arith, get-revoke s j id good)

  -- Deny by default: through any calls, a device that is unknown or without a grant gains input only by
  -- a call that allows it input, and the clipboard only by one that allows it the clipboard. Enrolling
  -- it, again and again, does not grant either, nor does a reconnect or a call for another device.
  pub denied_until_granted :
      (s : TrustStore) (id : List ℕ) (os : List Op)
      → (All (NoInputGrant id) os → InputDenied (get s id) → InputDenied (get (run_ops s os) id))
        × (All (NoClipboardGrant id) os
            → ClipboardDenied (get s id)
            → ClipboardDenied (get (run_ops s os) id))
  unfolding run_ops
  denied_until_granted s id [] = (λ n d. d, λ n d. d)
  denied_until_granted s id (o ∷ os) =
      let (input, clipboard) = denied_until_granted (run_op s o) id os in
      (
        λ n d. input n.1 (op-InputDenied s id o n.0 d),
        λ n d. clipboard n.1 (op-ClipboardDenied s id o n.0 d),
      )
