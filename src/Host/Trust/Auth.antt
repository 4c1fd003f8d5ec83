-- ===== src/Host/Trust/Auth.antt =====
-- Which proofs the store accepts.
use nebula_display.Prelude.{
  ℕ, ◌≡◌, refl, ◌≢◌, ◌⊎◌, inl, inr, Bool, Option, none, some, List, arith, Bool-cases, Option-cases,
  list_eq_refl, nat_eq, text_eq,
}
use nebula_display.Protocol.Crypto.{Hasher, mac_equal, mac_equal_iff}
use nebula_display.Host.Trust.{
  TrustedDevice, TrustStore, Hex, IsHex, get, new_device, enroll, update, expected_proof,
  check_proof, verify_found, verify, revoke,
}
use nebula_display.Host.Trust.Lookup.{found, found-changed, get-enroll, get-revoke, changed}

check_cases :
    (h : Hasher) (s : TrustStore) (id nonce cpub spub proof : List ℕ) (now : ℕ) (good : Bool)
    (d : TrustedDevice) (o : Option (List ℕ))
    → let r = check_proof h s id nonce cpub spub proof now good d o in
      ((r ≡ (s, none))
        × ((token : List ℕ) → o ≡ some token → proof ≢ expected_proof h token nonce cpub spub))
      ⊎ ((token : List ℕ) × (o ≡ some token)
          × (proof ≡ expected_proof h token nonce cpub spub)
          × (r.1 ≡ some (record d { last_seen_unix = now }))
          × (r.0.devices ≡ update id (λ e. record e { last_seen_unix = now }) s.devices))
unfolding check_proof
check_cases h s id nonce cpub spub proof now good d none = inl (refl, λ token e. cc)
check_cases h s id nonce cpub spub proof now good d (some token) =
    let want = expected_proof h token nonce cpub spub in
    let (sound, complete) = mac_equal_iff proof want in
    elim (Bool-cases (mac_equal proof want)) [
      | inl same ↦ inr (token, refl, sound same, rw same, rw same (ground arith))
      | inr other ↦
          inl (rw other, λ token' e p. let q : token ≡ token' = cc in cc (complete (rw q p), other))
    ]

-- The proof is the one that the stored token of the device calls for, on this connection.
abbrev pub Proves : Hasher → Hex → TrustStore → List ℕ → List ℕ → List ℕ → List ℕ → List ℕ → Type 0
Proves h x s id nonce cpub spub proof =
    (d : TrustedDevice) × (token : List ℕ) × (get s id ≡ some d)
    × (x.decode d.token_hex ≡ some token)
    × (proof ≡ expected_proof h token nonce cpub spub)

pub verify_lem :
    (h : Hasher) (x : Hex) (s : TrustStore) (id nonce cpub spub proof : List ℕ) (now : ℕ)
    (good : Bool)
    → let r = verify h x s id nonce cpub spub proof now good in
      ((¬ Proves h x s id nonce cpub spub proof) × (r ≡ (s, none)))
      ⊎ (Proves h x s id nonce cpub spub proof
          × (d : TrustedDevice) × (get s id ≡ some d)
          × (r.1 ≡ some (record d { last_seen_unix = now }))
          × ((j : List ℕ)
              → get r.0 j ≡ changed id j (λ e. record e { last_seen_unix = now }) (get s j)))
unfolding verify get
verify_lem h x s id nonce cpub spub proof now good = elim (Option-cases (found id s.devices)) [
  | inl missing ↦ inl (λ (d, token, there, _, _). cc, rw missing)
  | inr (d, there) ↦
      elim (check_cases h s id nonce cpub spub proof now good d (x.decode d.token_hex)) [
        | inl (e, wrong) ↦ inl (
          λ (d', token, there', dec, p).
              let q : d' ≡ d = ground (arith, there, there') in wrong token (rw q at dec) p,
          rw there e,
        )
        | inr (token, dec, p, out, devices) ↦ inr (
          (d, token, there, dec, p),
          d,
          there,
          rw there out,
          λ j.
              rw (there, verify_found, devices)
                (found-changed id j (λ e. record e { last_seen_unix = now }) s.devices (λ e. refl)),
        )
      ]
]

-- The token that `enroll` returned is good for a reconnect at once, also when the store could not be
-- saved; what its record says is the default of every new device, which denies input and the clipboard.
pub verify-enroll :
    (h : Hasher) (x : Hex) (s : TrustStore) (id name platform token nonce cpub spub : List ℕ)
    (now later : ℕ) (good good' : Bool)
    → IsHex x
    → (verify h x
        (enroll x s id name platform token now good).0
        id
        nonce
        cpub
        spub
        (expected_proof h token nonce cpub spub)
        later
        good').1
      ≡ some (record (new_device x id name platform token now) { last_seen_unix = later })
verify-enroll h x s id name platform token nonce cpub spub now later good good' laws =
    let s' = (enroll x s id name platform token now good).0 in
    let d = new_device x id name platform token now in
    let there : get s' id ≡ some d =
      rw (get-enroll x s id name platform token id now good, list_eq_refl id) refl in
    elim (verify_lem h x s' id nonce cpub spub (expected_proof h token nonce cpub spub) later
      good') [
        | inl (wrong, _) ↦ absurd (wrong (d, token, there, laws.decodes token, refl))
        | inr (_, d', there', out, _) ↦ ground (arith, there, there', out)
      ]

-- After a device is revoked no proof of it is accepted, until it is enrolled again.
pub verify-revoke :
    (h : Hasher) (x : Hex) (s : TrustStore) (id nonce cpub spub proof : List ℕ) (now : ℕ)
    (good good' : Bool)
    → (verify h x (revoke s id good).0 id nonce cpub spub proof now good').1 ≡ none
verify-revoke h x s id nonce cpub spub proof now good good' =
    let s' = (revoke s id good).0 in
    let gone : get s' id ≡ none = rw (get-revoke s id id good, list_eq_refl id) refl in
    elim (verify_lem h x s' id nonce cpub spub proof now good') [
      | inl (_, e) ↦ rw e
      | inr (_, d, there, _, _) ↦ cc (there, gone)
    ]
