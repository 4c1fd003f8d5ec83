-- ===== src/Host/Trust/Lookup.antt =====
-- What each operation of the store does to the device that an id finds.
use nebula_display.Prelude.{
  ℕ, ◌≡◌, refl, ◌↔◌, inl, inr, Bool, true, Option, none, some, List, [], ◌∷◌, ◌++◌, arith,
  if◌then◌else◌, Option-cases, first, list_eq, list_eq→eq, list_eq_refl, nat_eq, text_eq,
}
use nebula_display.Host.Trust.{
  TrustedDevice, TrustStore, Hex, save_then, is_device, get, without, new_device, enroll, update,
  set_found, revoke,
}

abbrev pub found : List ℕ → List TrustedDevice → Option TrustedDevice
found id ds = first (is_device id) ds

-- Ids are compared as texts.
pub ids_eq : (a b : List ℕ) → (list_eq a b ≡ true) ↔ (a ≡ b)
ids_eq a b = (list_eq→eq a b, λ e. rw e (list_eq_refl b))

pub found-without :
    (id j : List ℕ) (ds : List TrustedDevice)
    → found j (without id ds) ≡ (if list_eq id j then none else found j ds)
unfolding first without
found-without id j [] = ground arith
found-without id j (d ∷ ds) =
    ground (arith, ids_eq d.device_id id, ids_eq d.device_id j, ids_eq id j, found-without id j ds)

found-append :
    (j : List ℕ) (ds : List TrustedDevice) (d : TrustedDevice)
    → found j (ds ++ d ∷ [])
      ≡ elim (found j ds) [ none ↦ (if is_device j d then some d else none) | some e ↦ some e ]
unfolding first
found-append j [] d = ground arith
found-append j (e ∷ ds) d = ground (arith, found-append j ds d)

pub found-enrolled :
    (id j : List ℕ) (ds : List TrustedDevice) (d : TrustedDevice)
    → d.device_id ≡ id
    → found j (without id ds ++ d ∷ []) ≡ (if list_eq id j then some d else found j ds)
found-enrolled id j ds d e = ground (
  arith,
  found-append j (without id ds) d,
  found-without id j ds,
  ids_eq d.device_id j,
  ids_eq id j,
)

pub found-update :
    (id j : List ℕ) (f : TrustedDevice → TrustedDevice) (ds : List TrustedDevice)
    → ((d : TrustedDevice) → (f d).device_id ≡ d.device_id)
    → found j (update id f ds)
      ≡ elim (found j ds) [ none ↦ none | some d ↦ (if list_eq id j then some (f d) else some d) ]
unfolding first update
found-update id j f [] h = refl
found-update id j f (d ∷ ds) h =
    ground (
      arith,
      h d,
      ids_eq d.device_id id,
      ids_eq d.device_id j,
      ids_eq id j,
      found-update id j f ds h,
    )

-- A save does not change what is in memory.
pub devices-save_then {ℓ} :
    {A : Type ℓ} (good : Bool) (s : TrustStore) (a : A) → (save_then good s a).0.devices ≡ s.devices
unfolding save_then
devices-save_then good s a = ground arith

pub get-enroll :
    (x : Hex) (s : TrustStore) (id name platform token j : List ℕ) (now : ℕ) (good : Bool)
    → get (enroll x s id name platform token now good).0 j
      ≡ (if list_eq id j then some (new_device x id name platform token now) else get s j)
unfolding get enroll
get-enroll x s id name platform token j now good =
    let d = new_device x id name platform token now in
    let s' = record s { devices = without id s.devices ++ d ∷ [] } in
    rw (devices-save_then good s' token) (found-enrolled id j s.devices d refl)

pub get-revoke :
    (s : TrustStore) (id j : List ℕ) (good : Bool)
    → get (revoke s id good).0 j ≡ (if list_eq id j then none else get s j)
unfolding get revoke
get-revoke s id j good = ground (arith, found-without id j s.devices)

-- What a change of the fields of one device does to the device that an id finds.
abbrev pub changed :
    List ℕ → List ℕ → (TrustedDevice → TrustedDevice) → Option TrustedDevice → Option TrustedDevice
changed id j f none = none
changed id j f (some d) = if list_eq id j then some (f d) else some d

pub found-changed :
    (id j : List ℕ) (f : TrustedDevice → TrustedDevice) (ds : List TrustedDevice)
    → ((d : TrustedDevice) → (f d).device_id ≡ d.device_id)
    → found j (update id f ds) ≡ changed id j f (found j ds)
found-changed id j f ds h = rw (found-update id j f ds h) (same (found j ds))
  where
    same :
        (o : Option TrustedDevice)
        → elim o [ none ↦ none | some d ↦ (if list_eq id j then some (f d) else some d) ]
          ≡ changed id j f o
    same none = refl
    same (some d) = refl

pub get-set_found :
    (f : TrustedDevice → TrustedDevice) (s : TrustStore) (id j : List ℕ) (good : Bool)
    → ((d : TrustedDevice) → (f d).device_id ≡ d.device_id)
    → get (set_found f s id good (get s id)).0 j ≡ changed id j f (get s j)
unfolding get set_found
get-set_found f s id j good h = elim (Option-cases (found id s.devices)) [
  | inl missing ↦ rw missing (ground (arith, ids_eq id j))
  | inr (d, there) ↦
      rw (there, devices-save_then good (record s { devices = update id f s.devices }) true)
        (found-changed id j f s.devices h)
]
