-- ===== src/Host/State/Pushes.antt =====
-- What the panel decides reaches the live sessions of the device, and no others.
use nebula_display.Prelude.{
  ℕ, ◌<◌, ◌≡◌, refl, sym, ap, ◌∙◌, ◌≢◌, inl, inr, Bool, Option, none, some, List, [], ◌∷◌, ◌++◌,
  arith, ltb, if_true, Bool-cases, length, list_eq, list_eq→eq, list_eq_refl, codes, Result, ok,
  err,
}
use nebula_display.Host.Trust.{
  TrustedDevice, TrustStore, IoError, get, set_found, set_input_allowed, revoke,
}
use nebula_display.Host.Trust.Lookup.{changed, get-set_found, get-revoke}
use nebula_display.Host.Session.Commands.{set_input_grant, kick}
use nebula_display.Host.State.{
  ClientHandle, Clients, LiveState, command_capacity, push_command, for_device, pushed, grant_input,
  revoke_device,
}

-- The clients of the device are changed as `P` tells; the others, and all ids, are as they were.
abbrev pub Updated : List ℕ → (ClientHandle → ClientHandle → Type 0) → Clients → Clients → Type 0
Updated id P [] [] = Unit
Updated id P ((i, c) ∷ cs) ((j, d) ∷ ds) =
    (i ≡ j) × (c.device_id ≡ id → P c d) × (c.device_id ≢ id → d ≡ c) × Updated id P cs ds
Updated id P cs ds = ⊥

for_device-Updated :
    (id : List ℕ) (f : ClientHandle → ClientHandle) (P : ClientHandle → ClientHandle → Type 0)
    (cs : Clients)
    → ((c : ClientHandle) → P c (f c))
    → Updated id P cs (for_device id f cs)
unfolding for_device
for_device-Updated id f P [] h = tt
for_device-Updated id f P ((i, c) ∷ cs) h = elim (Bool-cases (list_eq c.device_id id)) [
  | inl e ↦ rw e (
    refl,
    λ q. h c,
    λ ne. absurd (ne (list_eq→eq c.device_id id e)),
    for_device-Updated id f P cs h,
  )
  | inr e ↦ rw e (
    refl,
    λ q. absurd (ground (arith, q, list_eq_refl id)),
    λ ne. refl,
    for_device-Updated id f P cs h,
  )
]

-- A client whose session has been told of its input grant, when its channel had room.
abbrev pub InputSet : Bool → ClientHandle → ClientHandle → Type 0
InputSet allowed c d =
    (d.input_allowed ≡ allowed)
    × (d.clipboard_allowed ≡ c.clipboard_allowed)
    × (d.audio_allowed ≡ c.audio_allowed)
    × (length c.commands < 8 → d.commands ≡ c.commands ++ (set_input_grant allowed ∷ []))

push-InputSet :
    (allowed : Bool) (c : ClientHandle)
    → InputSet allowed c
        (push_command (set_input_grant allowed) (record c { input_allowed = allowed }))
push-InputSet allowed c = elim (Bool-cases (ltb (length c.commands) command_capacity)) [
  | inl e ↦ rw e (refl, refl, refl, λ h. refl)
  | inr e ↦ rw e (refl, refl, refl, λ h. absurd (ground arith))
]

-- A grant that the store keeps for a device, if it knows the device, is the one that was set.
set_input-stored :
    (s : TrustStore) (id : List ℕ) (allowed good : Bool) (d : TrustedDevice)
    → get (set_input_allowed s id allowed good).0 id ≡ some d
    → d.input_allowed ≡ allowed
unfolding set_input_allowed
set_input-stored s id allowed good d e = stored (get s id) (sym after ∙ e)
  where
    set : TrustedDevice → TrustedDevice
    set d = record d { input_allowed = allowed }

    after : get (set_found set s id good (get s id)).0 id ≡ changed id id set (get s id)
    after = get-set_found set s id id good (λ d. refl)

    stored : (o : Option TrustedDevice) → changed id id set o ≡ some d → d.input_allowed ≡ allowed
    stored none q = absurd cc
    stored (some b) q =
        let p : some (set b) ≡ some d = sym (if_true _ _ _ (list_eq_refl id)) ∙ q in
        ap (λ (o : Option TrustedDevice). elim o [ none ↦ allowed | some x ↦ x.input_allowed ])
          (sym p)

-- What a push comes to, by the result of the call.
abbrev pub Pushed :
    List ℕ
    → (ClientHandle → ClientHandle → Type 0)
    → LiveState
    → LiveState × Result IoError Bool
    → Type 0
Pushed id P s (s', ok found) = Updated id P s.clients s'.clients
Pushed id P s (s', err e) = s'.clients ≡ s.clients

pushed-Pushed :
    (id : List ℕ) (f : ClientHandle → ClientHandle) (P : ClientHandle → ClientHandle → Type 0)
    (s : LiveState) (r : TrustStore × Result IoError Bool)
    → ((c : ClientHandle) → P c (f c))
    → Pushed id P s (pushed id f s r) × ((pushed id f s r).0.trust ≡ r.0)
unfolding pushed
pushed-Pushed id f P s (trust, ok found) h = (for_device-Updated id f P s.clients h, refl)
pushed-Pushed id f P s (trust, err e) h = (refl, refl)

-- When the panel sets the input grant of a device, the store in memory grants the device, if it knows it,
-- just that. If the call succeeds, every live session of the device has the new grant at once, and a command
-- that tells it so when its channel had room, while its other grants and all other sessions are as before.
-- If it fails, for want of a save, no live session changes.
pub grant_input_lem :
    (s : LiveState) (id : List ℕ) (allowed good : Bool)
    → Pushed id (InputSet allowed) s (grant_input s id allowed good)
      × ((d : TrustedDevice)
          → get (grant_input s id allowed good).0.trust id ≡ some d
          → d.input_allowed ≡ allowed)
unfolding grant_input
grant_input_lem s id allowed good =
    let f : ClientHandle → ClientHandle =
      λ c. push_command (set_input_grant allowed) (record c { input_allowed = allowed }) in
    let r = set_input_allowed s.trust id allowed good in
    let (push, trust) = pushed-Pushed id f (InputSet allowed) s r (push-InputSet allowed) in
    (push, λ d e. set_input-stored s.trust id allowed good d (sym (ap (λ t. get t id) trust) ∙ e))

-- A session that is told to end, when its channel had room.
abbrev pub Kicked : ClientHandle → ClientHandle → Type 0
Kicked c d =
    length c.commands < 8 → d.commands ≡ c.commands ++ (kick (codes "device revoked by host") ∷ [])

push-Kicked : (c : ClientHandle) → Kicked c (push_command (kick (codes "device revoked by host")) c)
push-Kicked c = elim (Bool-cases (ltb (length c.commands) command_capacity)) [
  | inl e ↦ rw e (λ h. refl)
  | inr e ↦ rw e (λ h. absurd (ground arith))
]

-- When the panel revokes a device, the store in memory knows the device no more. If the call succeeds, every
-- live session of the device whose channel has room is told to end, and the other sessions are as before. If
-- it fails, for want of a save, no live session changes.
pub revoke_device_lem :
    (s : LiveState) (id : List ℕ) (good : Bool)
    → Pushed id Kicked s (revoke_device s id good)
      × (get (revoke_device s id good).0.trust id ≡ none)
unfolding revoke_device
revoke_device_lem s id good =
    let (push, trust) =
      pushed-Pushed id (push_command (kick (codes "device revoked by host"))) Kicked s
        (revoke s.trust id good) push-Kicked in
    (
      push,
      ap (λ t. get t id) trust ∙ (get-revoke s.trust id id good ∙ if_true _ _ _ (list_eq_refl id)),
    )
