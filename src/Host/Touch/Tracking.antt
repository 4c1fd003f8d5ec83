-- ===== src/Host/Touch/Tracking.antt =====
-- What one touch event does to the contacts that are tracked.
use nebula_display.Prelude.{
  ℕ, zero, suc, ◌≡◌, refl, ap, ◌↔◌, ◌⊎◌, inl, inr, Bool, true, false, ◌||◌, Option, none, some, [],
  ◌∷◌, arith, ltb, ◌==◌, if◌then◌else◌, lt→ltb, Bool-cases, length, set, length-set, nat_eq,
  text_eq,
}
use nebula_display.Host.Touch.{
  TouchPhase, start, move, end, cancel, Action, down, update, up, canceled, Slot, Slots, frame_with,
  apply_touch,
}
use nebula_display.Host.Touch.Contacts.{
  contact_of, active, Unique, Target, contact_of-set, contact_of-clear, Unique-set, Unique-clear,
  slot_of-cases, free-cases,
}

abbrev pub known : {F : Type 0} → Option (Slot F) → Bool
known none = false
known (some s) = true

-- The transition that a frame shows for the contact of an event.
abbrev pub phase_action : TouchPhase → Bool → Action
phase_action start true = update
phase_action start false = down
phase_action move true = update
phase_action move false = down
phase_action end _ = up
phase_action cancel _ = canceled

abbrev pub is_lift : TouchPhase → Bool
is_lift start = false
is_lift move = false
is_lift end = true
is_lift cancel = true

module _ {F : Type 0} where
  set_twice : (xs : Slots F) (i : ℕ) (a b : Option (Slot F)) → set (set xs i a) i b ≡ set xs i b
  set_twice [] i a b = refl
  set_twice (x ∷ xs) zero a b = refl
  set_twice (x ∷ xs) (suc i) a b = ap (◌∷◌ x) (set_twice xs i a b)

  -- There is a slot for the contact: its own, or a free one.
  abbrev pub fits : Slots F → ℕ → Bool
  fits slots id = known (contact_of id slots) || ltb (active slots) (length slots)

  -- What the tracker should hold for an id after an event.
  abbrev pub wanted : TouchPhase → Bool → Slot F → Option (Slot F)
  wanted phase room v = if is_lift phase then none else if room then some v else none

  module _ (zero_f : F) where
    abbrev pub Handled : Slots F → ℕ → TouchPhase → F → F → F → ℕ → Type 0
    Handled slots id phase x y p i =
        let v : Slot F = record { id = id; x = x; y = y; pressure = p } in
        let action = phase_action phase (known (contact_of id slots)) in
        apply_touch zero_f slots id phase x y p ≡ (
          if is_lift phase then set slots i none else set slots i (some v),
          some (frame_with (set slots i (some v)) i action),
        )

    -- An event is a no-op, or writes the slot where its id belongs.
    pub apply_cases :
        (slots : Slots F) (id : ℕ) (phase : TouchPhase) (x y p : F)
        → ((apply_touch zero_f slots id phase x y p ≡ (slots, none))
            × (contact_of id slots ≡ none)
            × ((is_lift phase ≡ true) ⊎ (active slots ≡ length slots)))
          ⊎ ((i : ℕ) × Target id slots i
              × ((is_lift phase ≡ false) ⊎ (known (contact_of id slots) ≡ true))
              × (fits slots id ≡ true)
              × Handled slots id phase x y p i)
    unfolding apply_touch
    apply_cases slots id start x y p = elim (slot_of-cases id slots) [
      | inr (i, s, e, t, f) ↦ inr (i, t, inl refl, rw f, rw (e, f))
      | inl (e, f) ↦ elim (free-cases id slots f) [
        | inl (g, full) ↦ inl (rw (e, g), f, inr full)
        | inr (i, g, t, room) ↦ inr (
          i,
          t,
          inl refl,
          rw (f, lt→ltb (active slots) (length slots) room),
          rw (e, g, f, set_twice),
        )
      ]
    ]
    apply_cases slots id move x y p = elim (slot_of-cases id slots) [
      | inr (i, s, e, t, f) ↦ inr (i, t, inl refl, rw f, rw (e, f))
      | inl (e, f) ↦ elim (free-cases id slots f) [
        | inl (g, full) ↦ inl (rw (e, g), f, inr full)
        | inr (i, g, t, room) ↦ inr (
          i,
          t,
          inl refl,
          rw (f, lt→ltb (active slots) (length slots) room),
          rw (e, g, f, set_twice),
        )
      ]
    ]
    apply_cases slots id end x y p = elim (slot_of-cases id slots) [
      | inr (i, s, e, t, f) ↦ inr (i, t, inr (rw f), rw f, rw (e, set_twice))
      | inl (e, f) ↦ inl (rw e, f, inl refl)
    ]
    apply_cases slots id cancel x y p = elim (slot_of-cases id slots) [
      | inr (i, s, e, t, f) ↦ inr (i, t, inr (rw f), rw f, rw (e, set_twice))
      | inl (e, f) ↦ inl (rw e, f, inl refl)
    ]

    untouched :
        (slots : Slots F) (id j : ℕ) (phase : TouchPhase) (v : Slot F)
        → contact_of id slots ≡ none
        → (is_lift phase ≡ true) ⊎ (active slots ≡ length slots)
        → contact_of j slots
          ≡ (if id == j then wanted phase (fits slots id) v else contact_of j slots)
    untouched slots id j phase v f why = elim (Bool-cases (id == j)) [
      | inl same ↦
          let e : id ≡ j = ground arith in
          let f' : contact_of j slots ≡ none = rw e at f in ground arith
      | inr other ↦ ground arith
    ]

    -- After any event the tracker holds exactly what it should: for the event's own id its new position,
    -- if the contact was held or a slot was free, and nothing after a lift or with no room; for every
    -- other id what it held before. No id is held twice, and the number of slots stays.
    pub apply_touch_lem :
        (slots : Slots F) (id : ℕ) (phase : TouchPhase) (x y p : F)
        → Unique slots
        → let v : Slot F = record { id = id; x = x; y = y; pressure = p } in
          let after = (apply_touch zero_f slots id phase x y p).0 in
          Unique after
          × (length after ≡ length slots)
          × ((j : ℕ)
              → contact_of j after
                ≡ (if id == j then wanted phase (fits slots id) v else contact_of j slots))
    apply_touch_lem slots id phase x y p u =
        let v : Slot F = record { id = id; x = x; y = y; pressure = p } in
        elim (apply_cases slots id phase x y p) [
          | inl (e, f, why) ↦ rw e (u, refl, λ j. untouched slots id j phase v f why)
          | inr (i, t, _, room, e) ↦
              rw (e, room)
                (elim (Bool-cases (is_lift phase)) [
                  | inl lift ↦ rw lift (
                    Unique-clear id i slots u t,
                    length-set slots i none,
                    λ j. contact_of-clear id j i slots u t,
                  )
                  | inr held ↦ rw held (
                    Unique-set id i slots v refl u t,
                    length-set slots i (some v),
                    λ j. contact_of-set id j i slots v refl t,
                  )
                ])
        ]

    -- An event gives no frame exactly when it is the lift of an unknown contact, or a new contact while
    -- every slot is in use; and then it changes nothing.
    pub apply_touch-none_iff :
        (slots : Slots F) (id : ℕ) (phase : TouchPhase) (x y p : F)
        → ((apply_touch zero_f slots id phase x y p).1 ≡ none) ↔ (
            (contact_of id slots ≡ none) × ((is_lift phase ≡ true) ⊎ (active slots ≡ length slots)))
    apply_touch-none_iff slots id phase x y p = elim (apply_cases slots id phase x y p) [
      | inl (e, f, why) ↦ (λ _. (f, why), λ _. rw e)
      | inr (i, t, lift, room, e) ↦ (λ h. ground arith, λ (f, why). ground arith)
    ]
