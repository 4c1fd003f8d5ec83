-- ===== src/Host/Touch/Frames.antt =====
-- What a frame holds: every contact, each in its slot.
use nebula_display.Prelude.{
  ℕ, zero, suc, ◌+◌, ◌<◌, ◌≡◌, refl, sym, ◌≢◌, ◌↔◌, inl, inr, true, Option, none, some, List, [],
  ◌∷◌, arith, ◌==◌, if◌then◌else◌, length, get_or, set, get_or-set_self, get_or-set_ne, nat_eq,
  text_eq,
}
use nebula_display.Host.Touch.{
  TouchPhase, Action, update, canceled, Contact, Slot, Slots, no_slots, frame_from, frame_with,
  cancel_all, is_empty, apply_touch, cancel_from, final_frame,
}
use nebula_display.Host.Touch.Contacts.{contact_of, Target}
use nebula_display.Host.Touch.Tracking.{known, phase_action, apply_cases}

module _ {F : Type 0} where
  -- The contact that a frame shows for a slot.
  unfoldable pub shown : ℕ → List (Contact F) → Option (Contact F)
  shown k [] = none
  shown k (c ∷ cs) = if c.slot == k then some c else shown k cs

  abbrev pub slot_at : ℕ → Slots F → Option (Slot F)
  slot_at k slots = get_or slots k none

  -- A slot as the frame should show it.
  abbrev pub as_contact : ℕ → Action → Option (Slot F) → Option (Contact F)
  as_contact k a none = none
  as_contact k a (some s) =
      some (record { slot = k; x = s.x; y = s.y; pressure = s.pressure; action = a })

  shown_below :
      (i k changed : ℕ) (a : Action) (ss : Slots F)
      → k < i
      → shown k (frame_from i ss changed a) ≡ none
  unfolding shown frame_from
  shown_below i k changed a [] h = refl
  shown_below i k changed a (none ∷ ss) h = shown_below (i + 1) k changed a ss (omega arith)
  shown_below i k changed a (some s ∷ ss) h = ground (arith, shown_below (i + 1) k changed a ss)

  -- Slot `k` of a table that starts at index `i`.
  shown_from :
      (i k j changed : ℕ) (a : Action) (ss : Slots F)
      → j ≡ i + k
      → shown j (frame_from i ss changed a)
        ≡ as_contact j (if j == changed then a else update) (slot_at k ss)
  unfolding shown frame_from
  shown_from i k j changed a [] e = refl
  shown_from i zero j changed a (none ∷ ss) e = shown_below (i + 1) j changed a ss (omega arith)
  shown_from i zero j changed a (some s ∷ ss) e = ground arith
  shown_from i (suc k) j changed a (none ∷ ss) e = shown_from (i + 1) k j changed a ss (omega arith)
  shown_from i (suc k) j changed a (some s ∷ ss) e =
      ground (arith, shown_from (i + 1) k j changed a ss (omega arith))

  Target-lt : (id i : ℕ) (slots : Slots F) → Target id slots i → i < length slots
  Target-lt id i [] t = absurd t
  Target-lt id zero (none ∷ ss) t = omega arith
  Target-lt id zero (some s ∷ ss) t = omega arith
  Target-lt id (suc i) (none ∷ ss) t = omega (arith, Target-lt id i ss t.1)
  Target-lt id (suc i) (some s ∷ ss) t = omega (arith, Target-lt id i ss t.1)

  -- The frame of an event shows the event's contact in its slot, at the new position and with its
  -- transition, and in every other slot exactly the contact that the tracker holds there, unmoved and
  -- as an update: no contact is left out, which the system would take for lifted.
  pub frame_complete :
      (zero_f : F) (slots : Slots F) (id : ℕ) (phase : TouchPhase) (x y p : F)
      (frame : List (Contact F))
      → (apply_touch zero_f slots id phase x y p).1 ≡ some frame
      → (i : ℕ) × (shown i frame
          ≡ some (record {
            slot = i;
            x = x;
            y = y;
            pressure = p;
            action = phase_action phase (known (contact_of id slots));
          }))
        × ((k : ℕ) → k ≢ i → shown k frame ≡ as_contact k update (slot_at k slots))
  unfolding frame_with
  frame_complete zero_f slots id phase x y p frame h =
      let v : Slot F = record { id = id; x = x; y = y; pressure = p } in
      let a = phase_action phase (known (contact_of id slots)) in
      elim (apply_cases zero_f slots id phase x y p) [
        | inl (e, f, why) ↦ absurd (ground arith)
        | inr (i, t, lift, room, e) ↦
            let made : frame ≡ frame_from 0 (set slots i (some v)) i a = ground arith in
            (
              i,
              rw
                  (
                    made,
                    shown_from 0 i i i a (set slots i (some v)) (omega arith),
                    get_or-set_self slots i (some v) none (Target-lt id i slots t),
                  )
                  (ground arith),
              λ k other.
                  rw
                    (
                      made,
                      shown_from 0 k k i a (set slots i (some v)) (omega arith),
                      get_or-set_ne slots i k (some v) none (λ q. other (sym q)),
                    )
                    (ground arith),
            )
      ]

  shown_cancel_below : (i k : ℕ) (ss : Slots F) → k < i → shown k (cancel_from i ss) ≡ none
  unfolding shown cancel_from
  shown_cancel_below i k [] h = refl
  shown_cancel_below i k (none ∷ ss) h = shown_cancel_below (i + 1) k ss (omega arith)
  shown_cancel_below i k (some s ∷ ss) h = ground (arith, shown_cancel_below (i + 1) k ss)

  shown-cancel_from :
      (i k j : ℕ) (ss : Slots F)
      → j ≡ i + k
      → shown j (cancel_from i ss) ≡ as_contact j canceled (slot_at k ss)
  unfolding shown cancel_from
  shown-cancel_from i k j [] e = refl
  shown-cancel_from i zero j (none ∷ ss) e = shown_cancel_below (i + 1) j ss (omega arith)
  shown-cancel_from i zero j (some s ∷ ss) e = ground arith
  shown-cancel_from i (suc k) j (none ∷ ss) e = shown-cancel_from (i + 1) k j ss (omega arith)
  shown-cancel_from i (suc k) j (some s ∷ ss) e =
      ground (arith, shown-cancel_from (i + 1) k j ss (omega arith))

  cancel_from-nil : (i : ℕ) (ss : Slots F) → (cancel_from i ss ≡ []) ↔ (is_empty ss ≡ true)
  unfolding cancel_from is_empty
  cancel_from-nil i [] = (λ _. refl, λ _. refl)
  cancel_from-nil i (none ∷ ss) = cancel_from-nil (i + 1) ss
  cancel_from-nil i (some s ∷ ss) = (λ h. cc, λ h. cc)

  final-cases :
      (cs : List (Contact F))
      → ((final_frame cs).0 ≡ no_slots)
        × (((final_frame cs).1 ≡ none) ↔ (cs ≡ []))
        × ((frame : List (Contact F)) → (final_frame cs).1 ≡ some frame → frame ≡ cs)
  unfolding final_frame
  final-cases [] = (refl, (λ _. refl, λ _. refl), λ frame h. cc)
  final-cases (c ∷ cs) = (refl, (λ h. cc, λ h. cc), λ frame h. cc)

  -- Cancelling all leaves an empty tracker, gives no frame exactly when nothing was held, and else a
  -- frame that shows every held contact, in its slot and where it was, as cancelled.
  pub cancel_all_lem :
      (slots : Slots F)
      → ((cancel_all slots).0 ≡ no_slots)
        × (((cancel_all slots).1 ≡ none) ↔ (is_empty slots ≡ true))
        × ((frame : List (Contact F))
            → (cancel_all slots).1 ≡ some frame
            → (k : ℕ) → shown k frame ≡ as_contact k canceled (slot_at k slots))
  unfolding cancel_all
  cancel_all_lem slots =
      let (empty, nothing, all) = final-cases (cancel_from 0 slots) in
      let (there, back) = cancel_from-nil 0 slots in
      (
        empty,
        (λ h. there (nothing.0 h), λ h. nothing.1 (back h)),
        λ frame h k. rw (all frame h) (shown-cancel_from 0 k k slots (omega arith)),
      )
