-- ===== src/Host/Touch.antt =====
-- host/service/src/input/touch_frame.rs: the tracker that turns single touch events into full frames of
-- contacts. Positions and pressures are only stored and copied: their type `F` (f32 in the code) is a
-- parameter, with its zero.
pub mod Frames
pub mod Contacts
pub mod Tracking
mod Examples
use nebula_display.Prelude.{
  ℕ, zero, suc, ◌+◌, ◌-◌, ◌*◌, ◌/◌, ◌%◌, ◌^◌, ◌≤◌, ◌<◌, min, max, ◌≡◌, refl, sym, ap, ◌∙◌, subst,
  ◌≢◌, ◌↔◌, ◌⊎◌, inl, inr, Bool, true, false, not, ◌&&◌, ◌||◌, Option, none, some, List, [], ◌∷◌,
  ◌++◌, map, append_assoc, append-nil, arith, ltb, leb, ◌==◌, if◌then◌else◌, ltb→lt, lt→ltb, le→ltb,
  ==_iff, Bool-cases, Option-cases, length, get_or, set, take, drop, replicate, All, keep, first,
  length-append, length-set, get_or-set_self, get_or-set_ne, take-append, drop-append, length-drop,
  All-keep, All-append, take-append_eq, drop-append_eq, list_eq, list_eq→eq, list_eq_refl,
  list_eq-of_ne, Eq, nat_eq, text_eq, lookup, insert, remove, lookup-insert, lookup-remove,
  lookup-insert_self, lookup-insert_ne, lookup-remove_self, lookup-remove_ne, Result, ok, err,
  ◌>>=◌, ok_or,
}

pub data TouchPhase : Type 0 where
  start move end cancel : TouchPhase

pub data Action : Type 0 where
  down update up canceled : Action

abbrev pub max_contacts : ℕ
max_contacts = 10

pub record Contact (F : Type 0) : Type 0 where
  pub slot : ℕ
  pub x : F
  pub y : F
  pub pressure : F
  pub action : Action

pub record Slot (F : Type 0) : Type 0 where
  pub id : ℕ
  pub x : F
  pub y : F
  pub pressure : F

-- The array of slots of a `TouchTracker`.
abbrev pub Slots : Type 0 → Type 0
Slots F = List (Option (Slot F))

-- `position` of an iterator.
unfoldable pub position {ℓ} : {A : Type ℓ} → (A → Bool) → List A → Option ℕ
position p [] = none
position p (x ∷ xs) =
    let later = position p xs in
    elim (p x) [ true ↦ some 0 | false ↦ elim later [ none ↦ none | some i ↦ some (suc i) ] ]

abbrev pub is_free : {F : Type 0} → Option (Slot F) → Bool
is_free none = true
is_free (some s) = false

abbrev pub holds : {F : Type 0} → ℕ → Option (Slot F) → Bool
holds id none = false
holds id (some s) = s.id == id

module _ {F : Type 0} where
  -- `TouchTracker::default`.
  abbrev pub no_slots : Slots F
  no_slots = replicate max_contacts none

  -- `slot_of`.
  unfoldable pub slot_of : Slots F → ℕ → Option ℕ
  slot_of slots id = position (holds id) slots

  contact : ℕ → Slot F → Action → Contact F
  contact i s a = record { slot = i; x = s.x; y = s.y; pressure = s.pressure; action = a }

  -- The contacts of the slots from index `i` on.
  unfoldable pub frame_from : ℕ → Slots F → ℕ → Action → List (Contact F)
  unfolding contact
  frame_from i [] changed action = []
  frame_from i (none ∷ ss) changed action = frame_from (i + 1) ss changed action
  frame_from i (some s ∷ ss) changed action =
      contact i s (if i == changed then action else update) ∷ frame_from (i + 1) ss changed action

  -- `frame_with`.
  unfoldable pub frame_with : Slots F → ℕ → Action → List (Contact F)
  frame_with slots changed action = frame_from 0 slots changed action

  cancel_from : ℕ → Slots F → List (Contact F)
  unfolding contact
  cancel_from i [] = []
  cancel_from i (none ∷ ss) = cancel_from (i + 1) ss
  cancel_from i (some s ∷ ss) = contact i s canceled ∷ cancel_from (i + 1) ss

  final_frame : List (Contact F) → Slots F × Option (List (Contact F))
  final_frame [] = (no_slots, none)
  final_frame (c ∷ cs) = (no_slots, some (c ∷ cs))

  -- `cancel_all`.
  unfoldable pub cancel_all : Slots F → Slots F × Option (List (Contact F))
  unfolding cancel_from final_frame
  cancel_all slots = final_frame (cancel_from 0 slots)

  -- `is_empty`.
  unfoldable pub is_empty : Slots F → Bool
  is_empty [] = true
  is_empty (s ∷ ss) = is_free s && is_empty ss

  module _ (zero_f : F) where
    claim_at : Slots F → ℕ → Option ℕ → Option (Slots F × ℕ)
    claim_at slots id none = none
    claim_at slots id (some i) =
        some (set slots i (some (record { id = id; x = zero_f; y = zero_f; pressure = zero_f })), i)

    -- `claim`.
    unfoldable pub claim : Slots F → ℕ → Option (Slots F × ℕ)
    unfolding claim_at
    claim slots id = claim_at slots id (position is_free slots)

    claimed : Option (Slots F × ℕ) → Option (Slots F × ℕ × Action)
    claimed none = none
    claimed (some (ss, i)) = some (ss, i, down)

    -- The slot of an event and its transition, with the slots after a claim; `none` is a no-op.
    resolve : Slots F → ℕ → TouchPhase → Option ℕ → Option (Slots F × ℕ × Action)
    unfolding claimed claim
    resolve slots id start (some s) = some (slots, s, update)
    resolve slots id start none = claimed (claim slots id)
    resolve slots id move (some s) = some (slots, s, update)
    resolve slots id move none = claimed (claim slots id)
    resolve slots id end (some s) = some (slots, s, up)
    resolve slots id cancel (some s) = some (slots, s, canceled)
    resolve slots id end none = none
    resolve slots id cancel none = none

    abbrev lifts : Action → Bool
    lifts up = true
    lifts canceled = true
    lifts _ = false

    -- The write, the frame, and the release of a lifted contact.
    inject : Slots F → Slot F → Option (Slots F × ℕ × Action) → Slots F × Option (List (Contact F))
    inject slots v none = (slots, none)
    inject slots v (some (ss, i, action)) =
        let written = set ss i (some v) in
        (if lifts action then set written i none else written, some (frame_with written i action))

    -- `apply`.
    unfoldable pub apply_touch :
        Slots F → ℕ → TouchPhase → F → F → F → Slots F × Option (List (Contact F))
    unfolding resolve inject
    apply_touch slots id phase x y pressure =
        inject slots (record { id = id; x = x; y = y; pressure = pressure })
          (resolve slots id phase (slot_of slots id))
