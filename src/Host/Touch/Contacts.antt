-- ===== src/Host/Touch/Contacts.antt =====
-- The tracker as a map from contact ids to positions.
use nebula_display.Prelude.{
  ℕ, zero, suc, ◌≤◌, ◌<◌, ◌≡◌, refl, ◌⊎◌, inl, inr, false, Option, none, some, [], ◌∷◌, arith, ◌==◌,
  if◌then◌else◌, Bool-cases, length, set, nat_eq, text_eq,
}
use nebula_display.Host.Touch.{Slot, Slots, position, is_free, holds, slot_of}

module _ {F : Type 0} where
  -- The contact that the slots hold for an id.
  unfoldable pub contact_of : ℕ → Slots F → Option (Slot F)
  contact_of id [] = none
  contact_of id (none ∷ ss) = contact_of id ss
  contact_of id (some s ∷ ss) = if s.id == id then some s else contact_of id ss

  -- The contacts that are held.
  unfoldable pub active : Slots F → ℕ
  active [] = 0
  active (none ∷ ss) = active ss
  active (some s ∷ ss) = suc (active ss)

  abbrev pub Absent : Option (Slot F) → Slots F → Type 0
  Absent none ss = Unit {0}
  Absent (some s) ss = contact_of s.id ss ≡ none

  -- No id is held twice.
  abbrev pub Unique : Slots F → Type 0
  Unique [] = Unit {0}
  Unique (s ∷ ss) = Absent s ss × Unique ss

  -- Slot `i` is where `id` belongs: it holds the id, or is free while no slot holds it.
  abbrev pub Target : ℕ → Slots F → ℕ → Type 0
  Target id [] i = ⊥
  Target id (none ∷ ss) zero = contact_of id ss ≡ none
  Target id (some s ∷ ss) zero = s.id ≡ id
  Target id (s ∷ ss) (suc i) = (holds id s ≡ false) × Target id ss i

  pub contact_of-set :
      (id j i : ℕ) (slots : Slots F) (v : Slot F)
      → v.id ≡ id
      → Target id slots i
      → contact_of j (set slots i (some v)) ≡ (if id == j then some v else contact_of j slots)
  unfolding contact_of
  contact_of-set id j i [] v e t = absurd t
  contact_of-set id j zero (none ∷ ss) v e t = ground arith
  contact_of-set id j zero (some s ∷ ss) v e t = ground arith
  contact_of-set id j (suc i) (none ∷ ss) v e t = contact_of-set id j i ss v e t.1
  contact_of-set id j (suc i) (some s ∷ ss) v e t = ground (arith, contact_of-set id j i ss v e t.1)

  pub contact_of-clear :
      (id j i : ℕ) (slots : Slots F)
      → Unique slots
      → Target id slots i
      → contact_of j (set slots i none) ≡ (if id == j then none else contact_of j slots)
  unfolding contact_of
  contact_of-clear id j i [] u t = absurd t
  contact_of-clear id j zero (none ∷ ss) u t = ground arith
  contact_of-clear id j zero (some s ∷ ss) u t = ground arith
  contact_of-clear id j (suc i) (none ∷ ss) u t = contact_of-clear id j i ss u.1 t.1
  contact_of-clear id j (suc i) (some s ∷ ss) u t =
      ground (arith, contact_of-clear id j i ss u.1 t.1)

  pub Unique-set :
      (id i : ℕ) (slots : Slots F) (v : Slot F)
      → v.id ≡ id
      → Unique slots
      → Target id slots i
      → Unique (set slots i (some v))
  Unique-set id i [] v e u t = absurd t
  Unique-set id zero (none ∷ ss) v e u t = (rw e t, u.1)
  Unique-set id zero (some s ∷ ss) v e u t = (rw (e, ← t) u.0, u.1)
  Unique-set id (suc i) (none ∷ ss) v e u t = (tt, Unique-set id i ss v e u.1 t.1)
  Unique-set id (suc i) (some s ∷ ss) v e u t =
      (ground (arith, contact_of-set id s.id i ss v e t.1), Unique-set id i ss v e u.1 t.1)

  pub Unique-clear :
      (id i : ℕ) (slots : Slots F) → Unique slots → Target id slots i → Unique (set slots i none)
  Unique-clear id i [] u t = absurd t
  Unique-clear id zero (none ∷ ss) u t = u
  Unique-clear id zero (some s ∷ ss) u t = (tt, u.1)
  Unique-clear id (suc i) (none ∷ ss) u t = (tt, Unique-clear id i ss u.1 t.1)
  Unique-clear id (suc i) (some s ∷ ss) u t =
      (ground (arith, contact_of-clear id s.id i ss u.1 t.1), Unique-clear id i ss u.1 t.1)

  -- What a search for the id finds.
  pub slot_of-cases :
      (id : ℕ) (slots : Slots F)
      → ((slot_of slots id ≡ none) × (contact_of id slots ≡ none))
        ⊎ ((i : ℕ) × (s : Slot F) × (slot_of slots id ≡ some i)
            × Target id slots i
            × (contact_of id slots ≡ some s))
  unfolding slot_of position contact_of
  slot_of-cases id [] = inl (refl, refl)
  slot_of-cases id (none ∷ ss) = elim (slot_of-cases id ss) [
    | inl (e, f) ↦ inl (ground arith, f)
    | inr (i, s, e, t, f) ↦ inr (suc i, s, ground arith, (refl, t), f)
  ]
  slot_of-cases id (some s ∷ ss) = elim (Bool-cases (s.id == id)) [
    | inl same ↦ inr (0, s, ground arith, ground arith, ground arith)
    | inr other ↦ elim (slot_of-cases id ss) [
      | inl (e, f) ↦ inl (ground arith, ground arith)
      | inr (i, r, e, t, f) ↦ inr (suc i, r, ground arith, (other, t), ground arith)
    ]
  ]

  active-le : (slots : Slots F) → active slots ≤ length slots
  unfolding active
  active-le [] = omega arith
  active-le (none ∷ ss) = omega (arith, active-le ss)
  active-le (some s ∷ ss) = omega (arith, active-le ss)

  -- What a search for a free slot finds, when no slot holds the id.
  pub free-cases :
      (id : ℕ) (slots : Slots F)
      → contact_of id slots ≡ none
      → ((position is_free slots ≡ none) × (active slots ≡ length slots))
        ⊎ ((i : ℕ) × (position is_free slots ≡ some i)
            × Target id slots i
            × (active slots < length slots))
  unfolding position contact_of active
  free-cases id [] h = inl (refl, refl)
  free-cases id (none ∷ ss) h = inr (0, ground arith, h, omega (arith, active-le ss))
  free-cases id (some s ∷ ss) h = elim (free-cases id ss (ground arith)) [
    | inl (e, f) ↦ inl (ground arith, ground arith)
    | inr (i, e, t, f) ↦ inr (suc i, ground arith, (ground arith, t), omega arith)
  ]
