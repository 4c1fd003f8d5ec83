-- ===== src/Host/Touch/Examples.antt =====
-- Runs of the theorems on contacts.
use nebula_display.Prelude.{
  ℕ, ◌≡◌, refl, none, some, List, [], ◌∷◌, arith, ◌==◌, if◌then◌else◌, length, replicate, nat_eq,
  text_eq,
}
use nebula_display.Host.Touch.{
  start, down, update, Contact, Slot, Slots, position, slot_of, frame_from, frame_with, claim,
  apply_touch, resolve, claimed, contact, claim_at, inject,
}
use nebula_display.Host.Touch.Contacts.{contact_of, Unique}
use nebula_display.Host.Touch.Tracking.{fits, wanted, apply_touch_lem}

abbrev left_finger : Slot ℕ
left_finger = record { id = 40; x = 1; y = 2; pressure = 3 }

-- One contact, in the first of the ten slots.
abbrev one_contact : Slots ℕ
one_contact = some left_finger ∷ replicate 9 none

one_contact-Unique : Unique one_contact
unfolding contact_of
one_contact-Unique = ground arith

abbrev second_frame : List (Contact ℕ)
second_frame =
    record { slot = 0; x = 1; y = 2; pressure = 3; action = update }
    ∷ record { slot = 1; x = 7; y = 8; pressure = 9; action = down }
    ∷ []

second_shown : (apply_touch 0 one_contact 41 start 7 8 9).1 ≡ some second_frame
unfolding apply_touch slot_of position resolve claim claim_at claimed inject frame_with frame_from
    contact
second_shown = refl

apply_touch_lem_example :
    let v : Slot ℕ = record { id = 41; x = 7; y = 8; pressure = 9 } in
    let after = (apply_touch 0 one_contact 41 start 7 8 9).0 in
    Unique after
    × (length after ≡ 10)
    × ((j : ℕ)
        → contact_of j after
          ≡ (if 41 == j then wanted start (fits one_contact 41) v else contact_of j one_contact))
apply_touch_lem_example = apply_touch_lem 0 one_contact 41 start 7 8 9 one_contact-Unique
