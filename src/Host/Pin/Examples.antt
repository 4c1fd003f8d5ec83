-- ===== src/Host/Pin/Examples.antt =====
-- Runs of the theorems on PINs and their attempts.
use nebula_display.Prelude.{
  ◌≡◌, refl, false, none, List, [], ◌∷◌, arith, codes, nat_eq, text_eq, lookup,
}
use nebula_display.Host.Pin.{PinManager}
use nebula_display.Host.Pin.Lockout.{
  PinEvent, opens, fails, pairs, on_pin_events, openings, lockout_closes,
}

abbrev a_manager : PinManager
a_manager = record {
  digits = 6;
  ttl = 120_000;
  max_attempts = 3;
  lockout = 60_000;
  pin = codes "012345";
  issued = 1_000;
  used = false;
  attempts = (8, record { failures = 1; locked_until = none }) ∷ [];
}

-- Two failures of the address 8, among them one of the address 9.
abbrev failures : List PinEvent
failures = opens 8 2_000 ∷ fails 8 3_000 2 ∷ fails 9 3_500 3 ∷ fails 8 4_000 4 ∷ []

-- Another exchange is asked for, while the failure of one that was open comes in.
abbrev later : List PinEvent
later = opens 8 5_000 ∷ fails 8 6_000 5 ∷ pairs 9 ∷ opens 8 59_000 ∷ []

lockout_closes_example : openings (on_pin_events a_manager failures) 8 later ≡ 0
unfolding lookup
lockout_closes_example =
    lockout_closes a_manager 8 2_000 60_000 failures later (omega arith) refl (omega arith)
      (omega arith)
      (
        (omega arith, omega arith),
        (
          (omega arith, omega arith),
          ((omega arith, omega arith), ((omega arith, omega arith), tt)),
        ),
      )
      (
        (omega arith, omega arith),
        ((omega arith, omega arith), ((λ e. omega arith), ((omega arith, omega arith), tt))),
      )
      (omega arith)
