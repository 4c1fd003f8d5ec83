-- ===== src/Host/Pin/Validity.antt =====
-- A PIN has the digits that were asked for, and one that was used or timed out is never shown again.
use native.Mathlib.Nat.{pow-suc, mod-lt}
use nebula_display.Prelude.{
  ℕ, zero, suc, ◌+◌, ◌-◌, ◌*◌, ◌/◌, ◌%◌, ◌^◌, ◌≤◌, ◌<◌, ◌≡◌, refl, ◌⊎◌, false, none, List, [], ◌∷◌,
  ◌++◌, arith, length, All, length-append, All-append, nat_eq, text_eq, lookup, lookup-remove_self,
}
use nebula_display.Host.Pin.{
  padded_digits, generate_pin, PinManager, current_pin, record_failure, consume,
}

abbrev pub IsDigit : ℕ → Type 0
IsDigit c = (b'0' ≤ c) × (c ≤ b'9')

-- The number that digits stand for.
abbrev pub decimal : ℕ → List ℕ → ℕ
decimal acc [] = acc
decimal acc (c ∷ cs) = decimal (acc * 10 + (c - b'0')) cs

decimal-snoc :
    (acc : ℕ) (cs : List ℕ) (c : ℕ) → decimal acc (cs ++ c ∷ []) ≡ decimal acc cs * 10 + (c - b'0')
decimal-snoc acc [] c = refl
decimal-snoc acc (x ∷ cs) c = decimal-snoc (acc * 10 + (x - b'0')) cs c

padded_shape :
    (width n : ℕ) → (length (padded_digits width n) ≡ width) × All IsDigit (padded_digits width n)
unfolding padded_digits
padded_shape zero n = (refl, tt)
padded_shape (suc width) n =
    let (len, digits) = padded_shape width (n / 10) in
    let last : List ℕ = (b'0' + n % 10) ∷ [] in
    (
      omega (arith, length-append (padded_digits width (n / 10)) last),
      All-append IsDigit (padded_digits width (n / 10)) last digits
          ((omega arith, omega arith), tt),
    )

padded_value : (width n : ℕ) → n < 10 ^ width → decimal 0 (padded_digits width n) ≡ n
unfolding padded_digits
padded_value zero n h = omega arith
padded_value (suc width) n h = omega (
  arith,
  decimal-snoc 0 (padded_digits width (n / 10)) (b'0' + n % 10),
  padded_value width (n / 10) (omega (arith, pow-suc 10 width)),
)

pow_pos : (k : ℕ) → 0 < 10 ^ k
pow_pos zero = omega arith
pow_pos (suc k) = omega (arith, pow-suc 10 k, pow_pos k)

-- A generated PIN has exactly the digits that were asked for, leading zeros among them, each is a
-- decimal digit, and together they stand for the drawn word modulo ten to that power.
pub generate_pin_shape :
    (digits word : ℕ)
    → (length (generate_pin digits word) ≡ digits)
      × All IsDigit (generate_pin digits word)
      × (decimal 0 (generate_pin digits word) ≡ word % 10 ^ digits)
unfolding generate_pin
generate_pin_shape digits word =
    let (len, all) = padded_shape digits (word % 10 ^ digits) in
    (len, all, padded_value digits (word % 10 ^ digits) (mod-lt word (pow_pos digits)))

-- A PIN that may still be used for a pairing.
pub record IsLive (m : PinManager) (now : ℕ) : Type 0 where
  pub unused : m.used ≡ false
  pub young : now ≤ m.issued + m.ttl

-- `current_pin` shows the PIN that it leaves in force, and that PIN is unused and within its time.
-- One that was already so stays; any other is replaced by a fresh one, issued now.
pub current_pin-IsLive :
    (m : PinManager) (now word : ℕ)
    → let r = current_pin m now word in
      IsLive r.0 now
      × (r.1 ≡ r.0.pin)
      × ((IsLive m now × (r.0 ≡ m))
          ⊎ ((¬ IsLive m now) × (r.1 ≡ generate_pin m.digits word) × (r.0.issued ≡ now)))
unfolding current_pin
current_pin-IsLive m now word = ground arith

-- A PIN is used up by one pairing and by one failure: after either, whatever the time, the next PIN
-- shown is one that was generated since. A pairing also clears the address's failures.
pub spent_pin :
    (m : PinManager) (ip now later word word' : ℕ)
    → ((current_pin (consume m ip) later word).1 ≡ generate_pin m.digits word)
      × (lookup ip (consume m ip).attempts ≡ none)
      × (let shown = (current_pin (record_failure m ip now word) later word').1 in
          (shown ≡ generate_pin m.digits word) ⊎ (shown ≡ generate_pin m.digits word'))
unfolding current_pin consume record_failure
spent_pin m ip now later word word' = (ground arith, lookup-remove_self ip m.attempts, ground arith)
