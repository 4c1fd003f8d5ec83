-- ===== src/Host/Pin.antt =====
-- host/service/src/pin.rs: the life of the pairing PIN, and the lockout of an address after failed
-- attempts; and `generate_pin` of shared/protocol/src/crypto.rs. Instants and durations are
-- milliseconds, addresses are numbers; the clock's reading and the random word that a call draws are
-- arguments. The two mutexes are held one after the other, never across a wait; a method
-- that takes both is one step here.
pub mod Lockout
pub mod Validity
mod Examples
use nebula_display.Prelude.{
  ℕ, zero, suc, ◌+◌, ◌-◌, ◌*◌, ◌/◌, ◌%◌, ◌^◌, ◌≤◌, ◌<◌, min, max, ◌≡◌, refl, sym, ap, ◌∙◌, subst,
  ◌≢◌, ◌↔◌, ◌⊎◌, inl, inr, Bool, true, false, not, ◌&&◌, ◌||◌, Option, none, some, List, [], ◌∷◌,
  ◌++◌, map, append_assoc, append-nil, arith, ltb, leb, ◌==◌, if◌then◌else◌, ltb→lt, lt→ltb, le→ltb,
  ==_iff, Bool-cases, Option-cases, length, get_or, set, take, drop, replicate, All, keep, first,
  length-append, length-set, get_or-set_self, get_or-set_ne, take-append, drop-append, length-drop,
  All-keep, All-append, take-append_eq, drop-append_eq, list_eq, list_eq→eq, list_eq_refl,
  list_eq-of_ne, Eq, nat_eq, text_eq, lookup, insert, remove, lookup-insert, lookup-remove,
  lookup-insert_self, lookup-insert_ne, lookup-remove_self, lookup-remove_ne, Result, ok, err,
  ◌>>=◌, ok_or,
}

-- `{n:0width$}` of a number below 10 ^ width: its decimal digits.
unfoldable pub padded_digits : ℕ → ℕ → List ℕ
padded_digits zero n = []
padded_digits (suc width) n = padded_digits width (n / 10) ++ (b'0' + n % 10) ∷ []

-- `generate_pin`, with the word that the generator draws.
unfoldable pub generate_pin : ℕ → ℕ → List ℕ
generate_pin digits word = padded_digits digits (word % 10 ^ digits)

pub record Attempts : Type 0 where
  pub failures : ℕ
  pub locked_until : Option ℕ

-- `PinManager`, with its `PinState`.
pub record PinManager : Type 0 where
  pub digits : ℕ
  pub ttl : ℕ
  pub max_attempts : ℕ
  pub lockout : ℕ
  pub pin : List ℕ
  pub issued : ℕ
  pub used : Bool
  pub attempts : List (ℕ × Attempts)

pub data PinGate : Type 0 where
  allowed : PinGate
  locked_out : ℕ → PinGate

-- `PinManager::new`.
unfoldable pub new_pins : ℕ → ℕ → ℕ → ℕ → ℕ → ℕ → PinManager
new_pins digits ttl_secs max_attempts lockout_secs now word = record {
  digits = digits;
  ttl = ttl_secs * 1000;
  max_attempts = max_attempts;
  lockout = lockout_secs * 1000;
  pin = generate_pin digits word;
  issued = now;
  used = false;
  attempts = [];
}

-- `rotate`.
unfoldable pub rotate : PinManager → ℕ → ℕ → PinManager × List ℕ
rotate m now word =
    let pin = generate_pin m.digits word in
    (record m { pin = pin; issued = now; used = false }, pin)

-- `current_pin`.
unfoldable pub current_pin : PinManager → ℕ → ℕ → PinManager × List ℕ
unfolding rotate
current_pin m now word =
    if m.used || ltb m.ttl (now - m.issued) then rotate m now word else (m, m.pin)

unfoldable pub gate_entry : PinManager → ℕ → ℕ → Option Attempts → PinManager × PinGate
gate_entry m ip now none = (m, allowed)
gate_entry m ip now (some a) = elim a.locked_until [
  | none ↦ (m, allowed)
  | some until ↦ if ltb now until then (m, locked_out (until - now)) else (
    record m { attempts = insert ip (record a { failures = 0; locked_until = none }) m.attempts },
    allowed,
  )
]

-- `gate`.
unfoldable pub gate : PinManager → ℕ → ℕ → PinManager × PinGate
unfolding gate_entry
gate m ip now = gate_entry m ip now (lookup ip m.attempts)

-- `entry(ip).or_insert(..)`.
abbrev pub entry_or_new : Option Attempts → Attempts
entry_or_new none = record { failures = 0; locked_until = none }
entry_or_new (some a) = a

-- What a failure makes of an entry. The count is a u32.
unfoldable pub failed : ℕ → ℕ → ℕ → Attempts → Attempts
failed max_attempts lockout now a =
    let failures = (a.failures + 1) % 2 ^ 32 in
    if leb max_attempts failures
    then record { failures = failures; locked_until = some (now + lockout) }
    else record a { failures = failures }

-- `record_failure`.
unfoldable pub record_failure : PinManager → ℕ → ℕ → ℕ → PinManager
unfolding rotate failed
record_failure m ip now word =
    let a = failed m.max_attempts m.lockout now (entry_or_new (lookup ip m.attempts)) in
    (rotate (record m { attempts = insert ip a m.attempts }) now word).0

-- `consume`.
unfoldable pub consume : PinManager → ℕ → PinManager
consume m ip = record m { used = true; attempts = remove ip m.attempts }
