-- ===== src/Host/Pin/Lockout.antt =====
-- How often an address can fail before it is locked out, and for how long.
use nebula_display.Prelude.{
  ℕ, ◌+◌, ◌-◌, ◌≤◌, ◌<◌, ◌≡◌, refl, ◌∙◌, subst, ◌≢◌, ◌⊎◌, inl, inr, Option, none, some, List, [],
  ◌∷◌, arith, ltb, ◌==◌, if◌then◌else◌, ltb→lt, Bool-cases, ==_iff, ◌^◌, Option-cases, All, nat_eq,
  text_eq, lookup, insert, lookup-insert_self, lookup-insert_ne, lookup-remove_ne,
}
use nebula_display.Host.Pin.{
  Attempts, PinManager, PinGate, allowed, locked_out, gate, entry_or_new, failed, record_failure,
  consume, gate_entry,
}

-- The failures that count against an address, and the end of its lockout.
abbrev pub entry_of : PinManager → ℕ → Attempts
entry_of m ip = entry_or_new (lookup ip m.attempts)

entry-record_failure :
    (m : PinManager) (ip now word : ℕ)
    → entry_of (record_failure m ip now word) ip
      ≡ failed m.max_attempts m.lockout now (entry_of m ip)
unfolding record_failure
entry-record_failure m ip now word =
    rw (lookup-insert_self ip (failed m.max_attempts m.lockout now (entry_of m ip)) m.attempts)

other-record_failure :
    (m : PinManager) (ip j now word : ℕ)
    → ip ≢ j
    → lookup j (record_failure m ip now word).attempts ≡ lookup j m.attempts
unfolding record_failure
other-record_failure m ip j now word h =
    lookup-insert_ne ip j (failed m.max_attempts m.lockout now (entry_of m ip)) m.attempts h

gate_cases :
    (m : PinManager) (ip now : ℕ) (o : Option Attempts)
    → let a = entry_or_new o in
      let r = gate_entry m ip now o in
      ((a.locked_until ≡ none) × (r ≡ (m, allowed)))
      ⊎ ((until : ℕ) × (a.locked_until ≡ some until)
          × (now < until)
          × (r ≡ (m, locked_out (until - now))))
      ⊎ ((until : ℕ) × (a.locked_until ≡ some until)
          × (until ≤ now)
          × (r ≡ (
            record m {
              attempts = insert ip (record { failures = 0; locked_until = none }) m.attempts;
            },
            allowed,
          )))
unfolding gate_entry
gate_cases m ip now none = inl (refl, refl)
gate_cases m ip now (some a) = elim (Option-cases a.locked_until) [
  | inl e ↦ inl (e, rw (e, gate_entry))
  | inr (until, e) ↦ elim (Bool-cases (ltb now until)) [
    | inl b ↦ inr (inl (until, e, ltb→lt now until b, rw (e, gate_entry, b)))
    | inr b ↦ inr (inr (until, e, ground arith, rw (e, gate_entry, b)))
  ]
]

-- What the gate says of an address, by its entry, and what it leaves.
pub gate_lem :
    (m : PinManager) (ip now : ℕ)
    → let a = entry_of m ip in
      let r = gate m ip now in
      ((a.locked_until ≡ none) × (r ≡ (m, allowed)))
      ⊎ ((until : ℕ) × (a.locked_until ≡ some until)
          × (now < until)
          × (r ≡ (m, locked_out (until - now))))
      ⊎ ((until : ℕ) × (a.locked_until ≡ some until)
          × (until ≤ now)
          × (r ≡ (
            record m {
              attempts = insert ip (record { failures = 0; locked_until = none }) m.attempts;
            },
            allowed,
          )))
unfolding gate
gate_lem m ip now = gate_cases m ip now (lookup ip m.attempts)

-- What happens to the counts of attempts: a client asks to open an exchange, a wrong confirmation (or a share
-- that cannot be used) is recorded, a device pairs. In pairing.rs an exchange is gated when it is opened, and
-- not again when its confirmation arrives, so that the failures of exchanges that are open side by side are
-- events of their own here.
pub data PinEvent : Type 0 where
  opens : (source now : ℕ) → PinEvent
  fails : (source now word : ℕ) → PinEvent
  pairs : (source : ℕ) → PinEvent

pub on_pin_event : PinManager → PinEvent → PinManager
on_pin_event m (opens source now) = (gate m source now).0
on_pin_event m (fails source now word) = record_failure m source now word
on_pin_event m (pairs source) = consume m source

pub on_pin_events : PinManager → List PinEvent → PinManager
unfolding on_pin_event
on_pin_events m [] = m
on_pin_events m (e ∷ es) = on_pin_events (on_pin_event m e) es

-- The failures of an address among some events.
abbrev pub wrong : ℕ → List PinEvent → ℕ
wrong ip [] = 0
wrong ip (fails source now word ∷ es) = (if source == ip then 1 else 0) + wrong ip es
wrong ip (opens source now ∷ es) = wrong ip es
wrong ip (pairs source ∷ es) = wrong ip es

abbrev count_allowed : PinGate → ℕ
count_allowed allowed = 1
count_allowed (locked_out w) = 0

-- The exchanges that an address opens while the events happen.
pub opened : PinManager → ℕ → PinEvent → ℕ
opened m ip (opens source now) = if source == ip then count_allowed (gate m source now).1 else 0
opened m ip (fails source now word) = 0
opened m ip (pairs source) = 0

pub openings : PinManager → ℕ → List PinEvent → ℕ
unfolding opened on_pin_event
openings m ip [] = 0
openings m ip (e ∷ es) = opened m ip e + openings (on_pin_event m e) ip es

-- The event lies in a window of time, and the address does not pair.
abbrev pub InWindow : (start end ip : ℕ) → PinEvent → Type 0
InWindow start end ip (opens source now) = (start ≤ now) × (now < end)
InWindow start end ip (fails source now word) = (start ≤ now) × (now < end)
InWindow start end ip (pairs source) = source ≢ ip

-- The failures that an address has left until a time; with none left it is locked out until then.
abbrev Left : ℕ → ℕ → Attempts → ℕ → Type 0
Left limit end a n =
    ((a.locked_until ≡ none) × (a.failures + n ≡ limit) × (0 < n))
    ⊎ ((until : ℕ) × (a.locked_until ≡ some until) × (end ≤ until) × (n ≡ 0))

record Keeps (m m' : PinManager) : Type 0 where
  limit : m'.max_attempts ≡ m.max_attempts
  lockout : m'.lockout ≡ m.lockout

gate-Keeps : (m : PinManager) (source now : ℕ) → Keeps m (gate m source now).0
gate-Keeps m source now = elim (gate_lem m source now) [
  | inl (_, e) ↦ rw e (record { limit = refl; lockout = refl })
  | inr (inl (until, _, _, e)) ↦ rw e (record { limit = refl; lockout = refl })
  | inr (inr (until, _, _, e)) ↦ rw e (record { limit = refl; lockout = refl })
]

event-Keeps : (m : PinManager) (e : PinEvent) → Keeps m (on_pin_event m e)
unfolding on_pin_event record_failure consume
event-Keeps m (opens source now) = gate-Keeps m source now
event-Keeps m (fails source now word) = record { limit = refl; lockout = refl }
event-Keeps m (pairs source) = record { limit = refl; lockout = refl }

failed-Left :
    (limit lockout now end n : ℕ) (a : Attempts)
    → limit < 2 ^ 32
    → end ≤ now + lockout
    → Left limit end a n
    → Left limit end (failed limit lockout now a) (n - 1)
unfolding failed
failed-Left limit lockout now end n a small room left = ground arith

gate-other :
    (m : PinManager) (source ip now : ℕ)
    → source ≢ ip
    → lookup ip (gate m source now).0.attempts ≡ lookup ip m.attempts
gate-other m source ip now other = elim (gate_lem m source now) [
  | inl (_, e) ↦ rw e refl
  | inr (inl (until, _, _, e)) ↦ rw e refl
  | inr (inr (until, _, _, e)) ↦ rw e (lookup-insert_ne source ip _ m.attempts other)
]

-- Before `end`, the gate leaves the entry of the address, and refuses it once no failures are left.
gate-Left :
    (m : PinManager) (ip now end n : ℕ)
    → now < end
    → Left m.max_attempts end (entry_of m ip) n
    → ((gate m ip now).0 ≡ m) × (n ≡ 0 → count_allowed (gate m ip now).1 ≡ 0)
gate-Left m ip now end n early left = elim (gate_lem m ip now) [
  | inl (free, e) ↦ rw e (refl, λ z. absurd (ground (arith, z, left, free)))
  | inr (inl (until, locked, _, e)) ↦ rw e (refl, λ z. refl)
  | inr (inr (until, locked, over, e)) ↦ absurd (ground arith)
]

-- The failures that are left after an event, and after some.
abbrev spent : ℕ → ℕ → PinEvent → ℕ
spent ip n (fails source now word) = if source == ip then n - 1 else n
spent ip n (opens source now) = n
spent ip n (pairs source) = n

abbrev spent_all : ℕ → ℕ → List PinEvent → ℕ
spent_all ip n [] = n
spent_all ip n (e ∷ es) = spent_all ip (spent ip n e) es

spent_all-wrong : (ip n : ℕ) (es : List PinEvent) → n ≤ wrong ip es → spent_all ip n es ≡ 0
spent_all-wrong ip n [] h = omega arith
spent_all-wrong ip n (opens source now ∷ es) h = spent_all-wrong ip n es h
spent_all-wrong ip n (pairs source ∷ es) h = spent_all-wrong ip n es h
spent_all-wrong ip n (fails source now word ∷ es) h = elim (Bool-cases (source == ip)) [
  | inl e ↦ rw e (spent_all-wrong ip (n - 1) es (ground (arith, h, e)))
  | inr e ↦ rw e (spent_all-wrong ip n es (ground (arith, h, e)))
]

module _ (ip start end : ℕ) where
  event-Left :
      (m : PinManager) (e : PinEvent) (n : ℕ)
      → m.max_attempts < 2 ^ 32
      → end ≤ start + m.lockout
      → InWindow start end ip e
      → Left m.max_attempts end (entry_of m ip) n
      → Left m.max_attempts end (entry_of (on_pin_event m e) ip) (spent ip n e)
  unfolding on_pin_event
  event-Left m (opens source now) n small room (begun, early) left =
      elim (Bool-cases (source == ip)) [
        | inl same ↦
            let e : source ≡ ip = (==_iff source ip).0 same in
            let kept : (gate m ip now).0 ≡ m = (gate-Left m ip now end n early left).0 in
            rw (e, kept) left
        | inr other ↦ rw (gate-other m source ip now (ground (arith, other))) left
      ]
  event-Left m (fails source now word) n small room (begun, early) left =
      elim (Bool-cases (source == ip)) [
        | inl same ↦
            let e : source ≡ ip = (==_iff source ip).0 same in
            rw (same, e, entry-record_failure m ip now word)
              (failed-Left m.max_attempts m.lockout now end n (entry_of m ip) small (omega arith)
                left)
        | inr other ↦
            rw (other, other-record_failure m source ip now word (ground (arith, other))) left
      ]
  event-Left m (pairs source) n small room other left =
      unfold consume in rw (lookup-remove_ne source ip m.attempts other) left

  events-Left :
      (m : PinManager) (es : List PinEvent) (n : ℕ)
      → m.max_attempts < 2 ^ 32
      → end ≤ start + m.lockout
      → All (InWindow start end ip) es
      → Left m.max_attempts end (entry_of m ip) n
      → Keeps m (on_pin_events m es)
        × Left m.max_attempts end (entry_of (on_pin_events m es) ip) (spent_all ip n es)
  unfolding on_pin_events
  events-Left m [] n small room times left = (record { limit = refl; lockout = refl }, left)
  events-Left m (e ∷ es) n small room (t, ts) left =
      let k = event-Keeps m e in
      let m' = on_pin_event m e in
      let one = event-Left m e n small room t left in
      let (k', all) =
        events-Left m' es (spent ip n e) (rw k.limit small) (rw k.lockout room) ts
          (rw k.limit one) in
      (
        record { limit = k'.limit ∙ k.limit; lockout = k'.lockout ∙ k.lockout },
        subst (λ l. Left l end (entry_of (on_pin_events m' es) ip) (spent_all ip n (e ∷ es)))
            k.limit all,
      )

  none-opened :
      (m : PinManager) (e : PinEvent)
      → InWindow start end ip e
      → Left m.max_attempts end (entry_of m ip) 0
      → opened m ip e ≡ 0
  unfolding opened
  none-opened m (fails source now word) t left = refl
  none-opened m (pairs source) t left = refl
  none-opened m (opens source now) (begun, early) left = elim (Bool-cases (source == ip)) [
    | inl same ↦
        let e : source ≡ ip = (==_iff source ip).0 same in
        rw (same, e) ((gate-Left m ip now end 0 early left).1 refl)
    | inr other ↦ rw other refl
  ]

  none-spent : (e : PinEvent) → spent ip 0 e ≡ 0
  none-spent (opens source now) = refl
  none-spent (pairs source) = refl
  none-spent (fails source now word) = ground arith

  -- With no failures left, the address opens nothing.
  closed :
      (m : PinManager) (es : List PinEvent)
      → m.max_attempts < 2 ^ 32
      → end ≤ start + m.lockout
      → All (InWindow start end ip) es
      → Left m.max_attempts end (entry_of m ip) 0
      → openings m ip es ≡ 0
  unfolding openings
  closed m [] small room times left = refl
  closed m (e ∷ es) small room (t, ts) left =
      let k = event-Keeps m e in
      let m' = on_pin_event m e in
      let left' =
        subst (λ n. Left m.max_attempts end (entry_of m' ip) n) (none-spent e)
          (event-Left m e 0 small room t left) in
      let rest = closed m' es (rw k.limit small) (rw k.lockout room) ts (rw k.limit left') in
      omega (arith, none-opened m e t left, rest)

-- An address that is not locked out, and fails as often as its count still allows, opens no more exchange until
-- the end of a window of time that began before these failures and is no longer than the lockout: however
-- many more failures are recorded, of exchanges that were opened before, and whatever other addresses do.
-- It does not pair meanwhile, and the number of failures that is allowed fits a u32.
pub lockout_closes :
    (m : PinManager) (ip start end : ℕ) (es later : List PinEvent)
    → m.max_attempts < 2 ^ 32
    → (entry_of m ip).locked_until ≡ none
    → (entry_of m ip).failures < m.max_attempts
    → end ≤ start + m.lockout
    → All (InWindow start end ip) es
    → All (InWindow start end ip) later
    → m.max_attempts ≤ (entry_of m ip).failures + wrong ip es
    → openings (on_pin_events m es) ip later ≡ 0
lockout_closes m ip start end es later small free left short times late used =
    let n = m.max_attempts - (entry_of m ip).failures in
    let (k, after) =
      events-Left ip start end m es n small short times (inl (free, omega arith, omega arith)) in
    let none_left : spent_all ip n es ≡ 0 = spent_all-wrong ip n es (omega arith) in
    closed ip start end (on_pin_events m es) later (rw k.limit small) (rw k.lockout short) late (
      rw k.limit
        (subst (λ x. Left m.max_attempts end (entry_of (on_pin_events m es) ip) x) none_left after))
