-- ===== src/Protocol/Envelope/Replay.antt =====
-- Replayed envelopes are refused.
use nebula_display.Prelude.{
  ℕ, ◌+◌, ◌%◌, ◌^◌, ◌≤◌, ◌<◌, max, ◌≡◌, refl, ap, ◌∙◌, ◌⊎◌, inl, inr, some, List, [], ◌∷◌, arith,
  ltb, lt→ltb, le→ltb, Bool-cases, Option-cases, length, get_or, set, drop, All, length-set, Result,
  ok, err,
}
use nebula_display.Protocol.Error.{ProtocolError, malformed, crypto, replay}
use nebula_display.Protocol.Envelope.{
  Channel, chan_byte, channel_try_from, Aead, u64_max, Opener, at_chan, env_counter, accept,
  open_on, open_envelope, nonce_for,
}
use nebula_display.Protocol.Envelope.Sync.{
  accept-state, at_chan-set_self, at_chan-set_ne, chan-cases,
}

-- What a success shows of the opener and of the envelope.
abbrev pub Accepted : Aead → Opener → List ℕ → Type 0
Accepted c o env =
    (ch : Channel) × (pt : List ℕ) × (channel_try_from (get_or env 0 0) ≡ ok ch)
    × (25 ≤ length env)
    × (at_chan o.next_expected ch ≤ env_counter env)
    × (c.decrypt o.key (nonce_for o.dir ch (env_counter env)) (chan_byte ch ∷ []) (drop 9 env)
        ≡ some pt)
    × (open_envelope c o env ≡ accept o ch (env_counter env) (some pt))

-- An envelope that is not accepted leaves the opener as it was, with an error.
abbrev pub Refused : Aead → Opener → List ℕ → Type 0
Refused c o env = (e : ProtocolError) × (open_envelope c o env ≡ (o, err e))

open_on-cases :
    (c : Aead) (o : Opener) (env : List ℕ) (r : Result ProtocolError Channel)
    → ((e : ProtocolError) × (open_on c o env r ≡ (o, err e)))
      ⊎ ((ch : Channel) × (pt : List ℕ) × (r ≡ ok ch)
          × (at_chan o.next_expected ch ≤ env_counter env)
          × (c.decrypt o.key (nonce_for o.dir ch (env_counter env)) (chan_byte ch ∷ []) (drop 9 env)
              ≡ some pt)
          × (open_on c o env r ≡ accept o ch (env_counter env) (some pt)))
unfolding open_on
open_on-cases c o env (err e) = inl (e, refl)
open_on-cases c o env (ok ch) =
    let n = env_counter env in
    let opened = c.decrypt o.key (nonce_for o.dir ch n) (chan_byte ch ∷ []) (drop 9 env) in
    elim (Bool-cases (ltb n (at_chan o.next_expected ch))) [
      | inl old ↦ inl (replay, rw old)
      | inr new ↦ elim (Option-cases opened) [
        | inl bad ↦ inl (crypto "envelope AEAD open failed", rw (new, bad))
        | inr (pt, good) ↦ inr (ch, pt, refl, ground arith, good, rw (new, good))
      ]
    ]

pub open_cases : (c : Aead) (o : Opener) (env : List ℕ) → Refused c o env ⊎ Accepted c o env
unfolding open_envelope
open_cases c o env = elim (Bool-cases (ltb (length env) 25)) [
  | inl short ↦ inl (malformed "envelope too short", rw short)
  | inr long ↦ elim (open_on-cases c o env (channel_try_from (get_or env 0 0))) [
    | inl (e, p) ↦ inl (e, rw long p)
    | inr (ch, pt, a, b, d, p) ↦ inr (ch, pt, a, ground arith, b, d, rw long p)
  ]
]

-- The state of an opener that has received some bytes as envelopes, whatever came of each.
unfoldable pub open_all : Aead → Opener → List (List ℕ) → Opener
open_all c o [] = o
open_all c o (e ∷ es) = open_all c (open_envelope c o e).0 es

-- No counter stands at the last value of a u64, where the sum of the code wraps.
abbrev pub BelowMax : List ℕ → Type 0
BelowMax env = env_counter env < u64_max

pub open_mono :
    (c : Aead) (o : Opener) (env : List ℕ) (ch : Channel)
    → length o.next_expected ≡ 4
    → BelowMax env
    → (at_chan o.next_expected ch ≤ at_chan (open_envelope c o env).0.next_expected ch)
      × (length (open_envelope c o env).0.next_expected ≡ 4)
unfolding accept
open_mono c o env ch len max = elim (open_cases c o env) [
  | inl (e, p) ↦ rw p (omega arith, len)
  | inr (ch', pt, a, size, b, d, p) ↦
      let n = env_counter env in
      let m = (n + 1) % 2 ^ 64 in
      let l : length (set o.next_expected (chan_byte ch') m) ≡ 4 =
        omega (arith, length-set o.next_expected (chan_byte ch') m) in
      rw (p, accept)
        (elim (chan-cases ch' ch) [
          | yes q ↦ (rw (← q) (omega (arith, at_chan-set_self o.next_expected ch' m len)), l)
          | no q ↦ (omega (arith, at_chan-set_ne o.next_expected ch' ch m q), l)
        ])
]

open_all_mono :
    (c : Aead) (o : Opener) (envs : List (List ℕ)) (ch : Channel)
    → length o.next_expected ≡ 4
    → All BelowMax envs
    → at_chan o.next_expected ch ≤ at_chan (open_all c o envs).next_expected ch
unfolding open_all
open_all_mono c o [] ch len max = omega arith
open_all_mono c o (e ∷ es) ch len max =
    let (grows, len') = open_mono c o e ch len max.0 in
    omega (arith, open_all_mono c (open_envelope c o e).0 es ch len' max.1)

refused_old :
    (c : Aead) (o : Opener) (env : List ℕ) (ch : Channel)
    → channel_try_from (get_or env 0 0) ≡ ok ch
    → 25 ≤ length env
    → env_counter env < at_chan o.next_expected ch
    → open_envelope c o env ≡ (o, err replay)
unfolding open_envelope open_on
refused_old c o env ch form len old = rw (le→ltb (length env) 25 len, form, open_on, lt→ltb _ _ old)

-- Once an envelope was accepted it is refused as a replay whenever it comes again, whatever other
-- bytes the opener received in between, and the refusal changes nothing: if no counter among them is
-- the last value of a u64.
pub replay_refused :
    (c : Aead) (o : Opener) (env : List ℕ) (r : Channel × List ℕ) (envs : List (List ℕ))
    → length o.next_expected ≡ 4
    → (open_envelope c o env).1 ≡ ok r
    → BelowMax env
    → All BelowMax envs
    → let o' = open_all c (open_envelope c o env).0 envs in
      open_envelope c o' env ≡ (o', err replay)
replay_refused c o env r envs len good max maxes = elim (open_cases c o env) [
  | inl (e, p) ↦ ground arith
  | inr (ch, pt, form, size, b, d, p) ↦
      let n = env_counter env in
      let q = set o.next_expected (chan_byte ch) (n + 1) in
      let o1 = record o { next_expected = q } in
      let moved : (open_envelope c o env).0 ≡ o1 =
        ap (λ (x : Opener × Result ProtocolError (Channel × List ℕ)). x.0)
          (p ∙ accept-state o ch n pt max) in
      rw moved (
        refused_old c (open_all c o1 envs) env ch form size (
          omega (
            arith,
            open_all_mono c o1 envs ch
                (omega (arith, length-set o.next_expected (chan_byte ch) (n + 1))) maxes,
            at_chan-set_self o.next_expected ch (n + 1) len,
          )))
]

-- What the cipher accepted once it accepts again, on an opener that waits for no more than its counter.
open_again :
    (c : Aead) (o : Opener) (env : List ℕ) (ch : Channel) (pt : List ℕ)
    → channel_try_from (get_or env 0 0) ≡ ok ch
    → 25 ≤ length env
    → at_chan o.next_expected ch ≤ env_counter env
    → c.decrypt o.key (nonce_for o.dir ch (env_counter env)) (chan_byte ch ∷ []) (drop 9 env)
      ≡ some pt
    → open_envelope c o env ≡ accept o ch (env_counter env) (some pt)
unfolding open_envelope open_on
open_again c o env ch pt form len next d =
    rw (le→ltb (length env) 25 len, form, open_on, le→ltb _ _ next, d)

-- The last counter of a u64 is an exception: the sum wraps to 0, so that the same envelope opens
-- again, to the same text.
pub last_counter_reopens :
    (c : Aead) (o : Opener) (env : List ℕ) (r : Channel × List ℕ)
    → length o.next_expected ≡ 4
    → (open_envelope c o env).1 ≡ ok r
    → env_counter env ≡ u64_max
    → (open_envelope c (open_envelope c o env).0 env).1 ≡ ok r
unfolding accept
last_counter_reopens c o env r len good last = elim (open_cases c o env) [
  | inl (e, p) ↦ ground arith
  | inr (ch, pt, form, size, b, d, p) ↦
      let o1 = record o { next_expected = set o.next_expected (chan_byte ch) 0 } in
      let wraps : (env_counter env + 1) % 2 ^ 64 ≡ 0 = omega arith in
      let moved : open_envelope c o env ≡ (o1, ok (ch, pt)) = rw (p, accept, wraps) in
      let again =
        open_again c o1 env ch pt form size
          (omega (arith, at_chan-set_self o.next_expected ch 0 len)) d in
      rw moved (rw again (ground arith))
]
