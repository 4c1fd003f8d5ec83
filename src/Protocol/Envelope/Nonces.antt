-- ===== src/Protocol/Envelope/Nonces.antt =====
-- A nonce is never used twice under a session key.
use nebula_display.Prelude.{
  ℕ, ◌+◌, ◌≤◌, ◌<◌, ◌≡◌, refl, sym, ap, subst, ◌∙◌, ◌≢◌, ◌++◌, drop, drop-append_eq, inl, inr, none,
  some, List, [], ◌∷◌, arith, Option-cases, length, set, All, length-set,
}
use nebula_display.Protocol.Bytes.{to_be_bytes, to_be_bytes-injective}
use nebula_display.Protocol.Envelope.{
  Channel, chan_byte, Direction, dir_byte, Aead, u64_max, Sealer, at_chan, seal_parts, nonce_for,
  header,
}
use nebula_display.Protocol.Envelope.Sync.{
  length-header, at_chan-set_self, seal_parts_lem, sealed-behind,
}

-- A cipher whose ciphertext is the nonce that it was given.
abbrev pub nonce_probe : Aead
nonce_probe = record {
  encrypt = λ key nonce aad text. nonce;
  decrypt = λ key nonce aad sealed. none;
}

-- The nonces under which a sealer calls the cipher while it seals some messages in turn, up to a panic: what
-- `seal_parts` puts behind the nine bytes of the header, with a cipher that shows its nonce. (`seal_parts`
-- takes any cipher, so it calls every other with the same nonces.)
unfoldable pub seal_nonces : Sealer → List (Channel × List (List ℕ)) → List (List ℕ)
seal_nonces s [] = []
seal_nonces s ((ch, parts) ∷ ms) = elim (seal_parts nonce_probe s ch parts) [
  | none ↦ []
  | some (s', env) ↦ drop 9 env ∷ seal_nonces s' ms
]

abbrev pub Distinct : List (List ℕ) → Type 0
Distinct [] = Unit
Distinct (x ∷ xs) = All (λ y. x ≢ y) xs × Distinct xs

dir_byte-injective : (a b : Direction) → dir_byte a ≡ dir_byte b → a ≡ b
dir_byte-injective a b = ground arith

-- The nonce of some counter that is not below those of the table.
abbrev Later : Direction → List ℕ → List ℕ → Type 0
Later dir counters nonce =
    (ch : Channel) × (k : ℕ) × (nonce ≡ nonce_for dir ch k)
    × (at_chan counters ch ≤ k)
    × (k < u64_max)

chan_byte-injective : (a b : Channel) → chan_byte a ≡ chan_byte b → a ≡ b
chan_byte-injective a b = ground arith

nonce_for-injective :
    (d d' : Direction) (a b : Channel) (m n : ℕ)
    → m < u64_max
    → n < u64_max
    → nonce_for d a m ≡ nonce_for d' b n
    → (dir_byte d ≡ dir_byte d') × (a ≡ b) × (m ≡ n)
unfolding nonce_for
nonce_for-injective d d' a b m n hm hn e =
    let heads : (dir_byte d ≡ dir_byte d')
        × (chan_byte a ≡ chan_byte b)
        × (to_be_bytes 8 m ≡ to_be_bytes 8 n) =
      (ground arith, ground arith, ground arith) in
    (
      heads.0,
      chan_byte-injective a b heads.1,
      to_be_bytes-injective 8 m n (omega arith) (omega arith) heads.2,
    )

Later-mono :
    (d : Direction) (xs ys : List ℕ) (ns : List (List ℕ))
    → ((ch : Channel) → at_chan xs ch ≤ at_chan ys ch)
    → All (Later d ys) ns
    → All (Later d xs) ns
Later-mono d xs ys [] h l = tt
Later-mono d xs ys (n ∷ ns) h ((ch, k, e, a, b), l) =
    ((ch, k, e, omega (arith, h ch), b), Later-mono d xs ys ns h l)

shown-nonce :
    (s : Sealer) (env : List ℕ) (ch : Channel)
    → env ≡ header ch (at_chan s.counters ch) ++ nonce_for s.dir ch (at_chan s.counters ch)
    → drop 9 env ≡ nonce_for s.dir ch (at_chan s.counters ch)
shown-nonce s env ch form =
    let n = at_chan s.counters ch in
    ap (drop 9) form ∙ drop-append_eq 9 (header ch n) (nonce_for s.dir ch n) (length-header ch n)

-- All nonces of a run are later than the counters at its start.
seal_nonces-Later :
    (s : Sealer) (ms : List (Channel × List (List ℕ)))
    → length s.counters ≡ 4
    → All (Later s.dir s.counters) (seal_nonces s ms)
unfolding seal_nonces
seal_nonces-Later s [] len = tt
seal_nonces-Later s ((ch, parts) ∷ ms) len =
    elim (Option-cases (seal_parts nonce_probe s ch parts)) [
      | inl e ↦ rw (e, seal_nonces) tt
      | inr ((s', env), e) ↦
          let (room, after, form) = seal_parts_lem nonce_probe s s' ch parts env e in
          let n = at_chan s.counters ch in
          let next = set s.counters (chan_byte ch) (n + 1) in
          let s1 : Sealer = record s { counters = next } in
          rw (e, seal_nonces, after)
            (
              (ch, n, shown-nonce s env ch form, omega arith, room),
              Later-mono s.dir s.counters next (seal_nonces s1 ms)
                  (λ b.
                    (sealed-behind s.counters s.counters ch n len len refl (λ x. omega arith) b).0)
                  (seal_nonces-Later s1 ms
                    (omega (arith, length-set s.counters (chan_byte ch) (n + 1)))),
            )
    ]

-- A nonce whose counter has been passed is none of the later ones.
not-Later :
    (d : Direction) (counters : List ℕ) (ch : Channel) (n : ℕ) (ns : List (List ℕ))
    → n < u64_max
    → n < at_chan counters ch
    → All (Later d counters) ns
    → All (λ y. nonce_for d ch n ≢ y) ns
not-Later d counters ch n [] h lt l = tt
not-Later d counters ch n (m ∷ ms) h lt ((ch', k, e, a, b), l) = (
  λ same.
      let (_, same_ch, same_n) = nonce_for-injective d d ch ch' n k h b (same ∙ e) in
      let a' : at_chan counters ch ≤ k = rw same_ch a in absurd (omega arith),
  not-Later d counters ch n ms h lt l,
)

-- However many messages a sealer, which has a counter for each of its four channels, seals on whatever
-- channels, it never calls the cipher twice under one nonce.
pub seal_nonces-Distinct :
    (s : Sealer) (ms : List (Channel × List (List ℕ)))
    → length s.counters ≡ 4
    → Distinct (seal_nonces s ms)
unfolding seal_nonces
seal_nonces-Distinct s [] len = tt
seal_nonces-Distinct s ((ch, parts) ∷ ms) len =
    elim (Option-cases (seal_parts nonce_probe s ch parts)) [
      | inl e ↦ rw (e, seal_nonces) tt
      | inr ((s', env), e) ↦
          let (room, after, form) = seal_parts_lem nonce_probe s s' ch parts env e in
          let n = at_chan s.counters ch in
          let s1 : Sealer = record s { counters = set s.counters (chan_byte ch) (n + 1) } in
          let len1 : length s1.counters ≡ 4 =
            omega (arith, length-set s.counters (chan_byte ch) (n + 1)) in
          rw (e, seal_nonces, after)
            (
              subst (λ x. All (λ y. x ≢ y) (seal_nonces s1 ms)) (sym (shown-nonce s env ch form))
                  (not-Later s.dir s1.counters ch n (seal_nonces s1 ms) room
                    (omega (arith, at_chan-set_self s.counters ch (n + 1) len))
                    (seal_nonces-Later s1 ms len1)),
              seal_nonces-Distinct s1 ms len1,
            )
    ]

-- The two ends of a session, which share a key and seal in opposite directions, never use the same
-- nonce as one another.
pub directions_apart :
    (s t : Sealer) (ms ns : List (Channel × List (List ℕ)))
    → length s.counters ≡ 4
    → length t.counters ≡ 4
    → s.dir ≢ t.dir
    → All (λ x. All (λ y. x ≢ y) (seal_nonces t ns)) (seal_nonces s ms)
directions_apart s t ms ns ls lt ne = outer (seal_nonces s ms) (seal_nonces-Later s ms ls)
  where
    inner :
        (ch : Channel) (k : ℕ) (ys : List (List ℕ))
        → k < u64_max
        → All (Later t.dir t.counters) ys
        → All (λ y. nonce_for s.dir ch k ≢ y) ys
    inner ch k [] h l = tt
    inner ch k (y ∷ ys) h ((ch', k', e, a, b), l) = (
      λ same.
          let (d, _, _) = nonce_for-injective s.dir t.dir ch ch' k k' h b (same ∙ e) in
          ne (dir_byte-injective s.dir t.dir d),
      inner ch k ys h l,
    )

    outer :
        (xs : List (List ℕ))
        → All (Later s.dir s.counters) xs
        → All (λ x. All (λ y. x ≢ y) (seal_nonces t ns)) xs
    outer [] l = tt
    outer (x ∷ xs) ((ch, k, e, a, b), l) =
        (rw e (inner ch k (seal_nonces t ns) b (seal_nonces-Later t ns lt)), outer xs l)
