-- ===== src/Protocol/Envelope/Sync.antt =====
-- A sealer and the opener at the other end: what is sealed opens to the same text, also when
-- envelopes are lost on the way.
use nebula_display.Prelude.{
  ℕ, ◌+◌, ◌≤◌, ◌<◌, ◌≡◌, refl, ◌∙◌, ◌≢◌, some, List, [], ◌∷◌, ◌++◌, arith, lt→ltb, le→ltb, length,
  set, length-append, length-set, get_or-set_self, get_or-set_ne, take-append_eq, drop-append_eq,
  ok,
}
use nebula_display.Protocol.Bytes.{to_be_bytes, length-to_be_bytes, from_be_bytes-to_be_bytes}
use nebula_display.Protocol.Envelope.{
  Channel, control, video, audio, chan_byte, channel_try_from, Aead, IsAead, u64_max, Sealer,
  Opener, at_chan, concat, header, seal_parts, env_counter, accept, open_on, open_envelope,
  nonce_for,
}

pub ne_chan : (a b : Channel) → a ≢ b → chan_byte a ≢ chan_byte b
ne_chan control control h e = h refl
ne_chan control video h e = absurd (omega arith)
ne_chan control audio h e = absurd (omega arith)
ne_chan video control h e = absurd (omega arith)
ne_chan video video h e = h refl
ne_chan video audio h e = absurd (omega arith)
ne_chan audio control h e = absurd (omega arith)
ne_chan audio video h e = absurd (omega arith)
ne_chan audio audio h e = h refl

pub at_chan-set_self :
    (xs : List ℕ) (ch : Channel) (v : ℕ) → length xs ≡ 4 → at_chan (set xs (chan_byte ch) v) ch ≡ v
at_chan-set_self xs control v h = get_or-set_self xs 1 v 0 (omega arith)
at_chan-set_self xs video v h = get_or-set_self xs 2 v 0 (omega arith)
at_chan-set_self xs audio v h = get_or-set_self xs 3 v 0 (omega arith)

pub at_chan-set_ne :
    (xs : List ℕ) (a b : Channel) (v : ℕ)
    → a ≢ b
    → at_chan (set xs (chan_byte a) v) b ≡ at_chan xs b
at_chan-set_ne xs a b v h = get_or-set_ne xs (chan_byte a) (chan_byte b) v 0 (ne_chan a b h)

pub chan-cases : (a b : Channel) → Dec (a ≡ b)
chan-cases = hlevel

pub try_from-chan_byte : (ch : Channel) → channel_try_from (chan_byte ch) ≡ ok ch
unfolding channel_try_from
try_from-chan_byte control = refl
try_from-chan_byte video = refl
try_from-chan_byte audio = refl

pub length-header : (ch : Channel) (n : ℕ) → length (header ch n) ≡ 9
length-header ch n = omega (arith, length-to_be_bytes 8 n)

-- The counter is read back from the front of an envelope.
pub env_counter-header :
    (ch : Channel) (n : ℕ) (rest : List ℕ) → n ≤ u64_max → env_counter (header ch n ++ rest) ≡ n
env_counter-header ch n rest h =
    rw (take-append_eq 8 (to_be_bytes 8 n) rest (length-to_be_bytes 8 n))
      (from_be_bytes-to_be_bytes 8 n (omega arith))

-- Both ends have the key and the direction, and the opener waits for nothing that was already sent.
pub record InSync (s : Sealer) (o : Opener) : Type 0 where
  pub same_key : o.key ≡ s.key
  pub same_dir : o.dir ≡ s.dir
  pub sealer_len : length s.counters ≡ 4
  pub opener_len : length o.next_expected ≡ 4
  pub behind : (ch : Channel) → at_chan o.next_expected ch ≤ at_chan s.counters ch

-- While the sum does not wrap, the opener now waits for the next counter.
pub accept-state :
    (o : Opener) (ch : Channel) (n : ℕ) (text : List ℕ)
    → n < u64_max
    → accept o ch n (some text)
      ≡ (record o { next_expected = set o.next_expected (chan_byte ch) (n + 1) }, ok (ch, text))
unfolding accept
accept-state o ch n text h = ground arith

-- What a sealer that does not panic returns.
pub seal_parts_lem :
    (c : Aead) (s s' : Sealer) (ch : Channel) (parts : List (List ℕ)) (env : List ℕ)
    → seal_parts c s ch parts ≡ some (s', env)
    → (at_chan s.counters ch < u64_max)
      × (s' ≡ record s { counters = set s.counters (chan_byte ch) (at_chan s.counters ch + 1) })
      × (env
          ≡ header ch (at_chan s.counters ch)
            ++ c.encrypt s.key
                (nonce_for s.dir ch (at_chan s.counters ch))
                (chan_byte ch ∷ [])
                (concat parts))
unfolding seal_parts
seal_parts_lem c s s' ch parts env e = ground arith

-- The counters after one envelope is sealed, and perhaps opened.
pub sealed-behind :
    (xs ys : List ℕ) (ch : Channel) (n : ℕ)
    → length xs ≡ 4
    → length ys ≡ 4
    → n ≡ at_chan ys ch
    → ((b : Channel) → at_chan xs b ≤ at_chan ys b)
    → (b : Channel)
    → (at_chan xs b ≤ at_chan (set ys (chan_byte ch) (n + 1)) b)
      × (at_chan (set xs (chan_byte ch) (n + 1)) b ≤ at_chan (set ys (chan_byte ch) (n + 1)) b)
sealed-behind xs ys ch n hx hy e h b = elim (chan-cases ch b) [
  | yes p ↦ rw (← p) (
    omega (arith, at_chan-set_self ys ch (n + 1) hy, h ch),
    omega (arith, at_chan-set_self ys ch (n + 1) hy, at_chan-set_self xs ch (n + 1) hx),
  )
  | no p ↦ (
    omega (arith, at_chan-set_ne ys ch b (n + 1) p, h b),
    omega (arith, at_chan-set_ne ys ch b (n + 1) p, at_chan-set_ne xs ch b (n + 1) p, h b),
  )
]

-- While a counter is not at its end the sealer does not panic, and no counter grows by more than 1.
pub seal_parts_total :
    (c : Aead) (s : Sealer) (ch : Channel) (parts : List (List ℕ))
    → length s.counters ≡ 4
    → at_chan s.counters ch < u64_max
    → (s' : Sealer) × (env : List ℕ) × (seal_parts c s ch parts ≡ some (s', env))
      × ((b : Channel) → at_chan s'.counters b ≤ at_chan s.counters b + 1)
unfolding seal_parts
seal_parts_total c s ch parts len room = (
  record s { counters = set s.counters (chan_byte ch) (at_chan s.counters ch + 1) },
  header ch (at_chan s.counters ch)
      ++ c.encrypt s.key (nonce_for s.dir ch (at_chan s.counters ch)) (chan_byte ch ∷ [])
          (concat parts),
  rw (lt→ltb (at_chan s.counters ch) u64_max room),
  λ b. elim (chan-cases ch b) [
    | yes p ↦
        rw (← p) (omega (arith, at_chan-set_self s.counters ch (at_chan s.counters ch + 1) len))
    | no p ↦ omega (arith, at_chan-set_ne s.counters ch b (at_chan s.counters ch + 1) p)
  ],
)

module _ (c : Aead) (laws : IsAead c) where
  -- An envelope that was sealed under a counter not yet passed is accepted.
  pub open_sealed :
      (o : Opener) (ch : Channel) (n : ℕ) (text : List ℕ)
      → n ≤ u64_max
      → at_chan o.next_expected ch ≤ n
      → open_envelope c o
          (header ch n ++ c.encrypt o.key (nonce_for o.dir ch n) (chan_byte ch ∷ []) text)
        ≡ accept o ch n (some text)
  unfolding open_envelope
  open_sealed o ch n text h next =
      let body = c.encrypt o.key (nonce_for o.dir ch n) (chan_byte ch ∷ []) text in
      rw (
        le→ltb (length (header ch n ++ body)) 25 (
            omega (
              arith,
              length-append (header ch n) body,
              length-header ch n,
              laws.tag_len o.key (nonce_for o.dir ch n) (chan_byte ch ∷ []) text,
            )),
        try_from-chan_byte ch,
        open_on,
        env_counter-header ch n body h,
        le→ltb n (at_chan o.next_expected ch) next,
        drop-append_eq 9 (header ch n) body (length-header ch n),
        laws.opens o.key (nonce_for o.dir ch n) (chan_byte ch ∷ []) text,
      )

  -- An envelope from a sealer in step opens to its channel and to the joined parts, and the two ends
  -- stay in step, whether the envelope arrives or is lost.
  pub open-seal_parts :
      (s s' : Sealer) (o : Opener) (ch : Channel) (parts : List (List ℕ)) (env : List ℕ)
      → InSync s o
      → seal_parts c s ch parts ≡ some (s', env)
      → ((open_envelope c o env).1 ≡ ok (ch, concat parts))
        × InSync s' (open_envelope c o env).0
        × InSync s' o
  open-seal_parts s s' o ch parts env sync e =
      let (room, after, form) = seal_parts_lem c s s' ch parts env e in
      let n = at_chan s.counters ch in
      let xs = set o.next_expected (chan_byte ch) (n + 1) in
      let ys = set s.counters (chan_byte ch) (n + 1) in
      let moved =
        sealed-behind o.next_expected s.counters ch n sync.opener_len sync.sealer_len refl
          sync.behind in
      let opened = open_sealed o ch n (concat parts) (omega arith) (sync.behind ch) in
      let result : open_envelope c o env
          ≡ (record o { next_expected = xs }, ok (ch, concat parts)) =
        rw (form, ← sync.same_key, ← sync.same_dir)
          (opened ∙ accept-state o ch n (concat parts) room) in
      let sealed_len : length ys ≡ 4 =
        omega (arith, length-set s.counters (chan_byte ch) (n + 1), sync.sealer_len) in
      rw (result, after)
        (
          refl,
          record {
            same_key = sync.same_key;
            same_dir = sync.same_dir;
            sealer_len = sealed_len;
            opener_len =
                omega (arith, length-set o.next_expected (chan_byte ch) (n + 1), sync.opener_len);
            behind = λ b. (moved b).1;
          },
          record {
            same_key = sync.same_key;
            same_dir = sync.same_dir;
            sealer_len = sealed_len;
            opener_len = sync.opener_len;
            behind = λ b. (moved b).0;
          },
        )
