-- ===== src/Client/Traffic/Latest.antt =====
-- shared/client/src/lib.rs: what a client makes of the video that QUIC delivers in any order.
use nebula_display.Prelude.{
  ℕ, zero, suc, ◌+◌, ◌<◌, ◌≤◌, ◌≡◌, refl, ap, ◌∙◌, arith, inl, inr, Bool, true, false, Bool-cases,
  Option, List, [], ◌∷◌, ◌++◌, map, All, ltb, lt→ltb, ltb→lt, le→ltb, length, set, length-append,
  length-set, if◌then◌else◌, Result, ok, err,
}
use nebula_display.Protocol.Error.{replay}
use nebula_display.Protocol.Media.{VideoFrame, encode_video, IsVideoFrame}
use nebula_display.Protocol.Media.RoundTrip.{decode_video-encode_video}
use nebula_display.Protocol.Envelope.{
  video, chan_byte, Aead, IsAead, Opener, at_chan, header, nonce_for, u64_max, open_on,
  open_envelope,
}
use nebula_display.Protocol.Envelope.Sync.{
  try_from-chan_byte, length-header, env_counter-header, accept-state, at_chan-set_self,
  open_sealed,
}
use nebula_display.Client.Traffic.{
  Incoming, video_frame, closed, TrafficError, recv_quic, incoming_of,
}

-- A frame with the counter under which the host has sealed it.
abbrev pub Numbered : Type 0
Numbered = ℕ × VideoFrame

-- The frames that are newer than all before them.
unfoldable pub latest : ℕ → List Numbered → List VideoFrame
latest next [] = []
latest next (a ∷ rest) = if ltb a.0 next then latest next rest else a.1 ∷ latest (a.0 + 1) rest

-- The fields of the frame are in the range of their types, and the counter is not the last one.
abbrev pub IsSendable : Numbered → Type 0
IsSendable a = (a.0 < u64_max) × IsVideoFrame a.1

module _ (c : Aead) where
  -- The envelope of a numbered frame, for an opener that has the key.
  abbrev pub sealed : Opener → Numbered → List ℕ
  sealed o a =
      header video a.0
      ++ c.encrypt o.key (nonce_for o.dir video a.0) (chan_byte video ∷ []) (encode_video a.1)

module _ (c : Aead) (M : Type 0) (parse : List ℕ → Option M) where
  is_last : Result TrafficError (Incoming M) → Bool
  is_last (ok closed) = true
  is_last (err e) = true
  is_last _ = false

  -- `recv` called again until the session is over, at most this number of times.
  unfoldable pub recv_all : ℕ → Opener → List (List ℕ) → List (Result TrafficError (Incoming M))
  unfolding is_last
  recv_all zero o queue = []
  recv_all (suc k) o queue =
      let (o', rest, result) = recv_quic c M parse o queue in
      let later = recv_all k o' rest in result ∷ (if is_last result then [] else later)

module _ (c : Aead) (laws : IsAead c) (M : Type 0) (parse : List ℕ → Option M) where
  open_stale :
      (o : Opener) (a : Numbered)
      → a.0 ≤ u64_max
      → a.0 < at_chan o.next_expected video
      → open_envelope c o (sealed c o a) ≡ (o, err replay)
  unfolding open_envelope
  open_stale o a h old =
      let body =
        c.encrypt o.key (nonce_for o.dir video a.0) (chan_byte video ∷ []) (encode_video a.1) in
      rw (
        le→ltb (length (header video a.0 ++ body)) 25 (
            omega (
              arith,
              length-append (header video a.0) body,
              length-header video a.0,
              laws.tag_len o.key (nonce_for o.dir video a.0) (chan_byte video ∷ [])
                  (encode_video a.1),
            )),
        try_from-chan_byte video,
        open_on,
        env_counter-header video a.0 body h,
        lt→ltb a.0 (at_chan o.next_expected video) old,
      )

  -- A frame that is overtaken is passed over.
  recv_stale :
      (o : Opener) (a : Numbered) (rest : List (List ℕ))
      → a.0 ≤ u64_max
      → a.0 < at_chan o.next_expected video
      → recv_quic c M parse o (sealed c o a ∷ rest) ≡ recv_quic c M parse o rest
  unfolding recv_quic
  recv_stale o a rest h old = rw (open_stale o a h old) refl

  abbrev advanced : Opener → ℕ → Opener
  advanced o n = record o { next_expected = set o.next_expected (chan_byte video) (n + 1) }

  recv_fresh :
      (o : Opener) (a : Numbered) (rest : List (List ℕ))
      → IsSendable a
      → at_chan o.next_expected video ≤ a.0
      → recv_quic c M parse o (sealed c o a ∷ rest) ≡ (advanced o a.0, rest, ok (video_frame a.1))
  unfolding recv_quic incoming_of
  recv_fresh o a rest (room, fits) next =
      let opened =
        open_sealed c laws o video a.0 (encode_video a.1) (omega arith) next
        ∙ accept-state o video a.0 (encode_video a.1) room in
      rw (opened, decode_video-encode_video a.1 fits) refl

  recv_end : (o : Opener) → recv_quic c M parse o [] ≡ (o, [], ok closed)
  unfolding recv_quic
  recv_end o = refl

  -- Envelopes of video frames that arrive over QUIC in any order, some perhaps lost or repeated: `recv`,
  -- called again until the session ends, yields exactly the frames with a counter above those of all
  -- frames before them, and then the end, with no error; enough calls are one more than the envelopes.
  -- The opener has the key and direction that sealed them, the fields of the frames are in the range of
  -- their types, and no counter is the last one.
  pub recv_latest :
      (o : Opener) (next k : ℕ) (frames : List Numbered)
      → length o.next_expected ≡ 4
      → at_chan o.next_expected video ≡ next
      → All IsSendable frames
      → length frames < k
      → recv_all c M parse k o (map (sealed c o) frames)
        ≡ map (λ f. ok (video_frame f)) (latest next frames) ++ ok closed ∷ []
  unfolding recv_all latest
  recv_latest o next zero frames len here sendable h = absurd (omega arith)
  recv_latest o next (suc k) [] len here sendable h = rw (recv_end o)
  recv_latest o next (suc k) (a ∷ frames) len here ((room, fits), sendable) h =
      elim (Bool-cases (ltb a.0 next)) [
        | inl old ↦
            let skipped =
              recv_stale o a (map (sealed c o) frames) (omega arith)
                (ltb→lt _ _ (ap (λ z. ltb a.0 z) here ∙ old)) in
            rw (skipped, old) (recv_latest o next (suc k) frames len here sendable (omega arith))
        | inr new ↦
            let taken =
              recv_fresh o a (map (sealed c o) frames) (room, fits) (ground (arith, here, new)) in
            let moved =
              recv_latest (advanced o a.0) (a.0 + 1) k frames
                (length-set o.next_expected (chan_byte video) (a.0 + 1) ∙ len)
                (at_chan-set_self o.next_expected video (a.0 + 1) len) sendable (omega arith) in
            rw (taken, new) (ap (λ z. ok (video_frame a.1) ∷ z) moved)
      ]
