-- ===== src/Protocol/Media/RoundTrip.antt =====
-- What is encoded decodes to the same frame.
use Prim.Native.Nat.{bit_and}
use nebula_display.Prelude.{
  ℕ, zero, suc, ◌+◌, ◌^◌, ◌≤◌, ◌<◌, ◌≡◌, refl, ap, ◌↔◌, ◌⊎◌, inl, inr, Bool, true, false, not, List,
  [], ◌∷◌, ◌++◌, append_assoc, append-nil, arith, ltb, ◌==◌, if◌then◌else◌, le→ltb, length, get_or,
  take, drop, length-append, take-append_eq, ok, err,
}
use nebula_display.Protocol.Error.{malformed}
use nebula_display.Protocol.Bytes.{
  to_be_bytes, from_be_bytes, length-to_be_bytes, from_be_bytes-to_be_bytes,
}
use nebula_display.Protocol.Envelope.{video, Aead, Sealer, seal, seal_parts}
use nebula_display.Protocol.Media.{
  Codec, jpeg, h264, hevc, av1, codec_to_u8, codec_from_u8, VideoFrame, header_len, flag_keyframe,
  slice, video_header, encode_video, decode_video, video_fields, AudioCodec, audio_codec_to_u8,
  audio_codec_from_u8, AudioFrame, audio_header_len, encode_audio, decode_audio, IsVideoFrame,
  IsAudioFrame,
}

-- A slice that starts behind a field of known length.
drop_past : (n m : ℕ) (xs ys : List ℕ) → length xs ≡ n → drop (n + m) (xs ++ ys) ≡ drop m ys
drop_past n m [] ys h =
    let e : n ≡ 0 = omega arith in rw e (ap (λ (k : ℕ). drop k ys) (omega arith))
drop_past zero m (x ∷ xs) ys h = absurd (omega arith)
drop_past (suc n) m (x ∷ xs) ys h =
    let e : suc n + m ≡ suc (n + m) = omega arith in rw e (drop_past n m xs ys (omega arith))

codec_from_u8-to : (c : Codec) → codec_from_u8 (codec_to_u8 c) ≡ ok c
unfolding codec_from_u8
codec_from_u8-to c = ground arith

audio_codec_from_u8-to : (c : AudioCodec) → audio_codec_from_u8 (audio_codec_to_u8 c) ≡ ok c
unfolding audio_codec_from_u8
audio_codec_from_u8-to c = ground arith

-- The value of a field of `k` bytes that stands at the front of the rest of a frame.
field_value :
    (k n : ℕ) (rest : List ℕ) → n < 256 ^ k → from_be_bytes (take k (to_be_bytes k n ++ rest)) ≡ n
field_value k n rest h =
    rw (take-append_eq k (to_be_bytes k n) rest (length-to_be_bytes k n))
      (from_be_bytes-to_be_bytes k n h)

skip : (k m n : ℕ) (rest : List ℕ) → drop (k + m) (to_be_bytes k n ++ rest) ≡ drop m rest
skip k m n rest = drop_past k m (to_be_bytes k n) rest (length-to_be_bytes k n)

-- The header of a frame, bracketed to the right with what follows it.
video_layout :
    (f : VideoFrame)
    → encode_video f
      ≡ codec_to_u8 f.codec
        ∷ (if f.keyframe then flag_keyframe else 0)
        ∷ (to_be_bytes 4 f.seq
            ++ (to_be_bytes 8 f.timestamp_us
                ++ (to_be_bytes 2 f.width ++ (to_be_bytes 2 f.height ++ f.payload))))
unfolding encode_video
video_layout f = simp append_assoc

audio_layout :
    (f : AudioFrame)
    → encode_audio f
      ≡ audio_codec_to_u8 f.codec
        ∷ f.channels
        ∷ (to_be_bytes 4 f.seq
            ++ (to_be_bytes 8 f.timestamp_us ++ (to_be_bytes 4 f.sample_rate ++ f.payload)))
unfolding encode_audio
audio_layout f = simp append_assoc

-- The slices of a video frame are its fields.
video_slices :
    (a b seq ts w h : ℕ) (rest : List ℕ)
    → seq < 2 ^ 32
    → ts < 2 ^ 64
    → w < 2 ^ 16
    → h < 2 ^ 16
    → let buf =
        a
        ∷ b
        ∷ (to_be_bytes 4 seq
            ++ (to_be_bytes 8 ts ++ (to_be_bytes 2 w ++ (to_be_bytes 2 h ++ rest)))) in
      (ltb (length buf) header_len ≡ false)
      × (from_be_bytes (slice buf 2 6) ≡ seq)
      × (from_be_bytes (slice buf 6 14) ≡ ts)
      × (from_be_bytes (slice buf 14 16) ≡ w)
      × (from_be_bytes (slice buf 16 18) ≡ h)
      × (drop header_len buf ≡ rest)
video_slices a b seq ts w h rest hs ht hw hh =
    let r3 = to_be_bytes 2 h ++ rest in
    let r2 = to_be_bytes 2 w ++ r3 in
    let r1 = to_be_bytes 8 ts ++ r2 in
    (
      le→ltb (length (a ∷ b ∷ (to_be_bytes 4 seq ++ r1))) header_len (
          omega (
            arith,
            length-append (to_be_bytes 4 seq) r1,
            length-append (to_be_bytes 8 ts) r2,
            length-append (to_be_bytes 2 w) r3,
            length-append (to_be_bytes 2 h) rest,
            length-to_be_bytes 4 seq,
            length-to_be_bytes 8 ts,
            length-to_be_bytes 2 w,
            length-to_be_bytes 2 h,
          )),
      field_value 4 seq r1 hs,
      rw (skip 4 0 seq r1) (field_value 8 ts r2 ht),
      rw (skip 4 8 seq r1, skip 8 0 ts r2) (field_value 2 w r3 hw),
      rw (skip 4 10 seq r1, skip 8 2 ts r2, skip 2 0 w r3) (field_value 2 h rest hh),
      rw (skip 4 12 seq r1, skip 8 4 ts r2, skip 2 2 w r3) (skip 2 0 h rest),
    )

audio_slices :
    (a b seq ts rate : ℕ) (rest : List ℕ)
    → seq < 2 ^ 32
    → ts < 2 ^ 64
    → rate < 2 ^ 32
    → let buf = a ∷ b ∷ (to_be_bytes 4 seq ++ (to_be_bytes 8 ts ++ (to_be_bytes 4 rate ++ rest))) in
      (ltb (length buf) audio_header_len ≡ false)
      × (from_be_bytes (slice buf 2 6) ≡ seq)
      × (from_be_bytes (slice buf 6 14) ≡ ts)
      × (from_be_bytes (slice buf 14 18) ≡ rate)
      × (drop audio_header_len buf ≡ rest)
audio_slices a b seq ts rate rest hs ht hr =
    let r2 = to_be_bytes 4 rate ++ rest in
    let r1 = to_be_bytes 8 ts ++ r2 in
    (
      le→ltb (length (a ∷ b ∷ (to_be_bytes 4 seq ++ r1))) audio_header_len (
          omega (
            arith,
            length-append (to_be_bytes 4 seq) r1,
            length-append (to_be_bytes 8 ts) r2,
            length-append (to_be_bytes 4 rate) rest,
            length-to_be_bytes 4 seq,
            length-to_be_bytes 8 ts,
            length-to_be_bytes 4 rate,
          )),
      field_value 4 seq r1 hs,
      rw (skip 4 0 seq r1) (field_value 8 ts r2 ht),
      rw (skip 4 8 seq r1, skip 8 0 ts r2) (field_value 4 rate rest hr),
      rw (skip 4 12 seq r1, skip 8 4 ts r2) (skip 4 0 rate rest),
    )

flag_read : (k : Bool) → not (bit_and (if k then flag_keyframe else 0) flag_keyframe == 0) ≡ k
flag_read true = refl
flag_read false = refl

-- Every video frame whose fields are in the range of their types decodes from its encoding to itself.
pub decode_video-encode_video :
    (f : VideoFrame) → IsVideoFrame f → decode_video (encode_video f) ≡ ok f
unfolding decode_video
decode_video-encode_video f v =
    let (size, seq, ts, w, h, rest) =
      video_slices (codec_to_u8 f.codec) (if f.keyframe then flag_keyframe else 0) f.seq
        f.timestamp_us f.width f.height f.payload v.seq_fits v.timestamp_fits v.width_fits
        v.height_fits in
    rw (video_layout f, size, codec_from_u8-to f.codec, flag_read f.keyframe, seq, ts, w, h, rest)

-- Every audio frame whose fields are in the range of their types decodes from its encoding to itself.
pub decode_audio-encode_audio :
    (f : AudioFrame) → IsAudioFrame f → decode_audio (encode_audio f) ≡ ok f
unfolding decode_audio
decode_audio-encode_audio f v =
    let (size, seq, ts, rate, rest) =
      audio_slices (audio_codec_to_u8 f.codec) f.channels f.seq f.timestamp_us f.sample_rate
        f.payload v.seq_fits v.timestamp_fits v.rate_fits in
    rw (audio_layout f, size, audio_codec_from_u8-to f.codec, seq, ts, rate, rest)

codec_from_u8-cases :
    (n : ℕ)
    → ((n ≤ 3) × (c : Codec) × (codec_from_u8 n ≡ ok c))
      ⊎ ((3 < n) × (codec_from_u8 n ≡ err (malformed "unknown codec id")))
unfolding codec_from_u8
codec_from_u8-cases zero = inl (omega arith, jpeg, refl)
codec_from_u8-cases (suc zero) = inl (omega arith, h264, refl)
codec_from_u8-cases (suc (suc zero)) = inl (omega arith, hevc, refl)
codec_from_u8-cases (suc (suc (suc zero))) = inl (omega arith, av1, refl)
codec_from_u8-cases (suc (suc (suc (suc n)))) = inr (omega arith, refl)

-- A buffer decodes as a video frame exactly when it holds a whole header and a known codec.
pub decode_video_iff :
    (buf : List ℕ)
    → ((f : VideoFrame) × (decode_video buf ≡ ok f))
      ↔ ((header_len ≤ length buf) × (get_or buf 0 0 ≤ 3))
unfolding decode_video
decode_video_iff buf = (
  λ (f, e). elim (codec_from_u8-cases (get_or buf 0 0)) [
    | inl (small, c, known) ↦ (ground arith, small)
    | inr (_, bad) ↦ ground arith
  ],
  λ (size, small). elim (codec_from_u8-cases (get_or buf 0 0)) [
    | inl (_, c, known) ↦ (video_fields c buf, rw (le→ltb (length buf) header_len size, known))
    | inr (big, _) ↦ absurd (omega arith)
  ],
)

-- The hot path of the host seals a header and a payload as two parts: the envelope is that of the
-- encoded frame as a whole, byte for byte, and the sealer goes to the same state.
pub seal_parts-seal :
    (c : Aead) (s : Sealer) (f : VideoFrame)
    → seal_parts c s video (video_header f ∷ f.payload ∷ []) ≡ seal c s video (encode_video f)
unfolding seal seal_parts encode_video
seal_parts-seal c s f = simp append-nil
