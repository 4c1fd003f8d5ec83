-- ===== src/Host/Transport/Frames.antt =====
-- host/service/src/transport.rs and shared/client/src/lib.rs: frames that are read back from a stream.
use nebula_display.Prelude.{
  ℕ, zero, suc, ◌%◌, ◌^◌, ◌<◌, ◌≤◌, ◌≡◌, refl, ap, ◌∙◌, arith, false, some, List, [], ◌∷◌, ◌++◌,
  map, All, ltb, le→ltb, length, take, drop, length-append, take-append_eq, drop-append_eq,
  append_assoc, ok,
}
use nebula_display.Protocol.Bytes.{
  to_be_bytes, from_be_bytes, length-to_be_bytes, from_be_bytes-to_be_bytes,
}
use nebula_display.Host.Transport.{
  max_control_frame, frame_envelope, Inbound, envelope, closed, sized, write_frame, read_payload,
  read_frame, inbound_of, next_inbound,
}

-- The payload fits the size that the reader allows, and that size is less than 2^32.
abbrev pub Fits : ℕ → List ℕ → Type 0
Fits max_len payload = (length payload ≤ max_len) × (max_len < 2 ^ 32)

pub read_payload-sized :
    (max_len frame_type : ℕ) (payload rest : List ℕ)
    → length payload ≤ max_len
    → read_payload max_len frame_type (length payload) (payload ++ rest)
      ≡ (ok (some (frame_type, payload)), rest)
unfolding read_payload
read_payload-sized max_len frame_type payload rest fits =
    rw
      (
        le→ltb max_len (length payload) fits,
        le→ltb (length (payload ++ rest)) (length payload)
            (omega (arith, length-append payload rest)),
        take-append_eq (length payload) payload rest refl,
        drop-append_eq (length payload) payload rest refl,
      )
      refl

-- The size is read back from the front of the bytes, which then stand at the payload.
pub read-sized :
    (payload rest : List ℕ)
    → length payload < 2 ^ 32
    → (ltb (length (sized payload ++ rest)) 4 ≡ false)
      × (from_be_bytes (take 4 (sized payload ++ rest)) ≡ length payload)
      × (drop 4 (sized payload ++ rest) ≡ payload ++ rest)
unfolding sized
read-sized payload rest small =
    let n = length payload % 2 ^ 32 in
    let size = to_be_bytes 4 n in
    let size_len = length-to_be_bytes 4 n in
    let same : n ≡ length payload = grind arith in
    rw (append_assoc size payload rest) (
      le→ltb (length (size ++ (payload ++ rest))) 4
          (omega (arith, length-append size (payload ++ rest), size_len)),
      ap from_be_bytes (take-append_eq 4 size (payload ++ rest) size_len)
          ∙ from_be_bytes-to_be_bytes 4 n (omega arith)
          ∙ same,
      drop-append_eq 4 size (payload ++ rest) size_len,
    )

-- A frame at the front of a stream is read whole, and what follows is left.
pub read_frame-write_frame :
    (max_len frame_type : ℕ) (payload rest : List ℕ)
    → Fits max_len payload
    → read_frame max_len (write_frame frame_type payload ++ rest)
      ≡ (ok (some (frame_type, payload)), rest)
unfolding read_frame write_frame
read_frame-write_frame max_len frame_type payload rest (fits, small) =
    let (long, size, after) = read-sized payload rest (omega arith) in
    rw (long, size, after) (read_payload-sized max_len frame_type payload rest fits)

next_inbound-write_frame :
    (bytes rest : List ℕ)
    → length bytes ≤ max_control_frame
    → next_inbound (write_frame frame_envelope bytes ++ rest) ≡ (envelope bytes, rest)
unfolding next_inbound inbound_of
next_inbound-write_frame bytes rest fits =
    rw (read_frame-write_frame max_control_frame frame_envelope bytes rest (fits, omega arith)) refl

-- The calls of `next` that the pump makes until the stream is over, at most this number of them.
unfoldable pub inbounds : ℕ → List ℕ → List Inbound
inbounds zero stream = []
inbounds (suc k) stream =
    let (inbound, rest) = next_inbound stream in
    let later = inbounds k rest in inbound ∷ elim inbound [ envelope bytes ↦ later | _ ↦ [] ]

inbounds-step :
    (k : ℕ) (stream bytes rest : List ℕ)
    → next_inbound stream ≡ (envelope bytes, rest)
    → inbounds (suc k) stream ≡ envelope bytes ∷ inbounds k rest
unfolding inbounds
inbounds-step k stream bytes rest h = rw (h, h) refl

abbrev pub written : List (List ℕ) → List ℕ
written [] = []
written (bytes ∷ later) = write_frame frame_envelope bytes ++ written later

-- The envelopes that one side writes on the control stream, none larger than the other side allows, are
-- what `next` yields, in their order, and then the end of the stream; enough calls are one more than the
-- envelopes.
pub inbounds-written :
    (envelopes : List (List ℕ)) (k : ℕ)
    → All (λ bytes. length bytes ≤ max_control_frame) envelopes
    → length envelopes < k
    → inbounds k (written envelopes) ≡ map envelope envelopes ++ closed ∷ []
unfolding inbounds
inbounds-written envelopes zero fits h = absurd (omega arith)
inbounds-written [] (suc k) fits h = unfold next_inbound read_frame inbound_of in refl
inbounds-written (bytes ∷ later) (suc k) (fit, fits) h =
    inbounds-step k (written (bytes ∷ later)) bytes (written later)
      (next_inbound-write_frame bytes (written later) fit)
    ∙ ap (λ z. envelope bytes ∷ z) (inbounds-written later k fits (omega arith))
