-- ===== src/Protocol/Spake2/Framing.antt =====
-- The transcript of an exchange says exactly what was exchanged.
use nebula_display.Prelude.{
  ℕ, ◌^◌, ◌<◌, ◌≡◌, refl, sym, ap, ap₂, ◌∙◌, ◌≢◌, List, [], ◌∷◌, ◌++◌, append_assoc, arith, length,
  take, drop, All, length-append, take-append_eq, drop-append_eq, codes, nat_eq, text_eq,
}
use nebula_display.Protocol.Bytes.{to_be_bytes, length-to_be_bytes, to_be_bytes-injective}
use nebula_display.Protocol.Spake2.{Curve, framed, frames, context, transcript}

-- The length of a part fits its prefix.
abbrev pub Short : List ℕ → Type 0
Short part = length part < 2 ^ 32

-- Prefixes of one length cancel.
append-cancel :
    (n : ℕ) (xs ys rest rest' : List ℕ)
    → length xs ≡ n
    → length ys ≡ n
    → xs ++ rest ≡ ys ++ rest'
    → (xs ≡ ys) × (rest ≡ rest')
append-cancel n xs ys rest rest' hx hy e = (
  sym (take-append_eq n xs rest hx) ∙ ap (take n) e ∙ take-append_eq n ys rest' hy,
  sym (drop-append_eq n xs rest hx) ∙ ap (drop n) e ∙ drop-append_eq n ys rest' hy,
)

framed-cancel :
    (p q rest rest' : List ℕ)
    → Short p
    → Short q
    → framed p ++ rest ≡ framed q ++ rest'
    → (p ≡ q) × (rest ≡ rest')
framed-cancel p q rest rest' hp hq e =
    let whole : to_be_bytes 4 (length p) ++ (p ++ rest) ≡ to_be_bytes 4 (length q) ++ (q ++ rest') =
      sym (append_assoc (to_be_bytes 4 (length p)) p rest)
      ∙ e
      ∙ append_assoc (to_be_bytes 4 (length q)) q rest' in
    let (prefix, tails) =
      append-cancel 4 (to_be_bytes 4 (length p)) (to_be_bytes 4 (length q)) (p ++ rest) (q ++ rest')
        (length-to_be_bytes 4 (length p)) (length-to_be_bytes 4 (length q)) whole in
    let same_len =
      to_be_bytes-injective 4 (length p) (length q) (omega arith) (omega arith) prefix in
    append-cancel (length q) p q rest rest' same_len refl tails

framed_nonempty : (p rest : List ℕ) → framed p ++ rest ≢ []
framed_nonempty p rest e = omega (
  arith,
  ap length e,
  length-append (framed p) rest,
  length-append (to_be_bytes 4 (length p)) p,
  length-to_be_bytes 4 (length p),
)

-- Parts behind their lengths say what the parts are and how many.
frames-injective :
    (ps qs : List (List ℕ)) → All Short ps → All Short qs → frames ps ≡ frames qs → ps ≡ qs
frames-injective [] [] hp hq e = refl
frames-injective [] (q ∷ qs) hp hq e = absurd (framed_nonempty q (frames qs) (sym e))
frames-injective (p ∷ ps) [] hp hq e = absurd (framed_nonempty p (frames ps) e)
frames-injective (p ∷ ps) (q ∷ qs) hp hq e =
    let (same, rest) = framed-cancel p q (frames ps) (frames qs) hp.0 hq.0 e in
    let tails = frames-injective ps qs hp.1 hq.1 rest in ap₂ ◌∷◌ same tails

-- The parts of a transcript that vary: the nonce, the two shares, the shared point and the scalar.
abbrev pub parts_of : (c : Curve) → List ℕ → List ℕ → List ℕ → List ℕ → c.Scalar → List (List ℕ)
parts_of c nonce pa pb k w = nonce ∷ pa ∷ pb ∷ k ∷ c.to_repr w ∷ []

-- Two transcripts are equal only if the nonces, the shares, the shared points and the encodings of the
-- scalars are, each by itself, whatever their lengths below 2 ^ 32: no bytes move from one part to the
-- next unnoticed.
pub transcript_binds :
    (c : Curve) (nonce nonce' pa pa' pb pb' k k' : List ℕ) (w w' : c.Scalar)
    → All Short (parts_of c nonce pa pb k w)
    → All Short (parts_of c nonce' pa' pb' k' w')
    → transcript c nonce pa pb k w ≡ transcript c nonce' pa' pb' k' w'
    → (nonce ≡ nonce') × (pa ≡ pa') × (pb ≡ pb') × (k ≡ k') × (c.to_repr w ≡ c.to_repr w')
unfolding transcript
transcript_binds c nonce nonce' pa pa' pb pb' k k' w w' hp hq e =
    let same =
      frames-injective (context ∷ codes "client" ∷ codes "server" ∷ parts_of c nonce pa pb k w)
        (context ∷ codes "client" ∷ codes "server" ∷ parts_of c nonce' pa' pb' k' w')
        (omega arith, (omega arith, (omega arith, hp)))
        (omega arith, (omega arith, (omega arith, hq))) e in
    (cc, cc, cc, cc, cc)
