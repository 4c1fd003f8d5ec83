-- ===== src/Protocol/Spake2/Agreement.antt =====
-- Both sides of the exchange derive the same keys from the same PIN.
use nebula_display.Prelude.{
  ℕ, ◌≡◌, refl, sym, ap, ap₂, ◌∙◌, false, Option, none, some, List, arith, nat_eq, text_eq, Result,
  ok, err,
}
use nebula_display.Protocol.Error.{ProtocolError}
use nebula_display.Protocol.Crypto.{Hasher}
use nebula_display.Protocol.Spake2.{
  Curve, IsCurve, Kdf, derive_keys, m_point, n_point, w_scalar, decode_point, transcript,
  Spake2Client, Spake2Server, client_with, start, finish_at, finish_with, finish, respond_at,
  respond_with, respond,
}

module _ (c : Curve) where
  client_cases :
      (nonce : List ℕ) (x : c.Scalar) (ow : Option c.Scalar) (om : Option c.Point)
      (a : Spake2Client c)
      → client_with c nonce x ow om ≡ some a
      → (w : c.Scalar) × (m : c.Point) × (ow ≡ some w)
        × (om ≡ some m)
        × (a ≡ record {
          x = x;
          w = w;
          share = c.encode (c.add (c.mul_by_generator x) (c.mul m w));
          nonce = nonce;
        })
  unfolding client_with
  client_cases nonce x none om a e = cc
  client_cases nonce x (some w) none a e = cc
  client_cases nonce x (some w) (some m) a e = (w, m, refl, refl, ground arith)

  respond_cases :
      (h : Hasher) (kdf : Kdf) (nonce client_share : List ℕ) (y : c.Scalar) (pa : c.Point)
      (ow : Option c.Scalar) (om on : Option c.Point) (b : Spake2Server c)
      → respond_at c h kdf nonce client_share y pa ow om on ≡ some (ok b)
      → (w : c.Scalar) × (m : c.Point) × (n : c.Point) × (ow ≡ some w)
        × (om ≡ some m)
        × (on ≡ some n)
        × (let share = c.encode (c.add (c.mul_by_generator y) (c.mul n w)) in
            let k = c.mul (c.sub pa (c.mul m w)) y in
            (c.is_identity k ≡ false)
            × (b.share ≡ share)
            × (b.keys ≡ derive_keys h kdf (transcript c nonce client_share share (c.encode k) w)))
  unfolding respond_at
  respond_cases h kdf nonce cs y pa none om on b e = cc
  respond_cases h kdf nonce cs y pa (some w) none on b e = cc
  respond_cases h kdf nonce cs y pa (some w) (some m) none b e = cc
  respond_cases h kdf nonce cs y pa (some w) (some m) (some n) b e =
      (w, m, n, refl, refl, refl, (ground arith, ground arith, ground arith))

  decoded_cases :
      (h : Hasher) (kdf : Kdf) (pin nonce client_share : List ℕ) (y : c.Scalar)
      (r : Result ProtocolError c.Point) (b : Spake2Server c)
      → respond_with c h kdf pin nonce client_share y r ≡ some (ok b)
      → (pa : c.Point) × (r ≡ ok pa)
        × (respond_at c h kdf nonce client_share y pa
              (w_scalar c h pin nonce)
              (m_point c h)
              (n_point c h)
            ≡ some (ok b))
  unfolding respond_with
  decoded_cases h kdf pin nonce cs y (err e) b q = cc
  decoded_cases h kdf pin nonce cs y (ok pa) b q = (pa, refl, q)

  -- A share that decodes is the encoding of a point that is not the identity.
  decode-encode : (laws : IsCurve c) (p q : c.Point) → decode_point c (c.encode p) ≡ ok q → p ≡ q
  unfolding decode_point
  decode-encode laws p q e = ground (arith, laws.parses p, laws.decodes p)

  -- The client's side, once the server's share is read and the shared point is known.
  finish-shared :
      (h : Hasher) (kdf : Kdf) (a : Spake2Client c) (server_share : List ℕ) (pb n k : c.Point)
      → n_point c h ≡ some n
      → decode_point c server_share ≡ ok pb
      → c.mul (c.sub pb (c.mul n a.w)) a.x ≡ k
      → c.is_identity k ≡ false
      → finish c h kdf a server_share
        ≡ some (ok (derive_keys h kdf (transcript c a.nonce a.share server_share (c.encode k) a.w)))
  unfolding finish finish_with finish_at
  finish-shared h kdf a server_share pb n k en ed ek live = rw (ed, en, ek, live) refl

  -- The two sides compute the same point, once each has taken the other's mask off.
  shared_point :
      (laws : IsCurve c) (x y w w' : c.Scalar) (m m' n pa pb : c.Point)
      → w' ≡ w
      → m' ≡ m
      → c.add (c.mul_by_generator x) (c.mul m w) ≡ pa
      → c.add (c.mul_by_generator y) (c.mul n w') ≡ pb
      → c.mul (c.sub pb (c.mul n w)) x ≡ c.mul (c.sub pa (c.mul m' w')) y
  shared_point laws x y w w' m m' n pa pb same_w same_m ea eb =
      rw (← ea, ← eb, same_m, same_w, laws.sub-add, laws.sub-add) (laws.mul_comm y x)

  agrees :
      (h : Hasher) (kdf : Kdf) (nonce : List ℕ) (w w' : c.Scalar) (a : Spake2Client c)
      (b : Spake2Server c) (pb n k : c.Point)
      → n_point c h ≡ some n
      → decode_point c b.share ≡ ok pb
      → c.mul (c.sub pb (c.mul n a.w)) a.x ≡ k
      → c.is_identity k ≡ false
      → a.nonce ≡ nonce
      → a.w ≡ w
      → w' ≡ w
      → b.keys ≡ derive_keys h kdf (transcript c nonce a.share b.share (c.encode k) w')
      → finish c h kdf a b.share ≡ some (ok b.keys)
  agrees h kdf nonce w w' a b pb n k en ed ek live e_nonce e_w same_w keys =
      let done = finish-shared h kdf a b.share pb n k en ed ek live in cc

  -- If the client and the server hold the same PIN and nonce, and the shares reach one another, the
  -- client derives exactly the server's keys: the confirmations that each side expects, the session key
  -- and the key for the token. (The server's share decodes: it is not the identity.)
  pub same_pin_agrees :
      (h : Hasher) (kdf : Kdf) (laws : IsCurve c) (pin nonce : List ℕ) (x y : c.Scalar)
      (a : Spake2Client c) (b : Spake2Server c) (pb : c.Point)
      → start c h pin nonce x ≡ some a
      → respond c h kdf pin nonce a.share y ≡ some (ok b)
      → decode_point c b.share ≡ ok pb
      → finish c h kdf a b.share ≡ some (ok b.keys)
  unfolding start respond finish
  same_pin_agrees h kdf laws pin nonce x y a b pb ea eb ed =
      let (w, m, ew, em, fa) = client_cases nonce x (w_scalar c h pin nonce) (m_point c h) a ea in
      let (pa, da, ra) = decoded_cases h kdf pin nonce a.share y (decode_point c a.share) b eb in
      let (w', m', n, ew', em', en, (live, sb, kb)) =
        respond_cases h kdf nonce a.share y pa (w_scalar c h pin nonce) (m_point c h) (n_point c h)
          b ra in
      let same_w : w' ≡ w = ground (arith, ew, ew') in
      let same_m : m' ≡ m = ground (arith, em, em') in
      let masked_a = c.add (c.mul_by_generator x) (c.mul m w) in
      let masked_b = c.add (c.mul_by_generator y) (c.mul n w) in
      let share_a : a.share ≡ c.encode masked_a = ap (λ (z : Spake2Client c). z.share) fa in
      let share_b : b.share ≡ c.encode masked_b =
        sb ∙ ap (λ (z : c.Scalar). c.encode (c.add (c.mul_by_generator y) (c.mul n z))) same_w in
      let point_a : masked_a ≡ pa = decode-encode laws masked_a pa (rw (← share_a) da) in
      let point_b : masked_b ≡ pb = decode-encode laws masked_b pb (rw (← share_b) ed) in
      let a_w = ap (λ (z : Spake2Client c). z.w) fa in
      let a_x = ap (λ (z : Spake2Client c). z.x) fa in
      let a_nonce = ap (λ (z : Spake2Client c). z.nonce) fa in
      let shared =
        shared_point laws x y w w' m m' n pa pb same_w same_m point_a
          (ap (λ (z : c.Scalar). c.add (c.mul_by_generator y) (c.mul n z)) same_w ∙ point_b) in
      let keys =
        kb
        ∙ ap
            (λ (z : List ℕ).
              derive_keys h kdf
                (transcript c nonce a.share z (c.encode (c.mul (c.sub pa (c.mul m' w')) y)) w'))
            (sym sb) in
      agrees h kdf nonce w w' a b pb n (c.mul (c.sub pa (c.mul m' w')) y) en ed
        (ap₂ (λ z x'. c.mul (c.sub pb (c.mul n z)) x') a_w a_x ∙ shared) live a_nonce a_w same_w
        keys
