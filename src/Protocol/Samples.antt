-- ===== src/Protocol/Samples.antt =====
-- Concrete instances of the parameters, for the examples.
use nebula_display.Prelude.{
  ℕ, ◌≡◌, refl, ap, arith, take-append_eq, length-append, List, ◌+◌, ◌-◌, ◌*◌, true, some, [], ◌∷◌,
  ◌++◌, ◌==◌, length, get_or, take, replicate,
}
use nebula_display.Protocol.Envelope.{Aead, IsAead}
use nebula_display.Protocol.Crypto.{Hasher}
use nebula_display.Protocol.Spake2.{Curve, IsCurve, Kdf}

-- A cipher that leaves the text as it is and appends sixteen zero bytes.
abbrev pub plain_aead : Aead
plain_aead = record {
  encrypt = λ key nonce aad text. text ++ replicate 16 0;
  decrypt = λ key nonce aad sealed. some (take (length sealed - 16) sealed);
}

-- Numbers under addition. A scalar and a point are encoded as one code.
abbrev pub toy : Curve
toy = record {
  Scalar = ℕ;
  Point = ℕ;
  mul_by_generator = λ x. x;
  mul = λ p x. p * x;
  add = λ p q. p + q;
  sub = λ p q. p - q;
  is_identity = λ p. p == 0;
  is_zero = λ x. x == 0;
  from_repr = λ bytes. some (length bytes);
  to_repr = λ x. x ∷ [];
  encode = λ p. p ∷ [];
  parse = λ bytes. true;
  from_encoded = λ bytes. some (get_or bytes 0 0);
}

abbrev pub same_bytes : Hasher
same_bytes = record { sha256 = λ bytes. bytes }

abbrev pub tagged : Kdf
tagged = record { hkdf32 = λ key info. info ++ key; hmac_tag = λ key text. key }

pub toy-IsCurve : IsCurve toy
toy-IsCurve = record {
  sub-add = λ p q. omega arith;
  mul_comm = λ x y. ground arith;
  parses = λ p. refl;
  decodes = λ p. refl;
}

plain_aead-opens :
    (key nonce aad text : List ℕ)
    → plain_aead.decrypt key nonce aad (plain_aead.encrypt key nonce aad text) ≡ some text
plain_aead-opens key nonce aad text = ap some (
    take-append_eq (length (text ++ replicate 16 0) - 16) text (replicate 16 0)
      (omega (arith, length-append text (replicate 16 0))))

pub plain_aead-IsAead : IsAead plain_aead
plain_aead-IsAead = record {
  opens = plain_aead-opens;
  tag_len = λ key nonce aad text. length-append text (replicate 16 0);
}
