-- ===== src/Protocol/Spake2.antt =====
-- shared/protocol/src/spake2.rs: pairing by a password-authenticated key exchange over P-256. The curve,
-- the hash and the key derivation (the crates p256, sha2, hmac, hkdf) are parameters; a drawn scalar is
-- an argument. `none` is a panic: the end of a loop of 256 tries.
pub mod Agreement
pub mod Framing
mod Examples
use nebula_display.Prelude.{
  ℕ, zero, suc, ◌+◌, ◌-◌, ◌*◌, ◌/◌, ◌%◌, ◌^◌, ◌≤◌, ◌<◌, min, max, ◌≡◌, refl, sym, ap, ◌∙◌, subst,
  ◌≢◌, ◌↔◌, ◌⊎◌, inl, inr, Bool, true, false, not, ◌&&◌, ◌||◌, Option, none, some, List, [], ◌∷◌,
  ◌++◌, map, append_assoc, append-nil, arith, ltb, leb, ◌==◌, if◌then◌else◌, ltb→lt, lt→ltb, le→ltb,
  ==_iff, Bool-cases, Option-cases, length, get_or, set, take, drop, replicate, All, keep, first,
  length-append, length-set, get_or-set_self, get_or-set_ne, take-append, drop-append, length-drop,
  All-keep, All-append, take-append_eq, drop-append_eq, list_eq, list_eq→eq, list_eq_refl,
  list_eq-of_ne, codes, Eq, nat_eq, text_eq, lookup, insert, remove, lookup-insert, lookup-remove,
  lookup-insert_self, lookup-insert_ne, lookup-remove_self, lookup-remove_ne, Result, ok, err,
  ◌>>=◌, ok_or,
}
use nebula_display.Protocol.Error.{ProtocolError, crypto}
use nebula_display.Protocol.Bytes.{to_be_bytes}
use nebula_display.Protocol.Crypto.{Hasher}

-- What the code uses of the crate p256.
pub record Curve : Type 1 where
  pub Scalar : Type 0
  pub Point : Type 0
  pub mul_by_generator : Scalar → Point
  pub mul : Point → Scalar → Point
  pub add : Point → Point → Point
  pub sub : Point → Point → Point
  pub is_identity : Point → Bool
  pub is_zero : Scalar → Bool
  pub from_repr : List ℕ → Option Scalar
  pub to_repr : Scalar → List ℕ
  pub encode : Point → List ℕ
  pub parse : List ℕ → Bool
  pub from_encoded : List ℕ → Option Point

-- The laws of the group that the exchange rests on.
pub record IsCurve (c : Curve) : Type 0 where
  pub sub-add : (p q : c.Point) → c.sub (c.add p q) q ≡ p
  pub mul_comm : (x y : c.Scalar) → c.mul (c.mul_by_generator x) y ≡ c.mul (c.mul_by_generator y) x
  pub parses : (p : c.Point) → c.parse (c.encode p) ≡ true
  pub decodes : (p : c.Point) → c.from_encoded (c.encode p) ≡ some p

-- What the code uses of the crates hkdf and hmac, both over SHA-256.
pub record Kdf : Type 0 where
  pub hkdf32 : List ℕ → List ℕ → List ℕ
  pub hmac_tag : List ℕ → List ℕ → List ℕ

abbrev pub context : List ℕ
context = codes "ndsp-spake2-v1"

pub record Spake2Keys : Type 0 where
  pub confirm_client : List ℕ
  pub confirm_server : List ℕ
  pub session_key : List ℕ
  pub token_key : List ℕ

-- One part of a transcript behind its length.
abbrev pub framed : List ℕ → List ℕ
framed part = to_be_bytes 4 (length part) ++ part

abbrev pub frames : List (List ℕ) → List ℕ
frames [] = []
frames (p ∷ ps) = framed p ++ frames ps

-- `derive_keys`.
unfoldable pub derive_keys : Hasher → Kdf → List ℕ → Spake2Keys
derive_keys h k tt_bytes =
    let main = h.sha256 tt_bytes in
    let ka = k.hkdf32 main (codes "ndsp-spake2-ka-v1") in
    let ke = k.hkdf32 main (codes "ndsp-spake2-ke-v1") in
    record {
      confirm_client = k.hmac_tag (k.hkdf32 ka (codes "ndsp-spake2-confirm-client-v1")) tt_bytes;
      confirm_server = k.hmac_tag (k.hkdf32 ka (codes "ndsp-spake2-confirm-server-v1")) tt_bytes;
      session_key = k.hkdf32 ke (codes "ndsp-spake2-session-v1");
      token_key = k.hkdf32 ke (codes "ndsp-spake2-token-v1");
    }

module _ (c : Curve) where
  -- The point that a candidate encodes, unless it is the identity.
  unfoldable pub sampled_point : List ℕ → Option c.Point
  sampled_point candidate =
      if c.parse candidate
      then elim (c.from_encoded candidate) [
        | none ↦ none
        | some p ↦ if c.is_identity p then none else some p
      ]
      else none

  -- `derive_point`, from a counter on, with the tries that are left.
  unfoldable pub derive_point : Hasher → List ℕ → ℕ → ℕ → Option c.Point
  derive_point h seed counter zero = none
  derive_point h seed counter (suc tries) =
      elim (sampled_point (0x02 ∷ h.sha256 (seed ++ counter ∷ []))) [
        | some p ↦ some p
        | none ↦ derive_point h seed (counter + 1) tries
      ]

  unfoldable pub m_point : Hasher → Option c.Point
  m_point h = derive_point h (codes "ndsp-spake2-M-v1") 0 256

  unfoldable pub n_point : Hasher → Option c.Point
  n_point h = derive_point h (codes "ndsp-spake2-N-v1") 0 256

  sampled_scalar : List ℕ → Option c.Scalar
  sampled_scalar digest = elim (c.from_repr digest) [
    | none ↦ none
    | some s ↦ if c.is_zero s then none else some s
  ]

  w_from : Hasher → List ℕ → List ℕ → ℕ → ℕ → Option c.Scalar
  unfolding sampled_scalar
  w_from h pin nonce counter zero = none
  w_from h pin nonce counter (suc tries) =
      elim (sampled_scalar
        (h.sha256 (codes "ndsp-spake2-w-v1" ++ (nonce ++ (pin ++ counter ∷ []))))) [
          | some s ↦ some s
          | none ↦ w_from h pin nonce (counter + 1) tries
        ]

  -- `w_scalar`.
  unfoldable pub w_scalar : Hasher → List ℕ → List ℕ → Option c.Scalar
  unfolding w_from
  w_scalar h pin nonce = w_from h pin nonce 0 256

  -- `decode_point`.
  unfoldable pub decode_point : List ℕ → Result ProtocolError c.Point
  decode_point bytes =
      if c.parse bytes
      then elim (c.from_encoded bytes) [
        | none ↦ err (crypto "SPAKE2 share not on curve")
        | some p ↦ if c.is_identity p then err (crypto "SPAKE2 share is the identity") else ok p
      ]
      else err (crypto "invalid SPAKE2 share encoding")

  -- `transcript`.
  unfoldable pub transcript : List ℕ → List ℕ → List ℕ → List ℕ → c.Scalar → List ℕ
  transcript nonce pa pb k w =
      frames (context ∷ codes "client" ∷ codes "server" ∷ nonce ∷ pa ∷ pb ∷ k ∷ c.to_repr w ∷ [])

  pub record Spake2Client : Type 0 where
    pub x : c.Scalar
    pub w : c.Scalar
    pub share : List ℕ
    pub nonce : List ℕ

  pub record Spake2Server : Type 0 where
    pub share : List ℕ
    pub keys : Spake2Keys

  client_with : List ℕ → c.Scalar → Option c.Scalar → Option c.Point → Option Spake2Client
  client_with nonce x (some w) (some m) = some (record {
    x = x;
    w = w;
    share = c.encode (c.add (c.mul_by_generator x) (c.mul m w));
    nonce = nonce;
  })
  client_with nonce x none _ = none
  client_with nonce x (some w) none = none

  -- `Spake2Client::start`, with the scalar that it draws.
  unfoldable pub start : Hasher → List ℕ → List ℕ → c.Scalar → Option Spake2Client
  unfolding client_with
  start h pin nonce x = client_with nonce x (w_scalar h pin nonce) (m_point h)

  finish_at :
      Hasher
      → Kdf
      → Spake2Client
      → List ℕ
      → c.Point
      → Option c.Point
      → Option (Result ProtocolError Spake2Keys)
  finish_at h kdf a server_share pb none = none
  finish_at h kdf a server_share pb (some n) =
      let k = c.mul (c.sub pb (c.mul n a.w)) a.x in
      some (
        if c.is_identity k
        then err (crypto "SPAKE2 derived identity")
        else ok (derive_keys h kdf (transcript a.nonce a.share server_share (c.encode k) a.w)))

  finish_with :
      Hasher
      → Kdf
      → Spake2Client
      → List ℕ
      → Result ProtocolError c.Point
      → Option (Result ProtocolError Spake2Keys)
  unfolding finish_at
  finish_with h kdf a server_share (err e) = some (err e)
  finish_with h kdf a server_share (ok pb) = finish_at h kdf a server_share pb (n_point h)

  -- `Spake2Client::finish`.
  unfoldable pub finish :
      Hasher → Kdf → Spake2Client → List ℕ → Option (Result ProtocolError Spake2Keys)
  unfolding finish_with
  finish h kdf a server_share = finish_with h kdf a server_share (decode_point server_share)

  respond_at :
      Hasher
      → Kdf
      → List ℕ
      → List ℕ
      → c.Scalar
      → c.Point
      → Option c.Scalar
      → Option c.Point
      → Option c.Point
      → Option (Result ProtocolError Spake2Server)
  respond_at h kdf nonce client_share y pa (some w) (some m) (some n) =
      let share = c.encode (c.add (c.mul_by_generator y) (c.mul n w)) in
      let k = c.mul (c.sub pa (c.mul m w)) y in
      some (
        if c.is_identity k
        then err (crypto "SPAKE2 derived identity")
        else ok (record {
          share = share;
          keys = derive_keys h kdf (transcript nonce client_share share (c.encode k) w);
        }))
  respond_at h kdf nonce client_share y pa none _ _ = none
  respond_at h kdf nonce client_share y pa (some w) none _ = none
  respond_at h kdf nonce client_share y pa (some w) (some m) none = none

  respond_with :
      Hasher
      → Kdf
      → List ℕ
      → List ℕ
      → List ℕ
      → c.Scalar
      → Result ProtocolError c.Point
      → Option (Result ProtocolError Spake2Server)
  unfolding respond_at
  respond_with h kdf pin nonce client_share y (err e) = some (err e)
  respond_with h kdf pin nonce client_share y (ok pa) =
      respond_at h kdf nonce client_share y pa (w_scalar h pin nonce) (m_point h) (n_point h)

  -- `Spake2Server::respond`, with the scalar that it draws.
  unfoldable pub respond :
      Hasher
      → Kdf
      → List ℕ
      → List ℕ
      → List ℕ
      → c.Scalar
      → Option (Result ProtocolError Spake2Server)
  unfolding respond_with
  respond h kdf pin nonce client_share y =
      respond_with h kdf pin nonce client_share y (decode_point client_share)
