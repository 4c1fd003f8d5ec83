-- ===== src/Protocol/Crypto.antt =====
-- shared/protocol/src/crypto.rs: the proofs and keys of a handshake, over primitives of third-party crates
-- (elliptic curves, key derivation, hashing), which are parameters; and the comparison in constant time
-- of shared/protocol/src/spake2.rs and host/service/src/trust.rs.
mod Bits
use Prim.Native.Nat.{bit_or, bit_xor}
use nebula_display.Prelude.{
  ℕ, zero, suc, ◌+◌, ◌-◌, ◌*◌, ◌/◌, ◌%◌, ◌^◌, ◌≤◌, ◌<◌, min, max, ◌≡◌, refl, sym, ap, ◌∙◌, subst,
  ◌≢◌, ◌↔◌, ◌⊎◌, inl, inr, Bool, true, false, not, ◌&&◌, ◌||◌, Option, none, some, List, [], ◌∷◌,
  ◌++◌, map, append_assoc, append-nil, arith, ltb, leb, ◌==◌, if◌then◌else◌, ltb→lt, lt→ltb, le→ltb,
  ==_iff, Bool-cases, Option-cases, length, get_or, set, take, drop, replicate, All, keep, first,
  length-append, length-set, get_or-set_self, get_or-set_ne, take-append, drop-append, length-drop,
  All-keep, All-append, take-append_eq, drop-append_eq, list_eq, list_eq→eq, list_eq_refl,
  list_eq-of_ne, Eq, nat_eq, text_eq, lookup, insert, remove, lookup-insert, lookup-remove,
  lookup-insert_self, lookup-insert_ne, lookup-remove_self, lookup-remove_ne, Result, ok, err,
  ◌>>=◌, ok_or,
}
use Bits.{bit_xor-zero, bit_or-zero, bit_xor_self}

-- What the code uses of SHA-256.
pub record Hasher : Type 0 where
  pub sha256 : List ℕ → List ℕ

-- `reauth_transcript`.
unfoldable pub reauth_transcript : List ℕ → List ℕ → List ℕ → List ℕ
reauth_transcript connection_nonce client_pub server_pub =
    connection_nonce ++ (client_pub ++ server_pub)

-- `token_proof`.
unfoldable pub token_proof : Hasher → List ℕ → List ℕ → List ℕ
token_proof h token transcript = h.sha256 (token ++ transcript)

-- The loop `diff |= a ^ b` over two strings of bytes.
unfoldable pub diff_loop : ℕ → List ℕ → List ℕ → ℕ
diff_loop diff [] ys = diff
diff_loop diff (a ∷ xs) [] = diff
diff_loop diff (a ∷ xs) (b ∷ ys) = diff_loop (bit_or diff (bit_xor a b)) xs ys

-- `mac_equal`, and the same comparison in `TrustStore::verify`.
unfoldable pub mac_equal : List ℕ → List ℕ → Bool
mac_equal a b = if not (length a == length b) then false else diff_loop 0 a b == 0

diff_loop-zero :
    (d : ℕ) (xs ys : List ℕ) → length xs ≡ length ys → diff_loop d xs ys ≡ 0 → (d ≡ 0) × (xs ≡ ys)
unfolding diff_loop
diff_loop-zero d [] [] len h = (h, refl)
diff_loop-zero d [] (b ∷ ys) len h = absurd (omega arith)
diff_loop-zero d (a ∷ xs) [] len h = absurd (omega arith)
diff_loop-zero d (a ∷ xs) (b ∷ ys) len h =
    let (none_here, rest) = diff_loop-zero (bit_or d (bit_xor a b)) xs ys (omega arith) h in
    let (before, here) = bit_or-zero d (bit_xor a b) none_here in
    let same = bit_xor-zero a b here in (before, rw (same, rest))

diff_loop_self : (xs : List ℕ) → diff_loop 0 xs xs ≡ 0
unfolding diff_loop
diff_loop_self [] = refl
diff_loop_self (a ∷ xs) = rw (bit_xor_self a) (diff_loop_self xs)

-- The comparison that reads every byte, whatever the first difference, accepts exactly equal strings.
pub mac_equal_iff : (a b : List ℕ) → (mac_equal a b ≡ true) ↔ (a ≡ b)
unfolding mac_equal
mac_equal_iff a b = (
  λ h. (diff_loop-zero 0 a b (ground arith) (ground arith)).1,
  λ e. rw e (ground (arith, diff_loop_self b)),
)
