-- ===== src/Protocol/Bytes.antt =====
-- Rust's `to_be_bytes` and `from_be_bytes` on unsigned words of `k` bytes. A byte string is a list
-- of numbers below 256.
use nebula_display.Prelude.{
  ℕ, zero, suc, ◌+◌, ◌*◌, ◌/◌, ◌%◌, ◌^◌, ◌<◌, ◌≡◌, refl, sym, ap, ◌∙◌, List, [], ◌∷◌, ◌++◌, length,
  length-append, All, All-append, arith,
}
use native.Mathlib.Nat.{pow-suc}

abbrev pub IsByte : ℕ → Type 0
IsByte b = b < 256

-- `n.to_be_bytes()` for a word of `k` bytes, most significant byte first.
unfoldable pub to_be_bytes : ℕ → ℕ → List ℕ
to_be_bytes zero n = []
to_be_bytes (suc k) n = to_be_bytes k (n / 256) ++ (n % 256) ∷ []

-- The bytes read so far stand for `acc`.
unfoldable pub be_value : ℕ → List ℕ → ℕ
be_value acc [] = acc
be_value acc (b ∷ bs) = be_value (acc * 256 + b) bs

abbrev pub from_be_bytes : List ℕ → ℕ
from_be_bytes bs = be_value 0 bs

pub length-to_be_bytes : (k n : ℕ) → length (to_be_bytes k n) ≡ k
unfolding to_be_bytes
length-to_be_bytes zero n = refl
length-to_be_bytes (suc k) n = omega (
  arith,
  length-append (to_be_bytes k (n / 256)) ((n % 256) ∷ []),
  length-to_be_bytes k (n / 256),
)

be_value-snoc :
    (acc : ℕ) (xs : List ℕ) (b : ℕ) → be_value acc (xs ++ b ∷ []) ≡ be_value acc xs * 256 + b
unfolding be_value
be_value-snoc acc [] b = refl
be_value-snoc acc (x ∷ xs) b = be_value-snoc (acc * 256 + x) xs b

pub from_be_bytes-to_be_bytes : (k n : ℕ) → n < 256 ^ k → from_be_bytes (to_be_bytes k n) ≡ n
unfolding to_be_bytes
from_be_bytes-to_be_bytes zero n h = unfold be_value in omega arith
from_be_bytes-to_be_bytes (suc k) n h = omega (
  arith,
  be_value-snoc 0 (to_be_bytes k (n / 256)) (n % 256),
  from_be_bytes-to_be_bytes k (n / 256) (omega (arith, pow-suc 256 k)),
)

pub to_be_bytes-IsByte : (k n : ℕ) → All IsByte (to_be_bytes k n)
unfolding to_be_bytes
to_be_bytes-IsByte zero n = tt
to_be_bytes-IsByte (suc k) n =
    All-append IsByte (to_be_bytes k (n / 256)) ((n % 256) ∷ []) (to_be_bytes-IsByte k (n / 256))
      (omega arith, tt)

-- Two words with the same bytes are equal.
pub to_be_bytes-injective :
    (k m n : ℕ) → m < 256 ^ k → n < 256 ^ k → to_be_bytes k m ≡ to_be_bytes k n → m ≡ n
to_be_bytes-injective k m n hm hn e =
    sym (from_be_bytes-to_be_bytes k m hm) ∙ ap (be_value 0) e ∙ from_be_bytes-to_be_bytes k n hn
