-- ===== src/Host/Dirty/Bounds.antt =====
-- The bounds of the dirty rows are the tightest that hold all of them.
use nebula_display.Prelude.{
  ℕ, zero, suc, ◌+◌, ◌*◌, ◌≤◌, ◌≡◌, refl, Bool, true, false, Option, none, some, List, [], ◌∷◌,
  arith, if◌then◌else◌, get_or,
}
use nebula_display.Host.Dirty.{DirtyMap, position, rposition, bounds, row_bounds}

-- The flag of a pair; there is none past the end.
abbrev pub flag : List Bool → ℕ → Bool
flag ds i = get_or ds i false

-- No flag is set, or `i` is the first that is.
abbrev IsFirst : List Bool → Option ℕ → Type 0
IsFirst ds none = (j : ℕ) → flag ds j ≡ false
IsFirst ds (some i) = (flag ds i ≡ true) × ((j : ℕ) → flag ds j ≡ true → i ≤ j)

-- No flag is set, or `i` is the last that is.
abbrev IsLast : List Bool → Option ℕ → Type 0
IsLast ds none = (j : ℕ) → flag ds j ≡ false
IsLast ds (some i) = (flag ds i ≡ true) × ((j : ℕ) → flag ds j ≡ true → j ≤ i)

all_false : (ds : List Bool) → ((j : ℕ) → flag ds j ≡ false) → (j : ℕ) → flag (false ∷ ds) j ≡ false
all_false ds h zero = refl
all_false ds h (suc k) = h k

IsFirst-later :
    (ds : List Bool) (o : Option ℕ)
    → IsFirst ds o
    → IsFirst (false ∷ ds) (elim o [ none ↦ none | some i ↦ some (suc i) ])
IsFirst-later ds none h = all_false ds h
IsFirst-later ds (some i) h = (
  h.0,
  λ j. elim j as (λ j. flag (false ∷ ds) j ≡ true → suc i ≤ j) [
    | zero ↦ λ e. absurd cc
    | suc k ↦ λ e. omega (arith, h.1 k e)
  ],
)

position-IsFirst : (ds : List Bool) → IsFirst ds (position ds)
unfolding position
position-IsFirst [] = λ j. refl
position-IsFirst (true ∷ ds) = (refl, λ j e. omega arith)
position-IsFirst (false ∷ ds) = IsFirst-later ds (position ds) (position-IsFirst ds)

IsLast-later :
    (d : Bool) (ds : List Bool) (o : Option ℕ)
    → IsLast ds o
    → IsLast (d ∷ ds) (elim o [ none ↦ if d then some 0 else none | some i ↦ some (suc i) ])
IsLast-later true ds none h = (
  refl,
  λ j. elim j as (λ j. flag (true ∷ ds) j ≡ true → j ≤ 0) [
    | zero ↦ λ e. omega arith
    | suc k ↦ λ e. absurd (ground (arith, h k))
  ],
)
IsLast-later false ds none h = all_false ds h
IsLast-later d ds (some i) h = (
  h.0,
  λ j. elim j as (λ j. flag (d ∷ ds) j ≡ true → j ≤ suc i) [
    | zero ↦ λ e. omega arith
    | suc k ↦ λ e. omega (arith, h.1 k e)
  ],
)

rposition-IsLast : (ds : List Bool) → IsLast ds (rposition ds)
unfolding rposition
rposition-IsLast [] = λ j. refl
rposition-IsLast (d ∷ ds) = IsLast-later d ds (rposition ds) (rposition-IsLast ds)

-- What bounds mean for the flags of the pairs.
abbrev pub Tight : List Bool → Option (ℕ × ℕ) → Type 0
Tight ds none = (i : ℕ) → flag ds i ≡ false
Tight ds (some (y0, y1)) =
    ((i : ℕ) → flag ds i ≡ true → (y0 ≤ 2 * i) × (2 * i + 2 ≤ y1))
    × ((first : ℕ) × (y0 ≡ 2 * first) × (flag ds first ≡ true))
    × ((last : ℕ) × (y1 ≡ 2 * last + 2) × (flag ds last ≡ true))

bounds-Tight :
    (ds : List Bool) (first last : Option ℕ)
    → IsFirst ds first
    → IsLast ds last
    → Tight ds (bounds first last)
unfolding bounds
bounds-Tight ds (some i) (some k) f l = (
  λ j e. (omega (arith, f.1 j e), omega (arith, l.1 j e)),
  (i, omega arith, f.0),
  (k, omega arith, l.0),
)
bounds-Tight ds none last f l = f
bounds-Tight ds (some i) none f l = l

-- There are no bounds just when no pair of rows is dirty. Otherwise they hold both rows of every dirty pair,
-- and start with a dirty pair and end with one.
pub row_bounds-Tight : (m : DirtyMap) → Tight m.pairs (row_bounds m)
unfolding row_bounds
row_bounds-Tight m =
    bounds-Tight m.pairs (position m.pairs) (rposition m.pairs) (position-IsFirst m.pairs)
      (rposition-IsLast m.pairs)
