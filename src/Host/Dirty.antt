-- ===== src/Host/Dirty.antt =====
-- host/service/src/encode/dirty.rs: `DirtyTracker`, which compares a frame with the one before it by pairs of
-- rows. A frame is the list of its bytes, four for each pixel.
pub mod Exact
pub mod Bounds
mod Examples
use nebula_display.Prelude.{
  ℕ, zero, suc, ◌+◌, ◌-◌, ◌*◌, ◌/◌, Bool, true, false, not, ◌&&◌, ◌||◌, Option, none, some, List,
  [], ◌∷◌, ◌++◌, ltb, ◌==◌, if◌then◌else◌, length, set, take, drop, replicate, list_eq,
}

pub record DirtyMap : Type 0 where
  pub pairs : List Bool
  pub dirty_pairs : ℕ
  pub total_pairs : ℕ

pub record DirtyTracker : Type 0 where
  pub prev : List ℕ
  pub w : ℕ
  pub h : ℕ
  pub valid : Bool

abbrev pub new_tracker : DirtyTracker
new_tracker = record { prev = []; w = 0; h = 0; valid = false }

abbrev pub is_static : DirtyMap → Bool
is_static m = m.dirty_pairs == 0

abbrev pub all_dirty : DirtyMap → Bool
all_dirty m = m.dirty_pairs == m.total_pairs

-- `position` and `rposition` of a set flag.
unfoldable pub position : List Bool → Option ℕ
position [] = none
position (true ∷ ds) = some 0
position (false ∷ ds) = elim (position ds) [ none ↦ none | some i ↦ some (suc i) ]

unfoldable pub rposition : List Bool → Option ℕ
rposition [] = none
rposition (d ∷ ds) = elim (rposition ds) [
  | none ↦ if d then some 0 else none
  | some i ↦ some (suc i)
]

bounds : Option ℕ → Option ℕ → Option (ℕ × ℕ)
bounds (some first) (some last) = some (first * 2, (last + 1) * 2)
bounds _ _ = none

unfoldable pub row_bounds : DirtyMap → Option (ℕ × ℕ)
unfolding bounds
row_bounds m = bounds (position m.pairs) (rposition m.pairs)

-- The first `count` pieces of `size` bytes, and what is left.
unfoldable pub pieces : (size count : ℕ) → List ℕ → List (List ℕ)
pieces size zero bytes = []
pieces size (suc count) bytes = take size bytes ∷ pieces size count (drop size bytes)

-- `chunks_exact(size)`, for a size that is not 0.
abbrev pub chunks_exact : ℕ → List ℕ → List (List ℕ)
chunks_exact size bytes = pieces size (length bytes / size) bytes

abbrev pub concat : List (List ℕ) → List ℕ
concat [] = []
concat (p ∷ ps) = p ++ concat ps

-- The flags, the new pieces of the copy and the number of dirty pairs.
pub record Diff : Type 0 where
  pub flags : List Bool
  pub copied : List (List ℕ)
  pub dirty : ℕ

keep_piece : List ℕ → Option Diff → Option Diff
keep_piece p none = none
keep_piece p (some d) = some (record d { copied = p ∷ d.copied })

copy_piece : List ℕ → Option Diff → Option Diff
copy_piece c none = none
copy_piece c (some d) = some (record d { copied = c ∷ d.copied; dirty = suc d.dirty })

-- The loop over the pieces of both frames, of which the longer one's last pieces are left out. An index past
-- the flags panics: none.
unfoldable pub diff_loop : ℕ → List Bool → (cur prev : List (List ℕ)) → Option Diff
unfolding keep_piece copy_piece
diff_loop i flags (c ∷ cs) (p ∷ ps) =
    if list_eq c p
    then keep_piece p (diff_loop (suc i) flags cs ps)
    else if ltb i (length flags)
    then copy_piece c (diff_loop (suc i) (set flags i true) cs ps)
    else none
diff_loop i flags cs ps = some (record { flags = flags; copied = ps; dirty = 0 })

finish : DirtyTracker → (size total_pairs : ℕ) → Option Diff → Option (DirtyTracker × DirtyMap)
finish t size total_pairs none = none
finish t size total_pairs (some d) = some (
  record t { prev = concat d.copied ++ drop (length t.prev / size * size) t.prev },
  record { pairs = d.flags; dirty_pairs = d.dirty; total_pairs = total_pairs },
)

-- The frame is compared with the copy. A width of 0 panics.
compare_with : DirtyTracker → List ℕ → ℕ → ℕ → Option (DirtyTracker × DirtyMap)
unfolding finish
compare_with t bgra size total_pairs =
    if size == 0
    then none
    else finish t size total_pairs (
        diff_loop 0 (replicate total_pairs false) (chunks_exact size bgra)
          (chunks_exact size t.prev))

first_frame : DirtyTracker → List ℕ → ℕ → Option (DirtyTracker × DirtyMap)
first_frame t bgra total_pairs = some (
  record t { prev = bgra; valid = true },
  record {
    pairs = replicate total_pairs true;
    dirty_pairs = total_pairs;
    total_pairs = total_pairs;
  },
)

-- `update`: none when it panics.
unfoldable pub update : DirtyTracker → List ℕ → (w h : ℕ) → Option (DirtyTracker × DirtyMap)
unfolding first_frame compare_with
update t bgra w h =
    if not (t.w == w) || not (t.h == h)
    then first_frame (record t { prev = []; w = w; h = h; valid = false }) bgra (h / 2)
    else if t.valid
    then compare_with t bgra (w * 4 * 2) (h / 2)
    else first_frame t bgra (h / 2)
