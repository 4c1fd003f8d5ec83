-- ===== src/Host/Dirty/Examples.antt =====
-- Runs of the theorems on frames of one column and three rows: the last row belongs to no pair.
use nebula_display.Prelude.{ℕ, ◌≡◌, refl, true, false, some, List, [], ◌∷◌, arith, list_eq}
use nebula_display.Host.Dirty.{
  DirtyMap, DirtyTracker, position, rposition, bounds, row_bounds, pieces, update,
}
use nebula_display.Host.Dirty.Exact.{report, IsTracking, update_exact}

abbrev frame : List ℕ
frame = 1 ∷ 1 ∷ 1 ∷ 1 ∷ 2 ∷ 2 ∷ 2 ∷ 2 ∷ 3 ∷ 3 ∷ 3 ∷ 3 ∷ []

-- The second row is another.
abbrev changed : List ℕ
changed = 1 ∷ 1 ∷ 1 ∷ 1 ∷ 2 ∷ 2 ∷ 9 ∷ 2 ∷ 3 ∷ 3 ∷ 3 ∷ 3 ∷ []

-- The last row is another.
abbrev last_changed : List ℕ
last_changed = 1 ∷ 1 ∷ 1 ∷ 1 ∷ 2 ∷ 2 ∷ 2 ∷ 2 ∷ 3 ∷ 9 ∷ 3 ∷ 3 ∷ []

abbrev tracker : DirtyTracker
tracker = record { prev = frame; w = 1; h = 3; valid = true }

tracker-IsTracking : IsTracking tracker frame 1 3
tracker-IsTracking = record { valid = refl; width = refl; height = refl; sized = refl; rows = refl }

update_exact_example :
    (t' : DirtyTracker) × (update tracker changed 1 3 ≡ some (t', report 1 3 changed frame))
    × IsTracking t' changed 1 3
update_exact_example = update_exact 1 3 (omega arith) tracker changed frame refl tracker-IsTracking

report_runs :
    report 1 3 changed frame ≡ record { pairs = true ∷ []; dirty_pairs = 1; total_pairs = 1 }
unfolding pieces list_eq
report_runs = refl

-- A change of the last row of an odd height is not seen.
last_row_unseen :
    report 1 3 last_changed frame ≡ record { pairs = false ∷ []; dirty_pairs = 0; total_pairs = 1 }
unfolding pieces list_eq
last_row_unseen = refl

abbrev two_dirty : DirtyMap
two_dirty = record {
  pairs = false ∷ true ∷ false ∷ true ∷ false ∷ [];
  dirty_pairs = 2;
  total_pairs = 5;
}

row_bounds_runs : row_bounds two_dirty ≡ some (2, 8)
unfolding row_bounds bounds position rposition
row_bounds_runs = refl
