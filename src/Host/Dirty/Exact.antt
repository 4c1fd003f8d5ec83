-- ===== src/Host/Dirty/Exact.antt =====
-- The pairs of rows that are reported are those that differ from the last frame.
use nebula_display.Prelude.{
  ℕ, zero, suc, ◌+◌, ◌*◌, ◌/◌, ◌%◌, ◌≤◌, ◌<◌, ◌≡◌, refl, sym, ap, ◌∙◌, subst, ◌≢◌, ◌⊎◌, inl, inr,
  Bool, true, false, not, ◌||◌, some, List, [], ◌∷◌, ◌++◌, append_assoc, arith, ltb, ◌==◌, if_true,
  if_false, Bool-cases, length, set, take, drop, replicate, length-append, length-drop, list_eq,
  list_eq→eq, take-append_eq, drop-append_eq,
}
use nebula_display.Host.Dirty.{
  DirtyMap, DirtyTracker, pieces, chunks_exact, concat, keep_piece, copy_piece, diff_loop, finish,
  compare_with, first_frame, update,
}

-- Which pieces differ.
abbrev pub differing : (cur prev : List (List ℕ)) → List Bool
differing (c ∷ cs) (p ∷ ps) = not (list_eq c p) ∷ differing cs ps
differing cs ps = []

abbrev pub count_true : List Bool → ℕ
count_true [] = 0
count_true (true ∷ bs) = suc (count_true bs)
count_true (false ∷ bs) = count_true bs

set-append :
    (pre : List Bool) (b v : Bool) (post : List Bool)
    → set (pre ++ b ∷ post) (length pre) v ≡ (pre ++ (v ∷ [])) ++ post
set-append [] b v post = refl
set-append (x ∷ pre) b v post = ap (◌∷◌ x) (set-append pre b v post)

snoc-append :
    (pre : List Bool) (b : Bool) (post : List Bool) → pre ++ b ∷ post ≡ (pre ++ (b ∷ [])) ++ post
snoc-append [] b post = refl
snoc-append (x ∷ pre) b post = ap (◌∷◌ x) (snoc-append pre b post)

-- The loop, with the flags of the pieces before.
diff_loop_lem :
    (pre : List Bool) (i : ℕ) (cs ps : List (List ℕ))
    → length pre ≡ i
    → length cs ≡ length ps
    → diff_loop i (pre ++ replicate (length cs) false) cs ps
      ≡ some (record {
        flags = pre ++ differing cs ps;
        copied = cs;
        dirty = count_true (differing cs ps);
      })
unfolding diff_loop
diff_loop_lem pre i [] [] e l = refl
diff_loop_lem pre i [] (p ∷ ps) e l = absurd (omega arith)
diff_loop_lem pre i (c ∷ cs) [] e l = absurd (omega arith)
diff_loop_lem pre i (c ∷ cs) (p ∷ ps) e l = elim (Bool-cases (list_eq c p)) [
  | inl same ↦
      let ih =
        diff_loop_lem (pre ++ (false ∷ [])) (suc i) cs ps
          (omega (arith, length-append pre (false ∷ []))) (omega arith) in
      let eq : c ≡ p = list_eq→eq c p same in
      rw
        (
          same,
          snoc-append pre false (replicate (length cs) false),
          ih,
          keep_piece,
          snoc-append pre false (differing cs ps),
          eq,
        )
        refl
  | inr other ↦
      let ih =
        diff_loop_lem (pre ++ (true ∷ [])) (suc i) cs ps
          (omega (arith, length-append pre (true ∷ []))) (omega arith) in
      let rest = replicate (length cs) false in
      let inside : ltb i (length (pre ++ false ∷ rest)) ≡ true =
        ground (arith, length-append pre (false ∷ rest)) in
      let flag : set (pre ++ false ∷ rest) i true ≡ (pre ++ (true ∷ [])) ++ rest =
        rw (← e) (set-append pre false true rest) in
      rw (other, inside, flag, ih, copy_piece, snoc-append pre true (differing cs ps)) refl
]

div_lt : (b q r : ℕ) → r < b → (b * q + r) / b ≡ q
div_lt b q r h = grind arith

spread : (w q r : ℕ) → w * (2 * q + r) * 4 ≡ w * 4 * 2 * q + w * 4 * r
spread w q r = grind arith

pairs_count : (w h : ℕ) → 0 < w → (w * h * 4) / (w * 4 * 2) ≡ h / 2
pairs_count w h p =
    let two : h ≡ 2 * (h / 2) + h % 2 = omega arith in
    let e : w * h * 4 ≡ w * 4 * 2 * (h / 2) + w * 4 * (h % 2) =
      ap (λ x. w * x * 4) two ∙ spread w (h / 2) (h % 2) in
    rw e (div_lt (w * 4 * 2) (h / 2) (w * 4 * (h % 2)) (grind arith))

length-pieces : (size count : ℕ) (bytes : List ℕ) → length (pieces size count bytes) ≡ count
unfolding pieces
length-pieces size zero bytes = refl
length-pieces size (suc count) bytes = ap suc (length-pieces size count (drop size bytes))

length-take {ℓ} : {A : Type ℓ} (n : ℕ) (xs : List A) → n ≤ length xs → length (take n xs) ≡ n
length-take zero xs h = refl
length-take (suc n) [] h = absurd (omega arith)
length-take (suc n) (x ∷ xs) h = ap suc (length-take n xs (omega arith))

-- Pieces that are put together again, with anything after them, are the same pieces.
pieces-concat :
    (size count : ℕ) (bytes rest : List ℕ)
    → count * size ≤ length bytes
    → pieces size count (concat (pieces size count bytes) ++ rest) ≡ pieces size count bytes
unfolding pieces
pieces-concat size zero bytes rest h = refl
pieces-concat size (suc count) bytes rest h =
    let one = take size bytes in
    let more = concat (pieces size count (drop size bytes)) in
    let l : length one ≡ size = length-take size bytes (grind arith) in
    let a : (one ++ more) ++ rest ≡ one ++ (more ++ rest) = append_assoc one more rest in
    let left : count * size ≤ length (drop size bytes) = grind (arith, length-drop size bytes) in
    rw
      (
        a,
        take-append_eq size one (more ++ rest) l,
        drop-append_eq size one (more ++ rest) l,
        pieces-concat size count (drop size bytes) rest left,
      )
      refl

length-concat :
    (size count : ℕ) (bytes : List ℕ)
    → count * size ≤ length bytes
    → length (concat (pieces size count bytes)) ≡ count * size
unfolding pieces
length-concat size zero bytes h = omega arith
length-concat size (suc count) bytes h =
    let left : count * size ≤ length (drop size bytes) = grind (arith, length-drop size bytes) in
    length-append (take size bytes) (concat (pieces size count (drop size bytes)))
    ∙ grind (
      arith,
      length-take size bytes (grind arith),
      length-concat size count (drop size bytes) left,
    )

-- The pairs of rows of a frame; the last row of an odd height belongs to none.
abbrev pub row_pairs : (w h : ℕ) → List ℕ → List (List ℕ)
row_pairs w h bgra = pieces (w * 4 * 2) (h / 2) bgra

-- The tracker has seen `frame` last.
pub record IsTracking (t : DirtyTracker) (frame : List ℕ) (w h : ℕ) : Type 0 where
  pub valid : t.valid ≡ true
  pub width : t.w ≡ w
  pub height : t.h ≡ h
  pub sized : length t.prev ≡ w * h * 4
  pub rows : row_pairs w h t.prev ≡ row_pairs w h frame

-- What a tracker that has seen `old` last reports of `new`.
abbrev pub report : (w h : ℕ) → (new old : List ℕ) → DirtyMap
report w h new old = record {
  pairs = differing (row_pairs w h new) (row_pairs w h old);
  dirty_pairs = count_true (differing (row_pairs w h new) (row_pairs w h old));
  total_pairs = h / 2;
}

module _ (w h : ℕ) (wide : 0 < w) where
  -- The copy after an update holds the pairs of rows of the new frame.
  copy_rows :
      (new prev : List ℕ)
      → length new ≡ w * h * 4
      → length prev ≡ w * h * 4
      → let size = w * 4 * 2 in
        let copy = concat (row_pairs w h new) ++ drop (length prev / size * size) prev in
        (length copy ≡ w * h * 4) × (row_pairs w h copy ≡ row_pairs w h new)
  copy_rows new prev ln lp =
      let size = w * 4 * 2 in
      let n : (w * h * 4) / size ≡ h / 2 = pairs_count w h wide in
      let fits : h / 2 * size ≤ w * h * 4 = rw (← n) (grind arith) in
      let some_rows : h / 2 * size ≤ length new = rw ln fits in
      let rest = drop (length prev / size * size) prev in
      let k : length prev / size * size ≡ h / 2 * size =
        ap (λ x. x / size * size) lp ∙ ap (λ x. x * size) n in
      (
        length-append (concat (row_pairs w h new)) rest
            ∙ omega (
              arith,
              length-concat size (h / 2) new some_rows,
              length-drop (length prev / size * size) prev,
              k,
              fits,
            ),
        pieces-concat size (h / 2) new rest some_rows,
      )

  finish_lem :
      (t : DirtyTracker) (new old : List ℕ)
      → length new ≡ w * h * 4
      → IsTracking t old w h
      → (t' : DirtyTracker) × (compare_with t new (w * 4 * 2) (h / 2)
          ≡ some (t', report w h new old))
        × IsTracking t' new w h
  unfolding compare_with finish
  finish_lem t new old ln k =
      let size = w * 4 * 2 in
      let n : (w * h * 4) / size ≡ h / 2 = pairs_count w h wide in
      let cn : chunks_exact size new ≡ row_pairs w h new =
        ap (λ x. pieces size x new) (ap (λ x. x / size) ln ∙ n) in
      let cp : chunks_exact size t.prev ≡ row_pairs w h old =
        ap (λ x. pieces size x t.prev) (ap (λ x. x / size) k.sized ∙ n) ∙ k.rows in
      let t0 : (size == 0) ≡ false = grind arith in
      let ls : length (row_pairs w h new) ≡ h / 2 = length-pieces size (h / 2) new in
      let loop : diff_loop 0 (replicate (h / 2) false) (row_pairs w h new) (row_pairs w h old)
          ≡ some (record {
            flags = differing (row_pairs w h new) (row_pairs w h old);
            copied = row_pairs w h new;
            dirty = count_true (differing (row_pairs w h new) (row_pairs w h old));
          }) =
        subst
          (λ x.
            diff_loop 0 (replicate x false) (row_pairs w h new) (row_pairs w h old)
            ≡ some (record {
              flags = differing (row_pairs w h new) (row_pairs w h old);
              copied = row_pairs w h new;
              dirty = count_true (differing (row_pairs w h new) (row_pairs w h old));
            }))
          ls
          (diff_loop_lem [] 0 (row_pairs w h new) (row_pairs w h old) refl
            (ls ∙ sym (length-pieces size (h / 2) old))) in
      let copy = copy_rows new t.prev ln k.sized in
      (
        record t { prev = concat (row_pairs w h new) ++ drop (length t.prev / size * size) t.prev },
        rw (t0, cn, cp, loop) refl,
        record {
          valid = k.valid;
          width = k.width;
          height = k.height;
          sized = copy.0;
          rows = copy.1;
        },
      )

  -- A tracker that has seen a frame last, and gets another of the same size and of a width that is not 0, does
  -- not panic; it reports as dirty exactly the pairs of rows in which the two frames differ, and their number;
  -- and it has then seen the new frame last.
  pub update_exact :
      (t : DirtyTracker) (new old : List ℕ)
      → length new ≡ w * h * 4
      → IsTracking t old w h
      → (t' : DirtyTracker) × (update t new w h ≡ some (t', report w h new old))
        × IsTracking t' new w h
  unfolding update
  update_exact t new old ln k =
      let same : (not (t.w == w) || not (t.h == h)) ≡ false = ground (arith, k.width, k.height) in
      let (t', e, k') = finish_lem t new old ln k in
      (t', if_false _ _ _ same ∙ (if_true _ _ _ k.valid ∙ e), k')

  -- The first frame of a tracker, or of a new size, is dirty throughout, and is then the last one seen.
  pub first_frame_lem :
      (t : DirtyTracker) (new : List ℕ)
      → length new ≡ w * h * 4
      → ((t.valid ≡ false) ⊎ ((t.w ≢ w) ⊎ (t.h ≢ h)))
      → (t' : DirtyTracker) × (update t new w h
          ≡ some (
            t',
            record { pairs = replicate (h / 2) true; dirty_pairs = h / 2; total_pairs = h / 2 },
          ))
        × IsTracking t' new w h
  unfolding update first_frame
  first_frame_lem t new ln fresh = elim (Bool-cases (not (t.w == w) || not (t.h == h))) [
    | inl e ↦ (
      record { prev = new; w = w; h = h; valid = true },
      if_true _ _ _ e,
      record { valid = refl; width = refl; height = refl; sized = ln; rows = refl },
    )
    | inr e ↦
        let tw : t.w ≡ w = ground arith in
        let th : t.h ≡ h = ground arith in
        let v : t.valid ≡ false = ground (arith, fresh, tw, th) in
        (
          record t { prev = new; valid = true },
          if_false _ _ _ e ∙ if_false _ _ _ v,
          record { valid = refl; width = tw; height = th; sized = ln; rows = refl },
        )
  ]
