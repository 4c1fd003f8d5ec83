-- ===== src/Protocol/Files.antt =====
-- shared/protocol/src/files.rs: file names that a peer sends, reduced to one safe component of a path. A
-- name is a list of the codes of its characters. Whether a file exists is a parameter.
pub mod Names
pub mod Destination
mod Examples
use nebula_display.Prelude.{
  ℕ, zero, suc, ◌+◌, ◌-◌, ◌*◌, ◌/◌, ◌%◌, ◌≤◌, ◌<◌, ◌≡◌, refl, sym, ap, ◌∙◌, ◌≢◌, ◌⊎◌, inl, inr,
  Bool, true, false, not, ◌&&◌, ◌||◌, Option, none, some, List, [], ◌∷◌, ◌++◌, map, arith, ltb,
  ◌==◌, if◌then◌else◌, Bool-cases, length, All, codes,
}

abbrev pub is_separator : ℕ → Bool
is_separator c = (c == b'/') || (c == 0x5c)

-- The final component: what stands behind the last separator.
unfoldable pub final_component : List ℕ → List ℕ → List ℕ
final_component seen [] = seen
final_component seen (c ∷ cs) = elim (is_separator c) [
  | true ↦ final_component [] cs
  | false ↦ final_component (seen ++ c ∷ []) cs
]

-- `< > : " | ? *`.
abbrev pub is_reserved : ℕ → Bool
is_reserved c =
    (c == b'<')
    || ((c == b'>')
        || ((c == b':') || ((c == 0x22) || ((c == b'|') || ((c == b'?') || (c == b'*'))))))

abbrev pub cleaned : ℕ → ℕ
cleaned c = if is_reserved c || ltb c 0x20 then b'_' else c

abbrev pub is_trimmed : ℕ → Bool
is_trimmed c = (c == 0x20) || (c == b'.')

-- `trim_matches`, from both ends.
unfoldable pub trim_front : List ℕ → List ℕ
trim_front [] = []
trim_front (c ∷ cs) = elim (is_trimmed c) [ true ↦ trim_front cs | false ↦ c ∷ cs ]

snoc_trimmed : ℕ → List ℕ → List ℕ
snoc_trimmed c [] = if is_trimmed c then [] else c ∷ []
snoc_trimmed c (d ∷ ds) = c ∷ d ∷ ds

unfoldable pub trim_back : List ℕ → List ℕ
unfolding snoc_trimmed
trim_back [] = []
trim_back (c ∷ cs) = snoc_trimmed c (trim_back cs)

-- The name, or a placeholder. (A name of dots only has been trimmed to nothing.)
or_unnamed : List ℕ → List ℕ
or_unnamed [] = codes "unnamed-file"
or_unnamed (c ∷ cs) = c ∷ cs

-- `sanitize_filename`.
unfoldable pub sanitize_filename : List ℕ → List ℕ
unfolding or_unnamed
sanitize_filename name = or_unnamed (trim_back (trim_front (map cleaned (final_component [] name))))

-- `rsplit_once('.')` as far as it is used: the stem and the extension with its dot.
split_at_dot : List ℕ → List ℕ → Option (List ℕ × List ℕ) → Option (List ℕ × List ℕ)
split_at_dot seen [] best = best
split_at_dot seen (c ∷ cs) best = elim (c == b'.') [
  | true ↦ split_at_dot (seen ++ c ∷ []) cs (some (seen, c ∷ cs))
  | false ↦ split_at_dot (seen ++ c ∷ []) cs best
]

whole_or : List ℕ → Option (List ℕ × List ℕ) → List ℕ × List ℕ
whole_or name none = (name, [])
whole_or name (some ([], ext)) = (name, [])
whole_or name (some (c ∷ cs, ext)) = (c ∷ cs, ext)

unfoldable pub stem_and_extension : List ℕ → List ℕ × List ℕ
unfolding split_at_dot whole_or
stem_and_extension name = whole_or name (split_at_dot [] name none)

-- A number below 10 ^ 20 in decimal digits.
decimal_digits : ℕ → ℕ → List ℕ
decimal_digits zero n = []
decimal_digits (suc k) n =
    let front = decimal_digits k (n / 10) in
    if ltb n 10 then (b'0' + n) ∷ [] else front ++ (b'0' + n % 10) ∷ []

-- `{stem} ({i}){ext}`.
unfoldable pub numbered : List ℕ → List ℕ → ℕ → List ℕ
unfolding decimal_digits
numbered stem ext i = stem ++ (codes " (" ++ (decimal_digits 20 i ++ (codes ")" ++ ext)))

module _ (present : List ℕ → Bool) where
  -- The loop over the numbers from `i` on, with those that are left.
  unfoldable pub first_free : List ℕ → List ℕ → ℕ → ℕ → Option (List ℕ)
  first_free stem ext i zero = none
  first_free stem ext i (suc left) = elim (present (numbered stem ext i)) [
    | true ↦ first_free stem ext (i + 1) left
    | false ↦ some (numbered stem ext i)
  ]

  free_or : List ℕ → Option (List ℕ) → List ℕ
  free_or fallback none = fallback
  free_or fallback (some name) = name

  -- `unique_destination`, by the names in the directory and the time in seconds.
  unfoldable pub unique_destination : List ℕ → ℕ → List ℕ
  unfolding free_or
  unique_destination name unix =
      let (stem, ext) = stem_and_extension name in
      if present name then free_or (numbered stem ext unix) (first_free stem ext 1 9_999) else name
