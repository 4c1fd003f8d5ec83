-- ===== src/Protocol/Files/Names.antt =====
-- A sanitized name is one component of a path that says nothing to the system.
use nebula_display.Prelude.{
  ℕ, ◌≤◌, ◌≡◌, refl, sym, ap₂, ◌∙◌, ◌⊎◌, inl, inr, false, List, [], ◌∷◌, ◌++◌, map, arith,
  Bool-cases, All, All-append, append_assoc, append-nil,
}
use nebula_display.Protocol.Files.{
  is_separator, final_component, is_reserved, cleaned, is_trimmed, trim_front, snoc_trimmed,
  trim_back, or_unnamed, sanitize_filename,
}

-- A character that neither separates components nor is reserved, and is not below 0x20.
abbrev pub IsPlain : ℕ → Type 0
IsPlain c = (is_separator c ≡ false) × (is_reserved c ≡ false) × (0x20 ≤ c)

abbrev NoSeparator : ℕ → Type 0
NoSeparator c = is_separator c ≡ false

-- The first and the last character are neither a space nor a dot, and there is one.
abbrev pub StartsWell : List ℕ → Type 0
StartsWell [] = ⊥
StartsWell (c ∷ cs) = is_trimmed c ≡ false

abbrev pub EndsWell : List ℕ → Type 0
EndsWell [] = ⊥
EndsWell (c ∷ []) = is_trimmed c ≡ false
EndsWell (c ∷ d ∷ ds) = EndsWell (d ∷ ds)

final_component-All :
    (seen cs : List ℕ) → All NoSeparator seen → All NoSeparator (final_component seen cs)
unfolding final_component
final_component-All seen [] h = h
final_component-All seen (c ∷ cs) h = elim (Bool-cases (is_separator c)) [
  | inl e ↦ rw (e, final_component) (final_component-All [] cs tt)
  | inr e ↦
      rw (e, final_component)
        (final_component-All (seen ++ c ∷ []) cs (All-append NoSeparator seen (c ∷ []) h (e, tt)))
]

cleaned-IsPlain : (c : ℕ) → NoSeparator c → IsPlain (cleaned c)
cleaned-IsPlain c h = ground arith

map-cleaned : (cs : List ℕ) → All NoSeparator cs → All IsPlain (map cleaned cs)
map-cleaned [] h = tt
map-cleaned (c ∷ cs) h = (cleaned-IsPlain c h.0, map-cleaned cs h.1)

front-All : (P : ℕ → Type 0) (cs : List ℕ) → All P cs → All P (trim_front cs)
unfolding trim_front
front-All P [] h = tt
front-All P (c ∷ cs) h = elim (Bool-cases (is_trimmed c)) [
  | inl e ↦ rw (e, trim_front) (front-All P cs h.1)
  | inr e ↦ rw (e, trim_front) h
]

snoc-All : (P : ℕ → Type 0) (c : ℕ) (cs : List ℕ) → P c → All P cs → All P (snoc_trimmed c cs)
unfolding snoc_trimmed
snoc-All P c [] h hs = elim (Bool-cases (is_trimmed c)) [ inl e ↦ rw e tt | inr e ↦ rw e (h, tt) ]
snoc-All P c (d ∷ ds) h hs = (h, hs)

back-All : (P : ℕ → Type 0) (cs : List ℕ) → All P cs → All P (trim_back cs)
unfolding trim_back
back-All P [] h = tt
back-All P (c ∷ cs) h = snoc-All P c (trim_back cs) h.0 (back-All P cs h.1)

-- What is left after trimming the front starts well, or nothing is left.
front_cases : (cs : List ℕ) → (trim_front cs ≡ []) ⊎ StartsWell (trim_front cs)
unfolding trim_front
front_cases [] = inl refl
front_cases (c ∷ cs) = elim (Bool-cases (is_trimmed c)) [
  | inl e ↦ rw (e, trim_front) (front_cases cs)
  | inr e ↦ inr (rw (e, trim_front) e)
]

snoc_ends :
    (c : ℕ) (cs : List ℕ)
    → (cs ≡ []) ⊎ EndsWell cs
    → (snoc_trimmed c cs ≡ []) ⊎ EndsWell (snoc_trimmed c cs)
unfolding snoc_trimmed
snoc_ends c [] h = elim (Bool-cases (is_trimmed c)) [
  | inl e ↦ inl (rw e refl)
  | inr e ↦ inr (rw (e, e) refl)
]
snoc_ends c (d ∷ ds) h = ground arith

back_cases : (cs : List ℕ) → (trim_back cs ≡ []) ⊎ EndsWell (trim_back cs)
unfolding trim_back
back_cases [] = inl refl
back_cases (c ∷ cs) = snoc_ends c (trim_back cs) (back_cases cs)

snoc_starts : (c : ℕ) (cs : List ℕ) → is_trimmed c ≡ false → StartsWell (snoc_trimmed c cs)
unfolding snoc_trimmed
snoc_starts c [] h = rw (h, h) refl
snoc_starts c (d ∷ ds) h = h

back_starts : (cs : List ℕ) → StartsWell cs → StartsWell (trim_back cs)
unfolding trim_back
back_starts [] h = h
back_starts (c ∷ cs) h = snoc_starts c (trim_back cs) h

-- A name that a system takes as one file in the directory, never as a step up or down.
abbrev pub IsSafeName : List ℕ → Type 0
IsSafeName cs = All IsPlain cs × StartsWell cs × EndsWell cs

or_unnamed-IsSafeName :
    (cs : List ℕ)
    → All IsPlain cs
    → (cs ≡ []) ⊎ (StartsWell cs × EndsWell cs)
    → IsSafeName (or_unnamed cs)
unfolding or_unnamed
or_unnamed-IsSafeName [] h e = ground arith
or_unnamed-IsSafeName (c ∷ cs) h (inl e) = absurd cc
or_unnamed-IsSafeName (c ∷ cs) h (inr e) = (h, e.0, e.1)

-- Whatever name a peer sends, the sanitized one is not empty, has no separator, no reserved character and
-- none below 0x20, and neither starts nor ends with a space or a dot; so it is no path and neither `.` nor
-- `..`.
pub sanitize_filename-IsSafeName : (name : List ℕ) → IsSafeName (sanitize_filename name)
unfolding sanitize_filename trim_back
sanitize_filename-IsSafeName name =
    let base = map cleaned (final_component [] name) in
    let front = trim_front base in
    or_unnamed-IsSafeName (trim_back front)
      (back-All IsPlain front (
        front-All IsPlain base
          (map-cleaned (final_component [] name) (final_component-All [] name tt))))
      (elim (front_cases base) [
        | inl e ↦ inl (rw e refl)
        | inr starts ↦ elim (back_cases front) [
          | inl e ↦ inl e
          | inr ends ↦ inr (back_starts front starts, ends)
        ]
      ])

no_separator : (seen cs : List ℕ) → All IsPlain cs → final_component seen cs ≡ seen ++ cs
unfolding final_component
no_separator seen [] h = sym (append-nil seen)
no_separator seen (c ∷ cs) h =
    rw (h.0.0, final_component)
      (no_separator (seen ++ c ∷ []) cs h.1 ∙ append_assoc seen (c ∷ []) cs)

cleaned_plain : (cs : List ℕ) → All IsPlain cs → map cleaned cs ≡ cs
cleaned_plain [] h = refl
cleaned_plain (c ∷ cs) h =
    let same : cleaned c ≡ c = ground arith in ap₂ ◌∷◌ same (cleaned_plain cs h.1)

front_well : (cs : List ℕ) → StartsWell cs → trim_front cs ≡ cs
unfolding trim_front
front_well [] h = refl
front_well (c ∷ cs) h = rw (h, trim_front) refl

back_well : (cs : List ℕ) → EndsWell cs → trim_back cs ≡ cs
unfolding trim_back snoc_trimmed
back_well [] h = refl
back_well (c ∷ []) h = rw h refl
back_well (c ∷ d ∷ ds) h = rw (back_well (d ∷ ds) h) refl

or_unnamed_well : (cs : List ℕ) → StartsWell cs → or_unnamed cs ≡ cs
unfolding or_unnamed
or_unnamed_well [] h = absurd h
or_unnamed_well (c ∷ cs) h = refl

-- A safe name is left as it is; so sanitizing twice is sanitizing once.
pub sanitize_filename_safe : (name : List ℕ) → IsSafeName name → sanitize_filename name ≡ name
unfolding sanitize_filename
sanitize_filename_safe name (plain, starts, ends) =
    rw
      (
        no_separator [] name plain,
        cleaned_plain name plain,
        front_well name starts,
        back_well name ends,
      )
      (or_unnamed_well name starts)
