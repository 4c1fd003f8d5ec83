-- ===== src/Protocol/Files/Destination.antt =====
-- A received file does not overwrite another.
use nebula_display.Prelude.{
  ℕ, zero, suc, ◌+◌, ◌≤◌, ◌<◌, ◌≡◌, refl, ◌⊎◌, inl, inr, Bool, true, false, none, some, List, arith,
  Bool-cases,
}
use nebula_display.Protocol.Files.{
  numbered, stem_and_extension, first_free, free_or, unique_destination,
}

module _ (present : List ℕ → Bool) where
  -- Every name with a number from `i` on, below `top`, is taken.
  abbrev pub AllTaken : List ℕ → List ℕ → ℕ → ℕ → Type 0
  AllTaken stem ext i top = (k : ℕ) → i ≤ k → k < top → present (numbered stem ext k) ≡ true

  first_free_cases :
      (stem ext : List ℕ) (i left : ℕ)
      → ((r : List ℕ) × (first_free present stem ext i left ≡ some r) × (present r ≡ false))
        ⊎ ((first_free present stem ext i left ≡ none) × AllTaken stem ext i (i + left))
  unfolding first_free
  first_free_cases stem ext i zero = inr (refl, λ k lo hi. absurd (omega arith))
  first_free_cases stem ext i (suc left) = elim (Bool-cases (present (numbered stem ext i))) [
    | inl e ↦ elim (first_free_cases stem ext (i + 1) left) [
      | inl (r, found, free) ↦ inl (r, rw (e, first_free) found, free)
      | inr (nothing, taken) ↦
          inr (rw (e, first_free) nothing, λ k lo hi. ground (arith, e, taken k))
    ]
    | inr e ↦ inl (numbered stem ext i, rw (e, first_free) refl, e)
  ]

  -- The chosen name is one that no file has, unless the name itself and all of its 9,999 numbered variants
  -- are taken.
  pub unique_destination_free :
      (name : List ℕ) (unix : ℕ)
      → let (stem, ext) = stem_and_extension name in
        (present (unique_destination present name unix) ≡ false)
        ⊎ ((present name ≡ true) × AllTaken stem ext 1 10_000)
  unfolding unique_destination free_or
  unique_destination_free name unix =
      let (stem, ext) = stem_and_extension name in
      elim (Bool-cases (present name)) [
        | inl e ↦ elim (first_free_cases stem ext 1 9_999) [
          | inl (r, found, free) ↦ inl (rw (e, found) free)
          | inr (nothing, taken) ↦ inr (e, taken)
        ]
        | inr e ↦ inl (rw (e, e) refl)
      ]
