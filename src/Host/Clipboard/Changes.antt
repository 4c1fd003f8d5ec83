-- ===== src/Host/Clipboard/Changes.antt =====
-- What the watcher of the clipboard publishes, against a description that remembers the texts.
use nebula_display.Prelude.{
  ℕ, ◌≡◌, refl, ap, ◌⊎◌, inl, inr, Bool, true, false, not, ◌||◌, Option, none, some, List, [], ◌∷◌,
  arith, ltb, ◌==◌, if◌then◌else◌, Bool-cases, length, All, list_eq, list_eq→eq, list_eq_refl,
}
use nebula_display.Host.Clipboard.{
  clipboard_max_bytes, ClipboardSync, apply_from_viewer, observe, poll_text, poll_host_change,
}

-- A poll that finds some text, or a text of a viewer.
pub data Event : Type 0 where
  polled : Option (List ℕ) → Event
  applied : List ℕ → Bool → Event

abbrev followed : Option (List ℕ) → List (List ℕ) → List (List ℕ)
followed none ts = ts
followed (some t) ts = t ∷ ts

-- The texts that the host publishes while events happen.
unfoldable pub published : (List ℕ → ℕ) → ClipboardSync → List Event → List (List ℕ)
published hash s [] = []
published hash s (polled held ∷ es) =
    let r = poll_host_change hash s held in followed r.1 (published hash r.0 es)
published hash s (applied text writable ∷ es) =
    published hash (apply_from_viewer hash s text writable).0 es

abbrev pub skipped : List ℕ → Bool
skipped text = (length text == 0) || ltb clipboard_max_bytes (length text)

abbrev pub differs : Option (List ℕ) → List ℕ → Bool
differs none text = false
differs (some last) text = not (list_eq last text)

-- What should be published: a text that differs from the last one known, which may be one that a viewer
-- sent and the clipboard took; never the first that is known, and none that is empty or too long. A text
-- that the clipboard did not take says nothing of what it holds.
unfoldable pub changes : Option (List ℕ) → List Event → List (List ℕ)
changes last [] = []
changes last (polled none ∷ es) = changes last es
changes last (polled (some text) ∷ es) =
    let rest_last = changes last es in
    let rest_text = changes (some text) es in
    if skipped text then rest_last else if differs last text then text ∷ rest_text else rest_text
changes last (applied text writable ∷ es) =
    let rest_last = changes last es in
    let rest_text = changes (some text) es in
    if ltb clipboard_max_bytes (length text) || not writable then rest_last else rest_text

-- The hash of the last text.
abbrev pub hash_of : (List ℕ → ℕ) → Option (List ℕ) → Option ℕ
hash_of hash none = none
hash_of hash (some text) = some (hash text)

-- A set of texts of which no two have one hash.
abbrev pub Apart : (List ℕ → ℕ) → (List ℕ → Type 0) → Type 0
Apart hash P = (a b : List ℕ) → P a → P b → hash a ≡ hash b → a ≡ b

abbrev pub Within : (List ℕ → Type 0) → Option (List ℕ) → Type 0
Within P none = Unit {0}
Within P (some text) = P text

abbrev pub FromSet : (List ℕ → Type 0) → Event → Type 0
FromSet P (polled held) = Within P held
FromSet P (applied text writable) = P text × (writable ≡ true)

polled_step :
    (hash : List ℕ → ℕ) (P : List ℕ → Type 0) (apart : Apart hash P) (last : Option (List ℕ))
    (text : List ℕ)
    → Within P last
    → P text
    → let r = poll_host_change hash (record { last_seen_hash = hash_of hash last }) (some text) in
      ((skipped text ≡ true) × (r ≡ (record { last_seen_hash = hash_of hash last }, none)))
      ⊎ ((skipped text ≡ false)
          × (differs last text ≡ true)
          × (r ≡ (record { last_seen_hash = some (hash text) }, some text)))
      ⊎ ((skipped text ≡ false)
          × (differs last text ≡ false)
          × (r ≡ (record { last_seen_hash = some (hash text) }, none)))
unfolding poll_host_change poll_text observe
polled_step hash P apart none text k h = ground arith
polled_step hash P apart (some u) text k h =
    ground (arith, apart u text k h, list_eq→eq u text, list_eq_refl u)

poll_none :
    (hash : List ℕ → ℕ) (last : Option ℕ)
    → poll_host_change hash (record { last_seen_hash = last }) none
      ≡ (record { last_seen_hash = last }, none)
unfolding poll_host_change poll_text
poll_none hash last = refl

apply_long :
    (hash : List ℕ → ℕ) (s : ClipboardSync) (text : List ℕ) (writable : Bool)
    → ltb clipboard_max_bytes (length text) ≡ true
    → (apply_from_viewer hash s text writable).0 ≡ s
unfolding apply_from_viewer
apply_long hash s text writable e = rw e refl

apply_short :
    (hash : List ℕ → ℕ) (s : ClipboardSync) (text : List ℕ) (writable : Bool)
    → ltb clipboard_max_bytes (length text) ≡ false
    → (apply_from_viewer hash s text writable).0 ≡ record { last_seen_hash = some (hash text) }
unfolding apply_from_viewer
apply_short hash s text writable e = rw e refl

-- While no two of the texts that occur have one hash, and the clipboard takes every text of a viewer that is
-- set, the host publishes exactly the changes of its clipboard: each text that differs from the last one
-- known, once; never back to the viewers what a viewer has sent, nor what the clipboard held before the first
-- poll, nor a text that is empty or too long.
pub published-changes :
    (hash : List ℕ → ℕ) (P : List ℕ → Type 0) (apart : Apart hash P) (last : Option (List ℕ))
    (es : List Event)
    → Within P last
    → All (FromSet P) es
    → published hash (record { last_seen_hash = hash_of hash last }) es ≡ changes last es
unfolding published changes
published-changes hash P apart last [] k h = refl
published-changes hash P apart last (polled none ∷ es) k h =
    rw (poll_none hash (hash_of hash last)) (published-changes hash P apart last es k h.1)
published-changes hash P apart last (polled (some text) ∷ es) k h =
    elim (polled_step hash P apart last text k h.0) [
      | inl (skip, e) ↦ rw (e, skip) (published-changes hash P apart last es k h.1)
      | inr (inl (skip, d, e)) ↦
          rw (e, skip, d) (ap (◌∷◌ text) (published-changes hash P apart (some text) es h.0 h.1))
      | inr (inr (skip, d, e)) ↦
          rw (e, skip, d) (published-changes hash P apart (some text) es h.0 h.1)
    ]
published-changes hash P apart last (applied text writable ∷ es) k ((h, taken), later) =
    elim (Bool-cases (ltb clipboard_max_bytes (length text))) [
      | inl e ↦
          rw (apply_long hash (record { last_seen_hash = hash_of hash last }) text writable e, e)
            (published-changes hash P apart last es k later)
      | inr e ↦
          rw
            (
              apply_short hash (record { last_seen_hash = hash_of hash last }) text writable e,
              e,
              taken,
            )
            (published-changes hash P apart (some text) es h later)
    ]
