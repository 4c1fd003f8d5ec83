-- ===== src/Host/Clipboard/Examples.antt =====
-- A run of the watcher, with the length of a text for its hash.
use nebula_display.Prelude.{
  ℕ, ◌≡◌, refl, sym, ap, ◌∙◌, true, none, some, List, [], ◌∷◌, length, replicate, list_eq,
}
use nebula_display.Host.Clipboard.Changes.{
  Event, polled, applied, published, changes, Apart, published-changes,
}

-- Texts of one letter, which their lengths tell apart.
abbrev OneLetter : List ℕ → Type 0
OneLetter text = text ≡ replicate (length text) b'a'

lengths_apart : Apart length OneLetter
lengths_apart a b ha hb e = ha ∙ ap (λ (n : ℕ). replicate n b'a') e ∙ sym hb

-- What was there at first, a change, a text of a viewer that is then seen, and another change.
abbrev events : List Event
events =
    polled (some (replicate 3 b'a'))
    ∷ polled (some (replicate 2 b'a'))
    ∷ applied (replicate 4 b'a') true
    ∷ polled (some (replicate 4 b'a'))
    ∷ polled (some (replicate 1 b'a'))
    ∷ []

published-changes_example :
    published length (record { last_seen_hash = none }) events ≡ changes none events
published-changes_example =
    published-changes length OneLetter lengths_apart none events tt
      (refl, (refl, ((refl, refl), (refl, (refl, tt)))))

two_changes : changes none events ≡ replicate 2 b'a' ∷ replicate 1 b'a' ∷ []
unfolding changes list_eq
two_changes = refl
