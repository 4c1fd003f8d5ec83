-- ===== src/Host/Clipboard.antt =====
-- host/service/src/clipboard.rs: `ClipboardSync`. A text is the list of its bytes. The hash of a text is a
-- parameter; what the clipboard of the system holds and whether it can be set are arguments.
pub mod Changes
mod Examples
use nebula_display.Prelude.{
  ℕ, ◌+◌, ◌*◌, ◌≤◌, ◌<◌, ◌≡◌, refl, sym, ap, ◌∙◌, ◌≢◌, ◌⊎◌, inl, inr, Bool, true, false, not, ◌&&◌,
  ◌||◌, Option, none, some, List, [], ◌∷◌, ◌++◌, arith, ltb, ◌==◌, if◌then◌else◌, Bool-cases,
  length, list_eq, list_eq→eq, list_eq_refl, Result, ok, err,
}
use nebula_display.Host.Trust.{IoError, io_error}

abbrev pub clipboard_max_bytes : ℕ
clipboard_max_bytes = 256 * 1024

pub record ClipboardSync : Type 0 where
  pub last_seen_hash : Option ℕ

-- `*last == Some(hash)`.
abbrev pub is_last : Option ℕ → ℕ → Bool
is_last none h = false
is_last (some g) h = g == h

module _ (text_hash : List ℕ → ℕ) where
  -- `apply_from_viewer`: the state, the text that the clipboard is asked to take, and the result.
  unfoldable pub apply_from_viewer :
      ClipboardSync → List ℕ → Bool → ClipboardSync × Option (List ℕ) × Result IoError Bool
  apply_from_viewer s text writable =
      if ltb clipboard_max_bytes (length text) then (s, none, ok false) else (
        record { last_seen_hash = some (text_hash text) },
        some text,
        (if writable then ok true else err io_error),
      )

  -- A text whose hash is not the last one is published, unless it is the first that is seen.
  observe : ClipboardSync → List ℕ → ClipboardSync × Option (List ℕ)
  observe s text = if is_last s.last_seen_hash (text_hash text) then (s, none) else (
    record { last_seen_hash = some (text_hash text) },
    elim s.last_seen_hash [ none ↦ none | some h ↦ some text ],
  )

  poll_text : ClipboardSync → Option (List ℕ) → ClipboardSync × Option (List ℕ)
  unfolding observe
  poll_text s none = (s, none)
  poll_text s (some text) =
      if (length text == 0) || ltb clipboard_max_bytes (length text)
      then (s, none)
      else observe s text

  -- `poll_host_change`, with the text that the clipboard holds.
  unfoldable pub poll_host_change :
      ClipboardSync → Option (List ℕ) → ClipboardSync × Option (List ℕ)
  unfolding poll_text
  poll_host_change s held = poll_text s held
