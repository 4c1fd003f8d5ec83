-- ===== src/Host/Session/Arrivals.antt =====
-- A file that a viewer sends arrives whole and as it was offered, or not at all.
use nebula_display.Prelude.{
  ℕ, ◌≤◌, ◌≡◌, ◌≢◌, Bool, if◌then◌else◌, Option, none, some, List, [], ◌∷◌, map, length, text_eq,
  lookup, Result, ok, err,
}
use nebula_display.Viewer.Receive.{Codecs, Files, Reason, to_lower}
use nebula_display.Host.Session.{ActiveTransfer, Env}
use nebula_display.Host.Session.Inbound.{part_path, apply_chunk}

-- The chunks of a transfer, in the order of their arrival, each with what the environment does; the first
-- one that is refused ends the transfer.
unfoldable pub apply_chunks :
    Codecs
    → List (Env × ℕ × List ℕ)
    → Result Reason (Files × ActiveTransfer)
    → Result Reason (Files × ActiveTransfer)
apply_chunks c cs (err reason) = err reason
apply_chunks c [] (ok x) = ok x
apply_chunks c ((env, seq, data_b64) ∷ cs) (ok (files, t)) =
    apply_chunks c cs (apply_chunk c env files t seq data_b64)

-- The partial file has what was hashed, as much as was counted, and no more than was offered.
record IsReceiving (name path sha256 : List ℕ) (size : ℕ) (files : Files) (t : ActiveTransfer)
    : Type 0 where
  on_disk : lookup t.part_path files ≡ some t.hashed
  counted : length t.hashed ≡ t.received
  within : t.received ≤ size
  offered_size : t.expected_size ≡ size
  offered_hash : t.expected_sha256 ≡ sha256
  same_path : t.part_path ≡ path
  same_name : t.final_name ≡ name

-- A result, if it is one, is a transfer in progress.
abbrev Receives :
    (name path sha256 : List ℕ) → (size : ℕ) → Result Reason (Files × ActiveTransfer) → Type 0
Receives name path sha256 size (ok (files, t)) = IsReceiving name path sha256 size files t
Receives name path sha256 size (err reason) = Unit {0}

-- What the end of a transfer promises: on success the file has a final name and is the offered one; on a
-- failure the partial file is gone, or is as it was when it cannot be removed. No other file changes.
abbrev pub Completed :
    Codecs
    → (removed : Bool) → (path sha256 : List ℕ) → (size : ℕ) → Files
    → Files × Result Reason (List ℕ)
    → Type 0
Completed c removed path sha256 size files (files', ok dest) =
    ((bytes : List ℕ) × (lookup dest files' ≡ some bytes)
      × (length bytes ≡ size)
      × (c.hex.encode (c.hasher.sha256 bytes) ≡ map to_lower sha256))
    × ((n : List ℕ) → dest ≢ n → path ≢ n → lookup n files' ≡ lookup n files)
Completed c removed path sha256 size files (files', err reason) =
    (lookup path files' ≡ (if removed then none else lookup path files))
    × ((n : List ℕ) → path ≢ n → lookup n files' ≡ lookup n files)

abbrev Opened : (name path sha256 : List ℕ) → (size : ℕ) → Option (Files × ActiveTransfer) → Type 0
Opened name path sha256 size none = Unit {0}
Opened name path sha256 size (some (files, t)) = IsReceiving name path sha256 size files t
