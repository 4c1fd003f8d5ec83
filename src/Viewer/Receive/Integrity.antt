-- ===== src/Viewer/Receive/Integrity.antt =====
-- What is received is what was offered.
use nebula_display.Prelude.{ℕ, ◌≡◌, ◌≢◌, Option, none, some, List, length, text_eq, lookup}
use nebula_display.Viewer.Receive.{
  Codecs, file_done, Active, FileReceiver, Status, Handled, consumed,
}

-- What `file_done` promises of a transfer: the file has its final name, with the bytes that were offered.
abbrev pub Delivered : Codecs → FileReceiver → FileReceiver → Active → Type 0
Delivered c r r' a =
    (dest : List ℕ) × (bytes : List ℕ) × (lookup dest r'.files ≡ some bytes)
    × (length bytes ≡ a.expected_size)
    × (c.hex.encode (c.hasher.sha256 bytes) ≡ a.expected_sha256)
    × (r'.active ≡ none)
    × ((name : List ℕ)
        → name ≢ dest
        → name ≢ a.part_path
        → lookup name r'.files ≡ lookup name r.files)

abbrev Answered : FileReceiver × Handled → FileReceiver → List ℕ → Option Status → Type 0
Answered x r' id st = x ≡ (r', consumed (some (file_done id)) st)
