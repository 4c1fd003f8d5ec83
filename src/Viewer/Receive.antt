-- ===== src/Viewer/Receive.antt =====
-- viewer/desktop/src/receive.rs: files that the host sends to a desktop viewer. The files of the directory
-- are a field of the receiver, by their names there; nothing else is supposed to change the one that is
-- being received. What the file system reports is in `Io`, hashing, hex and base64 are in `Codecs`.
pub mod Consistency
pub mod Integrity
mod Examples
use nebula_display.Prelude.{
  ℕ, zero, suc, ◌+◌, ◌-◌, ◌*◌, ◌%◌, ◌^◌, ◌≤◌, ◌<◌, ◌≡◌, refl, sym, ap, subst, ◌∙◌, ◌≢◌, ◌⊎◌, inl,
  inr, Bool, true, false, not, ◌&&◌, ◌||◌, Option, none, some, List, [], ◌∷◌, ◌++◌, map, arith, ltb,
  leb, ◌==◌, if◌then◌else◌, Bool-cases, Option-cases, length, take, keep, list_eq, list_eq→eq,
  list_eq-of_ne, codes, text_eq, lookup, insert, remove, lookup-insert, lookup-remove,
  lookup-insert_self, lookup-insert_ne, lookup-remove_self, lookup-remove_ne,
}
use nebula_display.Protocol.Crypto.{Hasher}
use nebula_display.Protocol.Files.{sanitize_filename, unique_destination}
use nebula_display.Host.Trust.{Hex}
use Prim.Native.String.{String}

abbrev pub max_receive_bytes : ℕ
max_receive_bytes = 2048 * 1024 * 1024

abbrev pub file_chunk_bytes : ℕ
file_chunk_bytes = 256 * 1024

-- What the code uses of the crates sha2, hex and base64.
pub record Codecs : Type 0 where
  pub hasher : Hasher
  pub hex : Hex
  pub b64_decode : List ℕ → Option (List ℕ)

-- Whether each call of the file system succeeds, and the time.
pub record Io : Type 0 where
  pub dir_made : Bool
  pub opened : Bool
  pub chunk_written : Bool
  pub flushed : Bool
  pub renamed : Bool
  pub unix : ℕ

pub data Reason : Type 0 where
  text : String → Reason
  out_of_order : (expected got : ℕ) → Reason
  size_mismatch : (received expected : ℕ) → Reason
  io_failed : String → Reason

pub data FileMsg : Type 0 where
  file_offer : (id name : List ℕ) → (size_bytes : ℕ) → (sha256 : List ℕ) → FileMsg
  file_answer : (id : List ℕ) → (accept : Bool) → Option Reason → FileMsg
  file_chunk : (id : List ℕ) → (seq : ℕ) → (data_b64 : List ℕ) → FileMsg
  file_end : (id : List ℕ) → FileMsg
  file_done : (id : List ℕ) → FileMsg
  file_abort : (id : List ℕ) → Reason → FileMsg
  other_msg : FileMsg

pub record Active : Type 0 where
  pub id : List ℕ
  pub part_path : List ℕ
  pub final_name : List ℕ
  pub expected_size : ℕ
  pub expected_sha256 : List ℕ
  pub hashed : List ℕ
  pub received : ℕ
  pub next_seq : ℕ

abbrev pub Files : Type 0
Files = List (List ℕ × List ℕ)

-- `FileReceiver`, with the files of its directory.
pub record FileReceiver : Type 0 where
  pub dir : Option (List ℕ)
  pub active : Option Active
  pub files : Files

pub data Status : Type 0 where
  receiving received_as : List ℕ → Status
  failed_for aborted_for : Reason → Status

pub data Handled : Type 0 where
  not_mine : FileMsg → Handled
  consumed : (reply : Option FileMsg) → (status : Option Status) → Handled

-- `Active::discard`.
abbrev pub discard : FileReceiver → Active → FileReceiver
discard r a = record r { active = none; files = remove a.part_path r.files }

-- `decline`.
abbrev pub decline : FileReceiver → List ℕ → String → FileReceiver × Handled
decline r id reason = (r, consumed (some (file_answer id false (some (text reason)))) none)

abbrev in_range : ℕ → ℕ → ℕ → Bool
in_range lo hi c = leb lo c && leb c hi

abbrev is_hex_digit : ℕ → Bool
is_hex_digit c = in_range b'0' b'9' c || (in_range b'a' b'f' c || in_range b'A' b'F' c)

abbrev all_hex : List ℕ → Bool
all_hex [] = true
all_hex (c ∷ cs) = is_hex_digit c && all_hex cs

abbrev pub to_lower : ℕ → ℕ
to_lower c = if in_range b'A' b'Z' c then c + 32 else c

abbrev is_part_char : ℕ → Bool
is_part_char c =
    in_range b'0' b'9' c || (in_range b'a' b'z' c || (in_range b'A' b'Z' c || (c == b'-')))

-- The name of the file while it is incomplete.
unfoldable pub part_name : List ℕ → List ℕ
part_name id = codes "." ++ (take 64 (keep is_part_char id) ++ codes ".part")

abbrev pub is_present : Files → List ℕ → Bool
is_present files name = elim (lookup name files) [ none ↦ false | some content ↦ true ]

-- `create_new`: a file that is there is an error.
unfoldable pub create_part :
    FileReceiver
    → Io
    → (id name : List ℕ) → (size_bytes : ℕ) → (sha256 : List ℕ) → FileReceiver × Handled
create_part r io id name size_bytes sha256 =
    if not io.opened || is_present r.files (part_name id)
    then decline r id "viewer storage error"
    else (
      record r {
        active = some (record {
          id = id;
          part_path = part_name id;
          final_name = sanitize_filename name;
          expected_size = size_bytes;
          expected_sha256 = map to_lower sha256;
          hashed = [];
          received = 0;
          next_seq = 0;
        });
        files = insert (part_name id) [] r.files;
      },
      consumed (some (file_answer id true none)) (some (receiving (sanitize_filename name))),
    )

unfoldable pub offer_idle :
    FileReceiver
    → Io
    → (id name : List ℕ) → (size_bytes : ℕ) → (sha256 : List ℕ) → FileReceiver × Handled
unfolding create_part
offer_idle r io id name size_bytes sha256 =
    if (size_bytes == 0) || ltb max_receive_bytes size_bytes
    then decline r id "size out of bounds for this viewer"
    else if not (length sha256 == 64) || not (all_hex sha256)
    then decline r id "malformed offer"
    else if not io.dir_made
    then decline r id "viewer storage error"
    else create_part r io id name size_bytes sha256

unfoldable pub offer_at :
    FileReceiver
    → Io
    → (id name : List ℕ) → (size_bytes : ℕ) → (sha256 : List ℕ) → Option (List ℕ)
    → Option Active
    → FileReceiver × Handled
unfolding offer_idle
offer_at r io id name size_bytes sha256 none active =
    decline r id "file receive not enabled (run with --receive-dir)"
offer_at r io id name size_bytes sha256 (some dir) (some a) =
    decline r id "another transfer is in progress"
offer_at r io id name size_bytes sha256 (some dir) none = offer_idle r io id name size_bytes sha256

-- `on_offer`.
unfoldable pub on_offer :
    FileReceiver
    → Io
    → (id name : List ℕ) → (size_bytes : ℕ) → (sha256 : List ℕ) → FileReceiver × Handled
unfolding offer_at
on_offer r io id name size_bytes sha256 = offer_at r io id name size_bytes sha256 r.dir r.active

-- A failed transfer is discarded and aborted.
abbrev pub fail : FileReceiver → Active → (id : List ℕ) → Reason → FileReceiver × Handled
fail r a id reason =
    (discard r a, consumed (some (file_abort id reason)) (some (failed_for reason)))

-- The bytes of a file.
abbrev pub content : Files → List ℕ → List ℕ
content files name = elim (lookup name files) [ none ↦ [] | some bytes ↦ bytes ]

unfoldable pub chunk_data :
    FileReceiver → Io → Active → (id : List ℕ) → Option (List ℕ) → FileReceiver × Handled
chunk_data r io a id none = fail r a id (text "bad chunk encoding")
chunk_data r io a id (some bytes) =
    if (length bytes == 0) || ltb file_chunk_bytes (length bytes)
    then fail r a id (text "chunk size out of bounds")
    else if ltb a.expected_size ((a.received + length bytes) % 2 ^ 64)
    then fail r a id (text "more data than offered")
    else if not io.chunk_written
    then fail r a id (io_failed "write failed")
    else (
      record r {
        active = some (record a {
          hashed = a.hashed ++ bytes;
          received = (a.received + length bytes) % 2 ^ 64;
          next_seq = (a.next_seq + 1) % 2 ^ 32;
        });
        files = insert a.part_path (content r.files a.part_path ++ bytes) r.files;
      },
      consumed none none,
    )

-- `on_chunk`, for the active transfer.
unfoldable pub on_chunk :
    Codecs
    → FileReceiver
    → Io
    → Active
    → (id : List ℕ) → (seq : ℕ) → (data_b64 : List ℕ) → FileReceiver × Handled
unfolding chunk_data
on_chunk c r io a id seq data_b64 =
    if not (seq == a.next_seq)
    then fail r a id (out_of_order a.next_seq seq)
    else chunk_data r io a id (c.b64_decode data_b64)

-- The end of `on_end`: the file gets its name.
unfoldable pub rename_part :
    FileReceiver → Io → Active → (id dest : List ℕ) → FileReceiver × Handled
rename_part r io a id dest =
    if io.renamed
    then (
      record r {
        active = none;
        files = insert dest (content r.files a.part_path) (remove a.part_path r.files);
      },
      consumed (some (file_done id)) (some (received_as dest)),
    )
    else (
      discard r a,
      consumed (some (file_abort id (io_failed "rename failed")))
          (some (failed_for (text "rename"))),
    )

-- `on_end`, for the active transfer.
unfoldable pub on_end : Codecs → FileReceiver → Io → Active → (id : List ℕ) → FileReceiver × Handled
unfolding rename_part
on_end c r io a id =
    if not (a.received == a.expected_size)
    then fail r a id (size_mismatch a.received a.expected_size)
    else if not (list_eq (c.hex.encode (c.hasher.sha256 a.hashed)) a.expected_sha256)
    then fail r a id (text "sha256 mismatch — file corrupted in transit")
    else if not io.flushed
    then fail r a id (io_failed "flush failed")
    else rename_part r io a id (unique_destination (is_present r.files) a.final_name io.unix)

-- The arms of `handle` that ask for the active transfer by its id.
unfoldable pub handle_active :
    Codecs → FileReceiver → Io → Option Active → FileMsg → FileReceiver × Handled
handle_active c r io (some a) (file_chunk id seq data_b64) =
    if list_eq a.id id
    then on_chunk c r io a id seq data_b64
    else (r, not_mine (file_chunk id seq data_b64))
handle_active c r io (some a) (file_end id) =
    if list_eq a.id id then on_end c r io a id else (r, not_mine (file_end id))
handle_active c r io (some a) (file_abort id reason) =
    if list_eq a.id id
    then (discard r a, consumed none (some (aborted_for reason)))
    else (r, not_mine (file_abort id reason))
handle_active c r io active msg = (r, not_mine msg)

-- `handle`.
unfoldable pub handle : Codecs → FileReceiver → Io → FileMsg → FileReceiver × Handled
unfolding handle_active
handle c r io (file_offer id name size_bytes sha256) = on_offer r io id name size_bytes sha256
handle c r io msg = handle_active c r io r.active msg

-- `reset`, also the drop of a receiver.
reset_active : FileReceiver → Option Active → FileReceiver
reset_active r none = r
reset_active r (some a) = discard r a

unfoldable pub reset : FileReceiver → FileReceiver
unfolding reset_active
reset r = reset_active r r.active
