-- ===== src/Host/Session/Inbound.antt =====
-- host/service/src/session.rs: the file that a viewer sends: `open_transfer`, `apply_chunk`,
-- `finalize_transfer` and the arms of the pump that call them.
use nebula_display.Prelude.{
  ℕ, ◌+◌, ◌%◌, ◌^◌, Bool, true, false, not, ◌||◌, Option, none, some, List, [], ◌++◌, map, ltb,
  ◌==◌, if◌then◌else◌, length, list_eq, codes, text_eq, insert, remove, Result, ok, err,
}
use nebula_display.Protocol.Files.{unique_destination}
use nebula_display.Viewer.Receive.{
  Codecs, Files, Reason, text, out_of_order, size_mismatch, io_failed, to_lower, is_present,
  content, file_chunk_bytes,
}
use nebula_display.Host.Control.{file_answer, file_abort, file_done}
use nebula_display.Host.Session.{ActiveTransfer, Session, Env, Flow, going, send_msg, send_anyway}

-- `ActiveTransfer::discard`.
abbrev pub discard_part : Env → ActiveTransfer → Files → Files
discard_part env t files = if env.part_removed then remove t.part_path files else files

abbrev pub part_path : List ℕ → List ℕ
part_path id = codes "." ++ (id ++ codes ".part")

abbrev pub new_transfer :
    (id name : List ℕ) → (size_bytes : ℕ) → (sha256_hex : List ℕ) → ActiveTransfer
new_transfer id name size_bytes sha256_hex = record {
  id = id;
  part_path = part_path id;
  final_name = name;
  expected_size = size_bytes;
  expected_sha256 = map to_lower sha256_hex;
  hashed = [];
  received = 0;
  next_seq = 0;
}

-- `create_new`: a file that is there is an error.
unfoldable pub open_transfer :
    Env
    → Files
    → (id name : List ℕ) → (size_bytes : ℕ) → (sha256_hex : List ℕ)
    → Option (Files × ActiveTransfer)
open_transfer env files id name size_bytes sha256_hex =
    if not env.dir_made || (not env.opened || is_present files (part_path id))
    then none
    else some (insert (part_path id) [] files, new_transfer id name size_bytes sha256_hex)

unfoldable pub append_data :
    Env → Files → ActiveTransfer → Option (List ℕ) → Result Reason (Files × ActiveTransfer)
append_data env files t none = err (text "bad chunk encoding")
append_data env files t (some bytes) =
    if (length bytes == 0) || ltb file_chunk_bytes (length bytes)
    then err (text "chunk size out of bounds")
    else if ltb t.expected_size ((t.received + length bytes) % 2 ^ 64)
    then err (text "more data than offered")
    else if not env.chunk_written
    then err (io_failed "write failed")
    else ok (
      insert t.part_path (content files t.part_path ++ bytes) files,
      record t {
        hashed = t.hashed ++ bytes;
        received = (t.received + length bytes) % 2 ^ 64;
        next_seq = (t.next_seq + 1) % 2 ^ 32;
      },
    )

unfoldable pub apply_chunk :
    Codecs
    → Env
    → Files
    → ActiveTransfer
    → (seq : ℕ) → (data_b64 : List ℕ) → Result Reason (Files × ActiveTransfer)
unfolding append_data
apply_chunk c env files t seq data_b64 =
    if not (seq == t.next_seq)
    then err (out_of_order t.next_seq seq)
    else append_data env files t (c.b64_decode data_b64)

-- The file gets its final name, or is removed, if it can be.
unfoldable pub rename_to : Env → Files → ActiveTransfer → List ℕ → Files × Result Reason (List ℕ)
rename_to env files t dest =
    if env.renamed
    then (insert dest (content files t.part_path) (remove t.part_path files), ok dest)
    else (discard_part env t files, err (io_failed "rename failed"))

unfoldable pub finalize_transfer :
    Codecs → Env → Files → ActiveTransfer → Files × Result Reason (List ℕ)
unfolding rename_to
finalize_transfer c env files t =
    if not (t.received == t.expected_size)
    then (discard_part env t files, err (size_mismatch t.received t.expected_size))
    else if not (list_eq (c.hex.encode (c.hasher.sha256 t.hashed)) t.expected_sha256)
    then (discard_part env t files, err (text "sha256 mismatch — file corrupted in transit"))
    else if not env.flushed
    then (discard_part env t files, err (io_failed "flush failed"))
    else rename_to env files t (unique_destination (is_present files) t.final_name env.now_unix)

module _ {R : Type 0} where
  -- The transfer, if any, ends and its partial file is removed.
  unfoldable pub drop_transfer : Env → Option ActiveTransfer → Session R → Session R
  drop_transfer env none s = s
  drop_transfer env (some t) s = record s { transfer = none; files = discard_part env t s.files }

  unfoldable pub abort_with : Env → Session R → (id : List ℕ) → Reason → Session R
  unfolding drop_transfer
  abort_with env s id reason =
      send_anyway env (drop_transfer env s.transfer s) (file_abort id reason)

  unfoldable pub chunk_applied :
      Env → Session R → (id : List ℕ) → Result Reason (Files × ActiveTransfer) → Session R
  unfolding abort_with
  chunk_applied env s id (ok (files, t)) = record s { files = files; transfer = some t }
  chunk_applied env s id (err reason) = abort_with env s id reason

  unfoldable pub chunk_for :
      Codecs
      → Env
      → Session R
      → Option ActiveTransfer
      → (id : List ℕ) → (seq : ℕ) → (data_b64 : List ℕ) → Session R
  unfolding chunk_applied
  chunk_for c env s none id seq data_b64 = abort_with env s id (text "no such transfer")
  chunk_for c env s (some t) id seq data_b64 =
      if list_eq t.id id
      then chunk_applied env s id (apply_chunk c env s.files t seq data_b64)
      else abort_with env s id (text "no such transfer")

  -- `FileChunk`: a chunk of another transfer ends the one that is running, too.
  unfoldable pub on_chunk :
      Codecs → Env → Session R → (id : List ℕ) → (seq : ℕ) → (data_b64 : List ℕ) → Session R
  unfolding chunk_for
  on_chunk c env s id seq data_b64 = chunk_for c env s s.transfer id seq data_b64

  unfoldable pub finished :
      Env → Session R → (id : List ℕ) → Files × Result Reason (List ℕ) → Session R × Flow
  finished env s id (files, ok dest) =
      send_msg env (record s { transfer = none; files = files }) (file_done id)
  finished env s id (files, err reason) =
      send_msg env (record s { transfer = none; files = files }) (file_abort id reason)

  unfoldable pub end_for :
      Codecs → Env → Session R → Option ActiveTransfer → (id : List ℕ) → Session R × Flow
  unfolding finished
  end_for c env s none id = (send_anyway env s (file_abort id (text "no such transfer")), going)
  end_for c env s (some t) id =
      if list_eq t.id id
      then finished env s id (finalize_transfer c env s.files t)
      else (send_anyway env s (file_abort id (text "no such transfer")), going)

  -- `FileEnd`.
  unfoldable pub on_end : Codecs → Env → Session R → (id : List ℕ) → Session R × Flow
  unfolding end_for
  on_end c env s id = end_for c env s s.transfer id

  -- The supervisor's `AnswerFileOffer`: a transfer that is running is replaced.
  unfoldable pub opened_with :
      Env → Session R → (id : List ℕ) → Option (Files × ActiveTransfer) → Session R × Flow
  opened_with env s id none =
      send_msg env s (file_answer id false (some (text "host storage error")))
  opened_with env s id (some (files, t)) =
      send_msg env (record s { files = files; transfer = some t }) (file_answer id true none)

  unfoldable pub on_answer :
      Env
      → Session R
      → (id : List ℕ) → (accept : Bool) → (name : List ℕ) → (size_bytes : ℕ) → (sha256_hex : List ℕ)
      → Session R × Flow
  unfolding opened_with
  on_answer env s id true name size_bytes sha256_hex =
      opened_with env (record s { offer_pending = false }) id
        (open_transfer env s.files id name size_bytes sha256_hex)
  on_answer env s id false name size_bytes sha256_hex =
      send_msg env (record s { offer_pending = false })
        (file_answer id false (some (text "declined on the host")))
