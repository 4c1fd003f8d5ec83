-- ===== src/Host/Session/Outbound/Streaming.antt =====
-- A run of `send_file_chunks` ends, and the viewer gets the file that was spooled.
use nebula_display.Prelude.{
  ℕ, zero, suc, ◌+◌, ◌%◌, ◌^◌, ◌≤◌, ◌<◌, ◌≡◌, ◌≢◌, inl, inr, true, Option, none, some, List, [],
  ◌∷◌, map, arith, length, drop, Option-cases, length-drop, text_eq, lookup, insert,
}
use nebula_display.Protocol.Files.{sanitize_filename}
use nebula_display.Viewer.Receive.{
  Codecs, Io, FileMsg, FileReceiver, Handled, Status, Files, consumed, part_name, handle,
  max_receive_bytes, to_lower,
}
use nebula_display.Host.Control.{SessionMsg, file_chunk, file_end}
use nebula_display.Host.Session.Outbound.{out_of_fuel, SendIo, read_len, send_loop, sender_messages}

module _ (R : Type 0) (b64_encode : List ℕ → List ℕ) where
  loop_ends :
      (fuel : ℕ) (io : SendIo) (id : List ℕ) (k seq : ℕ) (bytes : List ℕ)
      → length bytes < fuel
      → (send_loop {R = R} b64_encode fuel io id k seq bytes).1 ≢ out_of_fuel
  unfolding send_loop
  loop_ends zero io id k seq bytes h = absurd (omega arith)
  loop_ends (suc fuel) io id k seq bytes h = elim (Option-cases (io.readable k)) [
    | inl e ↦ rw (e, send_loop) (λ q. absurd cc)
    | inr (wanted, e) ↦
        let n = read_len wanted bytes in
        rw (e, send_loop)
          (ground (
            arith,
            length-drop n bytes,
            loop_ends fuel io id (suc k) ((seq + 1) % 2 ^ 32) (drop n bytes),
          ))
  ]

  -- Whatever the file system and the queue answer, a run of `send_file_chunks` is over after one read more
  -- than the file has bytes.
  pub sender_ends :
      (io : SendIo) (id bytes : List ℕ)
      → (sender_messages {R = R} b64_encode (suc (length bytes)) io id bytes).1 ≢ out_of_fuel
  unfolding sender_messages
  sender_ends io id bytes =
      ground (arith, loop_ends (suc (length bytes)) io id 0 0 bytes (omega arith))

-- A receiver in the middle of a transfer: `got` has arrived, in `seq` chunks.
abbrev at_point :
    Option (List ℕ)
    → (id name sha256 : List ℕ) → (size : ℕ) → (got : List ℕ) → (seq : ℕ) → Files
    → FileReceiver
at_point dir id name sha256 size got seq files = record {
  dir = dir;
  active = some (record {
    id = id;
    part_path = part_name id;
    final_name = name;
    expected_size = size;
    expected_sha256 = sha256;
    hashed = got;
    received = length got;
    next_seq = seq;
  });
  files = files;
}

-- The messages of a sender, as the viewer reads them.
abbrev pub to_file_msg : {R : Type 0} → SessionMsg R → FileMsg
to_file_msg (SessionMsg.file_chunk id seq data_b64) = FileMsg.file_chunk id seq data_b64
to_file_msg (SessionMsg.file_end id) = FileMsg.file_end id
to_file_msg (SessionMsg.file_abort id reason) = FileMsg.file_abort id reason
to_file_msg msg = FileMsg.other_msg

-- A file system that does all that it is asked.
pub record IsWell (io : Io) : Type 0 where
  pub chunk_written : io.chunk_written ≡ true
  pub flushed : io.flushed ≡ true
  pub renamed : io.renamed ≡ true

-- The file has arrived: it has a final name, with these bytes, and the viewer says so.
abbrev pub Arrived : FileReceiver × Handled → (id bytes : List ℕ) → Type 0
Arrived x id bytes =
    (x.0.active ≡ none)
    × ((dest : List ℕ) × (lookup dest x.0.files ≡ some bytes)
        × ((status : Option Status) × (x.1 ≡ consumed (some (FileMsg.file_done id)) status)))

module _ (c : Codecs) (io : Io) where
  -- The viewer handles messages in turn; its last answer is kept.
  unfoldable pub deliver : FileReceiver × Handled → List FileMsg → FileReceiver × Handled
  deliver x [] = x
  deliver (r, h) (m ∷ ms) = deliver (handle c r io m) ms

-- The answer that a viewer gives to an offer that it takes.
abbrev pub Accepts : FileReceiver × Handled → FileReceiver → (id : List ℕ) → Option Status → Type 0
Accepts x r' id st = x ≡ (r', consumed (some (FileMsg.file_answer id true none)) st)

-- The receiver that has accepted an offer.
Ready : FileReceiver → FileReceiver → (id name sha256 : List ℕ) → (size : ℕ) → Type 0
Ready r r' id name sha256 size =
    (at_point r.dir id (sanitize_filename name) (map to_lower sha256) size [] 0
        (insert (part_name id) [] r.files)
      ≡ r')
    × (size ≤ max_receive_bytes)
