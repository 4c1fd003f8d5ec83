-- ===== src/Viewer/Receive/Consistency.antt =====
-- The incomplete file and the counts of a transfer.
use nebula_display.Prelude.{
  ℕ, ◌+◌, ◌%◌, ◌^◌, ◌≤◌, ◌<◌, ◌≡◌, refl, ap, ◌∙◌, inl, inr, Bool, true, false, not, ◌||◌, Option,
  none, some, List, [], ◌∷◌, ◌++◌, arith, ltb, ◌==◌, if◌then◌else◌, Bool-cases, length, list_eq,
  text_eq, lookup, insert, lookup-insert_self, length-append,
}
use nebula_display.Viewer.Receive.{
  max_receive_bytes, file_chunk_bytes, Codecs, Io, text, FileMsg, file_offer, file_chunk, file_end,
  file_abort, Active, Files, FileReceiver, Handled, consumed, discard, decline, all_hex, io_failed,
  out_of_order, aborted_for, part_name, is_present, create_part, offer_idle, offer_at, on_offer,
  fail, content, chunk_data, on_chunk, rename_part, on_end, handle_active, handle,
}

-- The incomplete file holds exactly the bytes that were hashed, as many as were counted; the counts are
-- within the offer, and the offer within the cap.
pub record IsActive (files : Files) (a : Active) : Type 0 where
  pub on_disk : lookup a.part_path files ≡ some a.hashed
  pub counted : length a.hashed ≡ a.received
  pub chunks : a.next_seq ≤ a.received
  pub within : a.received ≤ a.expected_size
  pub capped : a.expected_size ≤ max_receive_bytes

abbrev pub Holds : Files → Option Active → Type 0
Holds files none = Unit {0}
Holds files (some a) = IsActive files a

abbrev pub IsConsistent : FileReceiver → Type 0
IsConsistent r = Holds r.files r.active

-- A property of both branches is one of the conditional.
pub if_both {ℓ κ} :
    {A : Type ℓ} (P : A → Type κ) (b : Bool) (x y : A)
    → (b ≡ true → P x)
    → (b ≡ false → P y)
    → P (if b then x else y)
if_both P true x y h k = h refl
if_both P false x y h k = k refl

abbrev Kept : FileReceiver × Handled → Type 0
Kept x = IsConsistent x.0

create-IsConsistent :
    (r : FileReceiver) (io : Io) (id name : List ℕ) (size_bytes : ℕ) (sha256 : List ℕ)
    → IsConsistent r
    → size_bytes ≤ max_receive_bytes
    → IsConsistent (create_part r io id name size_bytes sha256).0
unfolding create_part
create-IsConsistent r io id name size_bytes sha256 h cap =
    elim (Bool-cases (not io.opened || is_present r.files (part_name id))) [
      | inl e ↦ rw e h
      | inr e ↦ rw e (record {
        on_disk = lookup-insert_self (part_name id) [] r.files;
        counted = refl;
        chunks = omega arith;
        within = omega arith;
        capped = cap;
      })
    ]

offer-IsConsistent :
    (r : FileReceiver) (io : Io) (id name : List ℕ) (size_bytes : ℕ) (sha256 : List ℕ)
    → IsConsistent r
    → IsConsistent (offer_idle r io id name size_bytes sha256).0
unfolding offer_idle
offer-IsConsistent r io id name size_bytes sha256 h =
    if_both Kept ((size_bytes == 0) || ltb max_receive_bytes size_bytes)
      (decline r id "size out of bounds for this viewer") _ (λ e. h)
      (λ e.
        if_both Kept (not (length sha256 == 64) || not (all_hex sha256))
          (decline r id "malformed offer") _ (λ e'. h)
          (λ e'.
            if_both Kept (not io.dir_made) (decline r id "viewer storage error") _ (λ e''. h)
              (λ e''. create-IsConsistent r io id name size_bytes sha256 h (ground arith))))

-- The two sums do not wrap.
written-IsActive :
    (r : FileReceiver) (a : Active) (bytes : List ℕ)
    → IsActive r.files a
    → 0 < length bytes
    → length bytes ≤ file_chunk_bytes
    → (a.received + length bytes) % 2 ^ 64 ≤ a.expected_size
    → IsActive (insert a.part_path (content r.files a.part_path ++ bytes) r.files) (record a {
      hashed = a.hashed ++ bytes;
      received = (a.received + length bytes) % 2 ^ 64;
      next_seq = (a.next_seq + 1) % 2 ^ 32;
    })
written-IsActive r a bytes h some_bytes few room =
    let counted = h.counted in
    let chunks = h.chunks in
    let within = h.within in
    let capped = h.capped in
    let sum : (a.received + length bytes) % 2 ^ 64 ≡ a.received + length bytes = omega arith in
    let next : (a.next_seq + 1) % 2 ^ 32 ≡ a.next_seq + 1 = omega arith in
    let old : content r.files a.part_path ≡ a.hashed = rw (h.on_disk, content) refl in
    record {
      on_disk =
          lookup-insert_self a.part_path (content r.files a.part_path ++ bytes) r.files
          ∙ ap (λ (z : List ℕ). some (z ++ bytes)) old;
      counted = omega (arith, length-append a.hashed bytes);
      chunks = omega arith;
      within = omega arith;
      capped = capped;
    }

chunk-IsConsistent :
    (r : FileReceiver) (io : Io) (a : Active) (id : List ℕ) (o : Option (List ℕ))
    → IsActive r.files a
    → IsConsistent (chunk_data r io a id o).0
unfolding chunk_data
chunk-IsConsistent r io a id none h = tt
chunk-IsConsistent r io a id (some bytes) h =
    if_both Kept ((length bytes == 0) || ltb file_chunk_bytes (length bytes))
      (fail r a id (text "chunk size out of bounds")) _ (λ e. tt)
      (λ e.
        if_both Kept (ltb a.expected_size ((a.received + length bytes) % 2 ^ 64))
          (fail r a id (text "more data than offered")) _ (λ e'. tt)
          (λ e'.
            if_both Kept (not io.chunk_written) (fail r a id (io_failed "write failed")) _
              (λ e''. tt)
              (λ e''. written-IsActive r a bytes h (ground arith) (ground arith) (ground arith))))

end-IsConsistent :
    (c : Codecs) (r : FileReceiver) (io : Io) (a : Active) (id : List ℕ)
    → IsConsistent (on_end c r io a id).0
unfolding on_end rename_part
end-IsConsistent c r io a id = ground arith

on_chunk-IsConsistent :
    (c : Codecs) (r : FileReceiver) (io : Io) (a : Active) (id : List ℕ) (seq : ℕ)
    (data_b64 : List ℕ)
    → IsActive r.files a
    → IsConsistent (on_chunk c r io a id seq data_b64).0
unfolding on_chunk
on_chunk-IsConsistent c r io a id seq data_b64 h =
    if_both Kept (not (seq == a.next_seq)) (fail r a id (out_of_order a.next_seq seq)) _ (λ e. tt)
      (λ e. chunk-IsConsistent r io a id (c.b64_decode data_b64) h)

on_offer-IsConsistent :
    (r : FileReceiver) (io : Io) (id name : List ℕ) (size_bytes : ℕ) (sha256 : List ℕ)
    (dir : Option (List ℕ)) (active : Option Active)
    → IsConsistent r
    → IsConsistent (offer_at r io id name size_bytes sha256 dir active).0
unfolding offer_at
on_offer-IsConsistent r io id name size_bytes sha256 none active h = h
on_offer-IsConsistent r io id name size_bytes sha256 (some dir) (some a) h = h
on_offer-IsConsistent r io id name size_bytes sha256 (some dir) none h =
    offer-IsConsistent r io id name size_bytes sha256 h

active-IsConsistent :
    (c : Codecs) (r : FileReceiver) (io : Io) (active : Option Active) (msg : FileMsg)
    → IsConsistent r
    → Holds r.files active
    → IsConsistent (handle_active c r io active msg).0
unfolding handle_active
active-IsConsistent c r io (some a) (file_chunk id seq data_b64) h k =
    if_both Kept (list_eq a.id id) (on_chunk c r io a id seq data_b64) _
      (λ e. on_chunk-IsConsistent c r io a id seq data_b64 k) (λ e. h)
active-IsConsistent c r io (some a) (file_end id) h k =
    if_both Kept (list_eq a.id id) (on_end c r io a id) _ (λ e. end-IsConsistent c r io a id)
      (λ e. h)
active-IsConsistent c r io (some a) (file_abort id reason) h k =
    if_both Kept (list_eq a.id id) (discard r a, consumed none (some (aborted_for reason))) _
      (λ e. tt) (λ e. h)
active-IsConsistent c r io active msg h k = h

handle-IsConsistent :
    (c : Codecs) (r : FileReceiver) (io : Io) (msg : FileMsg)
    → IsConsistent r
    → IsConsistent (handle c r io msg).0
unfolding handle on_offer
handle-IsConsistent c r io (file_offer id name size_bytes sha256) h =
    on_offer-IsConsistent r io id name size_bytes sha256 r.dir r.active h
handle-IsConsistent c r io msg h = active-IsConsistent c r io r.active msg h h

-- A receiver after some messages, each with what the file system reports meanwhile.
unfoldable pub receive_all : Codecs → FileReceiver → List (Io × FileMsg) → FileReceiver
receive_all c r [] = r
receive_all c r ((io, msg) ∷ ms) = receive_all c (handle c r io msg).0 ms

-- Through any messages, whatever the file system reports, the incomplete file of a transfer holds exactly
-- the bytes that were hashed, as many as were counted, never more than were offered, and never more than
-- the cap; and no sum of the counts wraps, since there are no more chunks than bytes.
pub receive_all-IsConsistent :
    (c : Codecs) (r : FileReceiver) (ms : List (Io × FileMsg))
    → IsConsistent r
    → IsConsistent (receive_all c r ms)
unfolding receive_all
receive_all-IsConsistent c r [] h = h
receive_all-IsConsistent c r ((io, msg) ∷ ms) h =
    receive_all-IsConsistent c (handle c r io msg).0 ms (handle-IsConsistent c r io msg h)
