-- ===== src/Viewer/Receive/Examples.antt =====
-- Runs of the theorems on received files.
use nebula_display.Prelude.{
  ◌≡◌, refl, true, none, some, [], ◌∷◌, arith, list_eq, codes, text_eq, lookup, insert, remove,
}
use nebula_display.Protocol.Files.{unique_destination}
use nebula_display.Viewer.Receive.{
  Codecs, Io, file_chunk, file_end, file_done, Active, FileReceiver, consumed, rename_part, on_end,
  handle_active, handle, received_as,
}
use nebula_display.Viewer.Receive.Consistency.{IsConsistent, receive_all, receive_all-IsConsistent}
use nebula_display.Viewer.Receive.Integrity.{Delivered}

-- The hash of any bytes is the byte 7; hex and base64 leave bytes as they are.
abbrev plain : Codecs
plain = record {
  hasher = record { sha256 = λ bytes. 7 ∷ [] };
  hex = record { encode = λ bytes. bytes; decode = λ chars. some chars };
  b64_decode = λ chars. some chars;
}

abbrev all_well : Io
all_well = record {
  dir_made = true;
  opened = true;
  chunk_written = true;
  flushed = true;
  renamed = true;
  unix = 9;
}

-- Both bytes have arrived.
abbrev transfer : Active
transfer = record {
  id = codes "x1";
  part_path = codes ".x1.part";
  final_name = codes "a.txt";
  expected_size = 2;
  expected_sha256 = 7 ∷ [];
  hashed = 5 ∷ 6 ∷ [];
  received = 2;
  next_seq = 1;
}

abbrev busy : FileReceiver
busy = record {
  dir = some (codes "in");
  active = some transfer;
  files = (codes "b.txt", 1 ∷ []) ∷ (codes ".x1.part", 5 ∷ 6 ∷ []) ∷ [];
}

abbrev over : FileReceiver
over = record busy {
  active = none;
  files = (codes "b.txt", 1 ∷ []) ∷ (codes "a.txt", 5 ∷ 6 ∷ []) ∷ [];
}

busy-IsConsistent : IsConsistent busy
unfolding lookup list_eq
busy-IsConsistent = record {
  on_disk = refl;
  counted = refl;
  chunks = omega arith;
  within = omega arith;
  capped = omega arith;
}

receive_all-IsConsistent_example :
    IsConsistent (receive_all plain busy ((all_well, file_chunk (codes "x1") 1 (8 ∷ [])) ∷ []))
receive_all-IsConsistent_example =
    receive_all-IsConsistent plain busy ((all_well, file_chunk (codes "x1") 1 (8 ∷ [])) ∷ [])
      busy-IsConsistent

ended :
    handle plain busy all_well (file_end (codes "x1"))
    ≡ (over, consumed (some (file_done (codes "x1"))) (some (received_as (codes "a.txt"))))
unfolding handle handle_active on_end rename_part unique_destination list_eq lookup insert remove
ended = refl

abbrev Arrived : Type 0
Arrived = (a : Active) × (some transfer ≡ some a) × Delivered plain busy over a
