-- ===== src/Host/Session/Outbound.antt =====
-- host/service/src/session.rs: the file that the host sends to a viewer: the supervisor's `SendFile`, the
-- viewer's answers to it, and `send_file_chunks`. `sender_messages` is all that one run of it sends; a run
-- reads as many bytes at a time as the file system gives it.
pub mod Spool
pub mod Streaming
use nebula_display.Prelude.{
  ℕ, zero, suc, ◌+◌, ◌-◌, ◌%◌, ◌^◌, min, max, Bool, true, false, not, Option, none, some, List, [],
  ◌∷◌, ◌++◌, ◌==◌, if◌then◌else◌, length, take, drop, keep, list_eq, codes, text_eq, insert, remove,
}
use nebula_display.Viewer.Receive.{Files, Reason, text, file_chunk_bytes}
use nebula_display.Host.Control.{SessionMsg, file_offer, file_chunk, file_end, file_abort}
use nebula_display.Host.Session.{OutboundTransfer, Sender, Session, Env, Flow, send_msg}

-- `remove_file` of a spooled file.
abbrev pub remove_spool : Env → OutboundTransfer → Files → Files
remove_spool env t files = if env.spool_removed then remove t.path files else files

-- `task.abort()`.
abbrev pub abort_task : Option ℕ → List Sender → List Sender
abort_task none senders = senders
abort_task (some n) senders = keep (λ (p : Sender). not (p.number == n)) senders

module _ {R : Type 0} where
  -- The slot is emptied; `OutboundTransfer::discard` of what it held.
  unfoldable pub drop_outbound : Env → Option OutboundTransfer → Session R → Session R
  drop_outbound env none s = s
  drop_outbound env (some t) s = record s {
    outbound = none;
    outbox = remove_spool env t s.outbox;
    senders = abort_task t.task s.senders;
  }

  -- `SendFile`: a send that is in flight is replaced.
  unfoldable pub on_send_file :
      Env
      → Session R
      → (id path name : List ℕ) → (size_bytes : ℕ) → (sha256_hex : List ℕ) → Session R × Flow
  unfolding drop_outbound
  on_send_file env s id path name size_bytes sha256_hex =
      send_msg env
        (record (drop_outbound env s.outbound s) {
          outbound = some (record { id = id; path = path; name = name; task = none });
          sending_file = true;
        })
        (file_offer id name size_bytes sha256_hex)

  -- A task is spawned; the handle of one that runs already is overwritten, not aborted.
  unfoldable pub start_sending : Session R → OutboundTransfer → Session R
  start_sending s t = record s {
    outbound = some (record t { task = some s.next_task });
    senders = record { number = s.next_task; id = t.id; path = t.path } ∷ s.senders;
    next_task = suc s.next_task;
  }

  -- The end of the transfer that the slot holds.
  unfoldable pub end_outbound : Env → Session R → Session R
  unfolding drop_outbound
  end_outbound env s = record (drop_outbound env s.outbound s) { sending_file = false }

  unfoldable pub answered :
      Env → Session R → Option OutboundTransfer → (id : List ℕ) → (accept : Bool) → Session R
  unfolding start_sending end_outbound
  answered env s none id accept = s
  answered env s (some t) id true = if list_eq t.id id then start_sending s t else s
  answered env s (some t) id false = if list_eq t.id id then end_outbound env s else s

  -- `FileAnswer`.
  unfoldable pub on_file_answer : Env → Session R → (id : List ℕ) → (accept : Bool) → Session R
  unfolding answered
  on_file_answer env s id accept = answered env s s.outbound id accept

  unfoldable pub ended : Env → Session R → Option OutboundTransfer → (id : List ℕ) → Session R
  unfolding end_outbound
  ended env s none id = s
  ended env s (some t) id = if list_eq t.id id then end_outbound env s else s

  -- `FileDone`, and what `FileAbort` does to the outbound transfer.
  unfoldable pub on_file_done : Env → Session R → (id : List ℕ) → Session R
  unfolding ended
  on_file_done env s id = ended env s s.outbound id

  -- `fail` of `send_file_chunks`: whatever the slot holds is dropped, without aborting a task.
  failed_slot : Env → Session R → Option OutboundTransfer → Session R
  failed_slot env s none = s
  failed_slot env s (some t) = record s { outbound = none; outbox = remove_spool env t s.outbox }

-- How a run of `send_file_chunks` ends.
pub data Outcome : Type 0 where
  sent_all send_failed session_gone out_of_fuel : Outcome

-- What the environment does during a run, by the number of the read.
pub record SendIo : Type 0 where
  pub file_opened : Bool
  pub readable : ℕ → Option ℕ  -- the bytes that a read can give, or its failure
  pub writer_alive : ℕ → Bool

-- The length of a read: not 0 unless the file is at its end.
abbrev pub read_len : ℕ → List ℕ → ℕ
read_len wanted bytes = min (max 1 wanted) (min file_chunk_bytes (length bytes))

module _ {R : Type 0} (b64_encode : List ℕ → List ℕ) where
  -- `let _ = ctl_tx.send(msg).await`.
  abbrev pub last_msg : Bool → SessionMsg R → List (SessionMsg R)
  last_msg alive msg = if alive then msg ∷ [] else []

  -- The loop, on fuel.
  unfoldable pub send_loop :
      ℕ → SendIo → (id : List ℕ) → (k seq : ℕ) → (bytes : List ℕ) → List (SessionMsg R) × Outcome
  send_loop zero io id k seq bytes = ([], out_of_fuel)
  send_loop (suc fuel) io id k seq bytes = elim (io.readable k) [
    | none ↦ (last_msg (io.writer_alive k) (file_abort id (text "host read error")), send_failed)
    | some wanted ↦
        let n = read_len wanted bytes in
        let later = send_loop fuel io id (suc k) ((seq + 1) % 2 ^ 32) (drop n bytes) in
        if n == 0
        then (last_msg (io.writer_alive k) (file_end id), sent_all)
        else if io.writer_alive k
        then (file_chunk id seq (b64_encode (take n bytes)) ∷ later.0, later.1)
        else ([], session_gone)
  ]

  -- `send_file_chunks`, of a spooled file with these bytes.
  unfoldable pub sender_messages : ℕ → SendIo → (id bytes : List ℕ) → List (SessionMsg R) × Outcome
  sender_messages fuel io id bytes =
      if io.file_opened
      then send_loop fuel io id 0 0 bytes
      else (last_msg (io.writer_alive 0) (file_abort id (text "host storage error")), send_failed)

module _ {R : Type 0} where
  -- What the end of a run does to the session.
  unfoldable pub on_sender_end : Env → Session R → ℕ → Outcome → Session R
  unfolding failed_slot
  on_sender_end env s n send_failed = record (failed_slot env s s.outbound) {
    sending_file = false;
    senders = abort_task (some n) s.senders;
  }
  on_sender_end env s n outcome = record s { senders = abort_task (some n) s.senders }
