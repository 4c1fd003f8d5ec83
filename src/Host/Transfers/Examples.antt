-- ===== src/Host/Transfers/Examples.antt =====
-- Runs of the theorems on file offers.
use nebula_display.Prelude.{◌+◌, ◌≤◌, Bool, true, List, [], ◌∷◌, codes, text_eq, ◌==◌}
use nebula_display.Host.Transfers.{PendingOffer}
use nebula_display.Host.Transfers.Answers.{
  count, ticket_of, answers, waiting, Call, registering, answering, beginning, calls,
  answered_at_most_once,
}

abbrev offer : PendingOffer
offer = record {
  id = codes "t1";
  device_id = codes "dev";
  device_name = codes "Tablet";
  name = codes "a.bin";
  size_bytes = 10;
  sha256_hex = codes "00";
  offered_at = 1_000;
  offered_unix = 1;
  session = 4;
}

abbrev roomy : PendingOffer → Bool
roomy o = true

-- The panel answers twice, and the second answer finds nothing.
abbrev answered_twice : List ((PendingOffer → Bool) × Call)
answered_twice =
    (roomy, registering 1_000 offer)
    ∷ (roomy, registering 1_500 offer)
    ∷ (roomy, answering 2_000 (codes "t1") true)
    ∷ (roomy, answering 3_000 (codes "t1") true)
    ∷ []

answered_at_most_once_example :
    let h = calls beginning answered_twice in
    answers (λ a. a.to_session == 4) h.sent + waiting (λ a. a.to_session == 4) h.pending
    ≤ count (λ o. (ticket_of o).to_session == 4) h.taken
answered_at_most_once_example = answered_at_most_once answered_twice (λ a. a.to_session == 4)
