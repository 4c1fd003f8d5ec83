-- ===== src/Host/State/Overlaps/Accounts.antt =====
-- The clients shown, counted over any interleaving of the calls.
use nebula_display.Prelude.{ℕ, ◌+◌, ◌^◌, ◌<◌, ◌≡◌, [], length, nat_eq}
use nebula_display.Host.Trust.{TrustStore}
use nebula_display.Host.State.Census.{Below, Once, no_clients}
use nebula_display.Host.State.Overlaps.{Lobby, to_count, to_uncount, registering}

-- Invariant, with `n` registrations still to begin.
record IsAccounted (n : ℕ) (w : Lobby) : Type 0 where
  shown : w.state.shown_clients + to_count w.calls ≡ length w.state.clients + to_uncount w.calls
  known : registering w.calls + w.returned ≡ length w.state.clients
  below : Below w.state.next_client_id w.state.clients
  once : Once w.state.clients
  clients_left : length w.state.clients + to_uncount w.calls + n < 2 ^ 32
  ids_left : w.state.next_client_id + n < 2 ^ 32

abbrev pub quiet : TrustStore → Lobby
quiet trust = record { state = no_clients trust; calls = []; returned = 0 }
