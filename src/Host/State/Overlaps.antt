-- ===== src/Host/State/Overlaps.antt =====
-- Registrations and ends of clients whose locked steps are interleaved in any way.
pub mod Moves
pub mod Accounts
use nebula_display.Prelude.{
  ℕ, zero, suc, ◌+◌, Bool, true, false, not, Option, none, some, List, [], ◌∷◌, ◌++◌, lookup,
  nat_eq,
}
use nebula_display.Host.State.{
  ClientHandle, LiveState, cursor_channel_active, publish_policy, insert_client, count_client,
  remove_client, uncount_client,
}

-- A call of `register_client` or `unregister_client` by the step that it does next. The Booleans tell
-- which of the two it is; `publishing` also has the policy that was read.
pub data Call : Type 0 where
  counting uncounting : Call
  reading : (registers : Bool) → Call
  publishing : (registers composited : Bool) → Call

pub record Lobby : Type 0 where
  pub state : LiveState
  pub calls : List Call  -- those under way
  pub returned : ℕ  -- registrations that have returned, less the ends that have begun

-- `begins`: a registration inserts its client. `ends`: the end of a client removes it; a session whose
-- registration has not returned does not end. `runs`: a call does its next step.
pub data LockStep : Type 0 where
  begins : ClientHandle → LockStep
  ends : ℕ → LockStep
  runs : ℕ → LockStep

-- What a step does to the state; what the call does next; 1 when a registration returns.
advance : LiveState → Call → LiveState × List Call × ℕ
unfolding cursor_channel_active
advance s counting = (count_client s, reading true ∷ [], 0)
advance s uncounting = (uncount_client s, reading false ∷ [], 0)
advance s (reading r) = (s, publishing r (not (cursor_channel_active s)) ∷ [], 0)
advance s (publishing true composited) = (publish_policy composited s, [], 1)
advance s (publishing false composited) = (publish_policy composited s, [], 0)

-- The step of one of the calls under way.
pub run_call : LiveState → ℕ → List Call → LiveState × List Call × ℕ
run_call s n [] = (s, [], 0)
run_call s zero (c ∷ cs) = let r = advance s c in (r.0, r.1 ++ cs, r.2)
run_call s (suc n) (c ∷ cs) = let r = run_call s n cs in (r.0, c ∷ r.1, r.2)

abbrev begun_end : Lobby → ℕ → ℕ → Option ClientHandle → Lobby
begun_end w id zero found = w
begun_end w id (suc others) none = w
begun_end w id (suc others) (some handle) = record {
  state = remove_client w.state id;
  calls = uncounting ∷ w.calls;
  returned = others;
}

on_lock_step : Lobby → LockStep → Lobby
on_lock_step w (begins handle) = record w {
  state = insert_client w.state handle;
  calls = counting ∷ w.calls;
}
on_lock_step w (ends id) = begun_end w id w.returned (lookup id w.state.clients)
on_lock_step w (runs n) =
    let r = run_call w.state n w.calls in
    record { state = r.0; calls = r.1; returned = r.2 + w.returned }

pub on_lock_steps : Lobby → List LockStep → Lobby
on_lock_steps w [] = w
on_lock_steps w (e ∷ es) = on_lock_steps (on_lock_step w e) es

abbrev pub begun : List LockStep → ℕ
begun [] = 0
begun (begins handle ∷ es) = suc (begun es)
begun (ends id ∷ es) = begun es
begun (runs n ∷ es) = begun es

-- The calls that have still to count their client, and those that have still to uncount it.
abbrev pub to_count : List Call → ℕ
to_count [] = 0
to_count (counting ∷ cs) = suc (to_count cs)
to_count (uncounting ∷ cs) = to_count cs
to_count (reading r ∷ cs) = to_count cs
to_count (publishing r composited ∷ cs) = to_count cs

abbrev pub to_uncount : List Call → ℕ
to_uncount [] = 0
to_uncount (counting ∷ cs) = to_uncount cs
to_uncount (uncounting ∷ cs) = suc (to_uncount cs)
to_uncount (reading r ∷ cs) = to_uncount cs
to_uncount (publishing r composited ∷ cs) = to_uncount cs

-- The registrations under way.
abbrev registering : List Call → ℕ
registering [] = 0
registering (counting ∷ cs) = suc (registering cs)
registering (uncounting ∷ cs) = registering cs
registering (reading true ∷ cs) = suc (registering cs)
registering (reading false ∷ cs) = registering cs
registering (publishing true composited ∷ cs) = suc (registering cs)
registering (publishing false composited ∷ cs) = registering cs
