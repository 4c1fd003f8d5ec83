-- ===== src/Host/State/Overlaps/Moves.antt =====
-- A step of a call counts or uncounts its client, and changes no other number.
use nebula_display.Prelude.{
  ℕ, zero, suc, ◌+◌, ◌^◌, ◌≤◌, ◌<◌, ◌≡◌, refl, Bool, true, false, List, [], ◌∷◌, arith, nat_eq,
}
use nebula_display.Host.State.{LiveState, publish_policy}
use nebula_display.Host.State.Census.{published-rest}
use nebula_display.Host.State.Overlaps.{
  Call, counting, uncounting, reading, publishing, advance, run_call, to_count, to_uncount,
  registering,
}

-- What the step of a call keeps.
pub record Moved (s : LiveState) (cs : List Call) (r : LiveState × List Call × ℕ) : Type 0 where
  pub clients : r.0.clients ≡ s.clients
  pub next : r.0.next_client_id ≡ s.next_client_id
  pub registers : registering r.1 + r.2 ≡ registering cs
  pub uncounts : to_uncount r.1 ≤ to_uncount cs
  pub shown :
      r.0.shown_clients + to_count r.1 + to_uncount cs
      ≡ s.shown_clients + to_count cs + to_uncount r.1

publishing-Moved :
    (s : LiveState) (b : Bool) (cs : List Call)
    → Moved s (publishing true b ∷ cs) (publish_policy b s, cs, 1)
publishing-Moved s b cs =
    let (clients, shown, next) = published-rest b s.composited s in
    record {
      clients = clients;
      next = next;
      registers = omega arith;
      uncounts = omega arith;
      shown = omega (arith, shown);
    }

published-Moved :
    (s : LiveState) (b : Bool) (cs : List Call)
    → Moved s (publishing false b ∷ cs) (publish_policy b s, cs, 0)
published-Moved s b cs =
    let (clients, shown, next) = published-rest b s.composited s in
    record {
      clients = clients;
      next = next;
      registers = omega arith;
      uncounts = omega arith;
      shown = omega (arith, shown);
    }

later-Moved :
    (s : LiveState) (c : Call) (cs : List Call) (r : LiveState × List Call × ℕ)
    → Moved s cs r
    → Moved s (c ∷ cs) (r.0, c ∷ r.1, r.2)
later-Moved s c cs r m = record {
  clients = m.clients;
  next = m.next;
  registers = registers c;
  uncounts = uncounts c;
  shown = shown c;
}
  where
    registers : (c : Call) → registering (c ∷ r.1) + r.2 ≡ registering (c ∷ cs)
    registers counting = omega (arith, m.registers)
    registers uncounting = m.registers
    registers (reading true) = omega (arith, m.registers)
    registers (reading false) = m.registers
    registers (publishing true b) = omega (arith, m.registers)
    registers (publishing false b) = m.registers

    uncounts : (c : Call) → to_uncount (c ∷ r.1) ≤ to_uncount (c ∷ cs)
    uncounts uncounting = omega (arith, m.uncounts)
    uncounts counting = m.uncounts
    uncounts (reading x) = m.uncounts
    uncounts (publishing x b) = m.uncounts

    shown :
        (c : Call)
        → r.0.shown_clients + to_count (c ∷ r.1) + to_uncount (c ∷ cs)
          ≡ s.shown_clients + to_count (c ∷ cs) + to_uncount (c ∷ r.1)
    shown uncounting = omega (arith, m.shown)
    shown counting = omega (arith, m.shown)
    shown (reading x) = m.shown
    shown (publishing x b) = m.shown

pub run_call-Moved :
    (s : LiveState) (n : ℕ) (cs : List Call)
    → s.shown_clients + to_count cs < 2 ^ 32
    → to_uncount cs ≤ s.shown_clients
    → Moved s cs (run_call s n cs)
unfolding run_call advance
run_call-Moved s n [] small some_left = record {
  clients = refl;
  next = refl;
  registers = refl;
  uncounts = omega arith;
  shown = refl;
}
run_call-Moved s zero (counting ∷ cs) small some_left = record {
  clients = refl;
  next = refl;
  registers = omega arith;
  uncounts = omega arith;
  shown = omega (arith, small);
}
run_call-Moved s zero (uncounting ∷ cs) small some_left = record {
  clients = refl;
  next = refl;
  registers = omega arith;
  uncounts = omega arith;
  shown = omega (arith, some_left);
}
run_call-Moved s zero (reading true ∷ cs) small some_left = record {
  clients = refl;
  next = refl;
  registers = omega arith;
  uncounts = omega arith;
  shown = refl;
}
run_call-Moved s zero (reading false ∷ cs) small some_left = record {
  clients = refl;
  next = refl;
  registers = omega arith;
  uncounts = omega arith;
  shown = refl;
}
run_call-Moved s zero (publishing true b ∷ cs) small some_left = publishing-Moved s b cs
run_call-Moved s zero (publishing false b ∷ cs) small some_left = published-Moved s b cs
run_call-Moved s (suc n) (counting ∷ cs) small some_left =
    later-Moved s counting cs (run_call s n cs)
      (run_call-Moved s n cs (omega (arith, small)) some_left)
run_call-Moved s (suc n) (uncounting ∷ cs) small some_left =
    later-Moved s uncounting cs (run_call s n cs)
      (run_call-Moved s n cs small (omega (arith, some_left)))
run_call-Moved s (suc n) (reading x ∷ cs) small some_left =
    later-Moved s (reading x) cs (run_call s n cs) (run_call-Moved s n cs small some_left)
run_call-Moved s (suc n) (publishing x b ∷ cs) small some_left =
    later-Moved s (publishing x b) cs (run_call s n cs) (run_call-Moved s n cs small some_left)
