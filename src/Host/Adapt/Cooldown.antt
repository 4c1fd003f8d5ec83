-- ===== src/Host/Adapt/Cooldown.antt =====
-- After a cut the controller holds still, and the frame rate only falls at the floor of the bitrate.
use nebula_display.Prelude.{
  ℕ, ◌+◌, ◌-◌, ◌/◌, ◌≤◌, ◌<◌, max, ◌≡◌, refl, List, [], ◌∷◌, arith, All, nat_eq, text_eq,
}
use nebula_display.Host.Adapt.{
  F32, cut_of, decrease_cooldown, Controller, try_decrease, Signal, backlog, tick, rtt, stats,
  react,
}
use nebula_display.Host.Adapt.Range.{InRange, run_signals}

module _ (f : F32) where
  -- The controller acted at time `t`, and holds its rates since.
  record Holding (c : Controller f.Real) (t kbps fps : ℕ) : Type 0 where
    acted : c.last_decrease ≡ t
    clean : t ≤ c.clean_since
    kbps_same : c.bitrate_kbps ≡ kbps
    fps_same : c.fps ≡ fps

  -- Between the cut and the end of the cooldown every signal is without effect on the rates.
  react-Holding :
      (c : Controller f.Real) (now t kbps fps : ℕ) (s : Signal f)
      → t ≤ now
      → now < t + decrease_cooldown
      → Holding c t kbps fps
      → Holding (react f c now s) t kbps fps
  unfolding react try_decrease
  react-Holding c now t kbps fps backlog after soon h = ground arith
  react-Holding c now t kbps fps tick after soon h = ground arith
  react-Holding c now t kbps fps (rtt r) after soon h = ground arith
  react-Holding c now t kbps fps (stats n) after soon h = ground arith

  -- For the length of the cooldown after a cut, no signals, however many, change the bitrate or the
  -- frame rate. (`clean_since` is not earlier than the cut: the cut sets both.)
  pub cooldown_holds :
      (c : Controller f.Real) (ss : List (ℕ × Signal f))
      → c.last_decrease ≤ c.clean_since
      → All (λ e. (c.last_decrease ≤ e.0) × (e.0 < c.last_decrease + decrease_cooldown)) ss
      → ((run_signals f c ss).bitrate_kbps ≡ c.bitrate_kbps) × ((run_signals f c ss).fps ≡ c.fps)
  unfolding run_signals
  cooldown_holds c ss order times =
      let h =
        go c ss (record { acted = refl; clean = order; kbps_same = refl; fps_same = refl }) times in
      (h.kbps_same, h.fps_same)
    where
      go :
          (d : Controller f.Real) (es : List (ℕ × Signal f))
          → Holding d c.last_decrease c.bitrate_kbps c.fps
          → All (λ e. (c.last_decrease ≤ e.0) × (e.0 < c.last_decrease + decrease_cooldown)) es
          → Holding (run_signals f d es) c.last_decrease c.bitrate_kbps c.fps
      go d [] h times = h
      go d ((now, s) ∷ es) h times =
          go (react f d now s) es
            (react-Holding d now c.last_decrease c.bitrate_kbps c.fps s times.0.0 times.0.1 h)
            times.1

  -- A signal that lowers the frame rate does so at the floor of the bitrate, which it leaves alone, on
  -- the second cut in a row there, and halves it at most; and only when the cooldown is over.
  pub fps_falls_last :
      (c : Controller f.Real) (now : ℕ) (s : Signal f)
      → InRange f c
      → (react f c now s).fps < c.fps
      → (c.bitrate_kbps ≡ c.env.min_kbps)
        × ((react f c now s).bitrate_kbps ≡ c.bitrate_kbps)
        × (c.floor_pressure ≡ 1)
        × (c.fps / 2 ≤ (react f c now s).fps)
        × (decrease_cooldown ≤ now - c.last_decrease)
  unfolding react try_decrease
  fps_falls_last c now backlog v h = ground arith
  fps_falls_last c now tick v h = ground arith
  fps_falls_last c now (rtt r) v h = ground arith
  fps_falls_last c now (stats n) v h = ground arith

  -- A signal that lowers the bitrate leaves the frame rate alone, cuts to 0.7 of it or to the floor,
  -- records the time, and comes when the cooldown is over.
  pub kbps_cut :
      (c : Controller f.Real) (now : ℕ) (s : Signal f)
      → InRange f c
      → (react f c now s).bitrate_kbps < c.bitrate_kbps
      → ((react f c now s).bitrate_kbps ≡ max (cut_of f c.bitrate_kbps) c.env.min_kbps)
        × ((react f c now s).fps ≡ c.fps)
        × ((react f c now s).last_decrease ≡ now)
        × (decrease_cooldown ≤ now - c.last_decrease)
  unfolding react try_decrease
  kbps_cut c now backlog v h = ground arith
  kbps_cut c now tick v h = ground arith
  kbps_cut c now (rtt r) v h = ground arith
  kbps_cut c now (stats n) v h = ground arith
