-- ===== src/Host/Adapt/Recovery.antt =====
-- On a clean link the rates come back.
use nebula_display.Prelude.{
  ℕ, ◌+◌, ◌*◌, ◌≤◌, min, ◌≡◌, ap, ◌∙◌, List, [], ◌∷◌, ◌++◌, arith, length, All, nat_eq, text_eq,
}
use nebula_display.Host.Adapt.{
  F32, ProfileEnvelope, increase_interval, clean_before_increase, clean_before_fps_restore,
  Controller, on_tick,
}

module _ (f : F32) where
  -- Ticks at the given times.
  unfoldable pub ticks : Controller f.Real → List ℕ → Controller f.Real
  ticks c [] = c
  ticks c (t ∷ ts) = ticks (on_tick f c t) ts

  -- Times at least an interval apart, the first one an interval behind `last`.
  abbrev pub Spaced : ℕ → List ℕ → Type 0
  Spaced last [] = Unit
  Spaced last (t ∷ ts) = (last + increase_interval ≤ t) × Spaced t ts

  tick_step :
      (c : Controller f.Real) (t : ℕ)
      → c.clean_since + clean_before_increase ≤ t
      → c.last_increase + increase_interval ≤ t
      → c.bitrate_kbps ≤ c.env.max_kbps
      → let d = on_tick f c t in
        (d.bitrate_kbps ≤ d.env.max_kbps)
        × (min (c.bitrate_kbps + 100) c.env.max_kbps ≤ d.bitrate_kbps)
        × (d.env ≡ c.env)
        × (d.clean_since ≡ c.clean_since)
        × (d.last_increase ≡ t)
  unfolding on_tick
  tick_step c t clean apart top = ground arith

  last_tick :
      (c : Controller f.Real) (t : ℕ)
      → c.clean_since + clean_before_fps_restore ≤ t
      → c.last_increase + increase_interval ≤ t
      → c.bitrate_kbps ≡ c.env.max_kbps
      → c.fps ≤ c.env.max_fps
      → let d = on_tick f c t in (d.bitrate_kbps ≡ c.env.max_kbps) × (d.fps ≡ c.env.max_fps)
  unfolding on_tick
  last_tick c t clean apart top fps = ground arith

  tick_fps :
      (c : Controller f.Real) (t : ℕ) → c.fps ≤ c.env.max_fps → (on_tick f c t).fps ≤ c.env.max_fps
  unfolding on_tick
  tick_fps c t h = ground arith

  -- On a link that stays clean, ticks at least a second apart, all later than two seconds after the
  -- last congestion, and the last one later than eight, bring the bitrate to the top of the profile
  -- and the frame rate to its maximum, if there are enough of them: one for each 100 kbit/s that are
  -- missing, and one more.
  pub ticks_recover :
      (c : Controller f.Real) (ts : List ℕ) (last : ℕ)
      → c.bitrate_kbps ≤ c.env.max_kbps
      → c.fps ≤ c.env.max_fps
      → All (λ t. c.clean_since + clean_before_increase ≤ t) ts
      → c.clean_since + clean_before_fps_restore ≤ last
      → Spaced c.last_increase (ts ++ last ∷ [])
      → c.env.max_kbps ≤ c.bitrate_kbps + 100 * length ts
      → let d = ticks c (ts ++ last ∷ []) in
        (d.bitrate_kbps ≡ c.env.max_kbps) × (d.fps ≡ c.env.max_fps)
  unfolding ticks
  ticks_recover c [] last top fps clean long apart enough =
      last_tick c last long apart.0 (omega arith) fps
  ticks_recover c (t ∷ ts) last top fps clean long apart enough =
      let d = on_tick f c t in
      let (top', grown, env, since, when) = tick_step c t clean.0 apart.0 top in
      let fps' : d.fps ≤ d.env.max_fps = rw env (tick_fps c t fps) in
      let clean' : All (λ x. d.clean_since + clean_before_increase ≤ x) ts = rw since clean.1 in
      let apart' : Spaced d.last_increase (ts ++ last ∷ []) = rw when apart.1 in
      let long' : d.clean_since + clean_before_fps_restore ≤ last = rw since long in
      let enough' : d.env.max_kbps ≤ d.bitrate_kbps + 100 * length ts = rw env (omega arith) in
      let (a, b) = ticks_recover d ts last top' fps' clean' long' apart' enough' in
      (
        a ∙ ap (λ (e : ProfileEnvelope). e.max_kbps) env,
        b ∙ ap (λ (e : ProfileEnvelope). e.max_fps) env,
      )
