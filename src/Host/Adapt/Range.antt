-- ===== src/Host/Adapt/Range.antt =====
-- The controller stays in its profile's envelope, and its counters below their thresholds.
use nebula_display.Prelude.{
  ℕ, ◌+◌, ◌/◌, ◌^◌, ◌≤◌, ◌<◌, ◌≡◌, refl, ap, ◌∙◌, max, inl, inr, Bool, true, false, not, ◌||◌, List,
  [], ◌∷◌, arith, ltb, leb, Bool-cases, nat_eq, text_eq,
}
use nebula_display.Protocol.Media.{Codec}
use nebula_display.Host.Adapt.{
  F32, IsF32, Profile, ProfileEnvelope, envelope, rtt_streak_for_decrease,
  queue_streak_for_decrease, backlog_for_decrease, floor_pressure_for_fps_drop, Controller,
  new_controller, set_profile, try_decrease, on_send_backlog, smoothed, bloated, count_rtt,
  on_rtt_sample, on_viewer_stats, on_tick, Signal, backlog, tick, rtt, stats, react,
}

pub record IsEnvelope (e : ProfileEnvelope) : Type 0 where
  pub kbps_pos : 0 < e.min_kbps
  pub start_low : e.min_kbps ≤ e.start_kbps
  pub start_high : e.start_kbps ≤ e.max_kbps
  pub kbps_cap : e.max_kbps ≤ 120_000
  pub fps_pos : 0 < e.min_fps
  pub fps_order : e.min_fps ≤ e.max_fps
  pub fps_cap : e.max_fps ≤ 60

pub envelope-IsEnvelope : (p : Profile) (k : Codec) → IsEnvelope (envelope p k)
unfolding envelope
envelope-IsEnvelope p k = ground arith

module _ (f : F32) where
  pub record InRange (c : Controller f.Real) : Type 0 where
    pub env_ok : IsEnvelope c.env
    pub kbps_low : c.env.min_kbps ≤ c.bitrate_kbps
    pub kbps_high : c.bitrate_kbps ≤ c.env.max_kbps
    pub fps_low : c.env.min_fps ≤ c.fps
    pub fps_high : c.fps ≤ c.env.max_fps
    pub rtt_streak : c.rtt_high_streak < rtt_streak_for_decrease
    pub queue_streak : c.queue_high_streak < queue_streak_for_decrease
    pub backlog_count : c.backlog_recent < backlog_for_decrease
    pub pressure : c.floor_pressure < floor_pressure_for_fps_drop

  new-InRange : (p : Profile) (k : Codec) (now : ℕ) → InRange (new_controller f p k now)
  unfolding new_controller
  new-InRange p k now = ground (arith, envelope-IsEnvelope p k)

  set_profile-InRange :
      (c : Controller f.Real) (now : ℕ) (p : Profile) → InRange c → InRange (set_profile f c now p)
  unfolding set_profile
  set_profile-InRange c now p v = ground (arith, envelope-IsEnvelope p c.codec)

  module _ (laws : IsF32 f) where
    try_decrease-InRange :
        (c : Controller f.Real) (now : ℕ) → InRange c → InRange (try_decrease f c now)
    unfolding try_decrease
    try_decrease-InRange c now v = ground (arith, laws.cut_le c.bitrate_kbps)

    tick-InRange : (c : Controller f.Real) (now : ℕ) → InRange c → InRange (on_tick f c now)
    unfolding on_tick
    tick-InRange c now v = ground arith

    backlog-InRange :
        (c : Controller f.Real) (now : ℕ) → InRange c → InRange (on_send_backlog f c now)
    unfolding on_send_backlog
    backlog-InRange c now v = elim (Bool-cases (leb backlog_for_decrease (c.backlog_recent + 1))) [
      | inl many ↦
          rw many (try_decrease-InRange (record c { backlog_recent = 0 }) now (ground arith))
      | inr few ↦ rw few (ground arith)
    ]

    stats-InRange :
        (c : Controller f.Real) (now depth : ℕ)
        → InRange c
        → InRange (on_viewer_stats f c now depth)
    unfolding on_viewer_stats
    stats-InRange c now depth v = elim (Bool-cases (ltb 3 depth)) [
      | inr short ↦ rw short (ground arith)
      | inl long ↦
          rw long (elim (Bool-cases (leb queue_streak_for_decrease (c.queue_high_streak + 1))) [
            | inl many ↦
                rw many
                  (try_decrease-InRange (record c { queue_high_streak = 0 }) now (ground arith))
            | inr few ↦ rw few (ground arith)
          ])
    ]

    count_rtt-InRange :
        (c : Controller f.Real) (now : ℕ) (high : Bool)
        → InRange c
        → InRange (count_rtt f c now high)
    unfolding count_rtt
    count_rtt-InRange c now false v = ground arith
    count_rtt-InRange c now true v =
        elim (Bool-cases (leb rtt_streak_for_decrease (c.rtt_high_streak + 1))) [
          | inl many ↦
              rw many (try_decrease-InRange (record c { rtt_high_streak = 0 }) now (ground arith))
          | inr few ↦ rw few (ground arith)
        ]

    rtt-InRange :
        (c : Controller f.Real) (now : ℕ) (r : f.Real)
        → InRange c
        → InRange (on_rtt_sample f c now r)
    unfolding on_rtt_sample
    rtt-InRange c now r v = elim (Bool-cases (f.leb_f r (f.of_ratio 0 1) || not (f.is_finite r))) [
      | inl bad ↦ rw bad v
      | inr good ↦
          let low = f.min_f c.rtt_min_ms r in
          let smooth = smoothed f c.rtt_smooth_ms r in
          rw good (
            count_rtt-InRange (record c { rtt_min_ms = low; rtt_smooth_ms = smooth }) now
              (bloated f low smooth) (ground arith))
    ]

    -- Every signal keeps the bitrate and the frame rate within the profile's envelope and each counter
    -- below the threshold at which it acts, if cutting by 0.7 does not increase a bitrate.
    pub react-InRange :
        (c : Controller f.Real) (now : ℕ) (s : Signal f) → InRange c → InRange (react f c now s)
    unfolding react
    react-InRange c now backlog v = backlog-InRange c now v
    react-InRange c now tick v = tick-InRange c now v
    react-InRange c now (rtt r) v = rtt-InRange c now r v
    react-InRange c now (stats n) v = stats-InRange c now n v

  -- Signals at their times.
  unfoldable pub run_signals : Controller f.Real → List (ℕ × Signal f) → Controller f.Real
  run_signals c [] = c
  run_signals c ((now, s) ∷ ss) = run_signals (react f c now s) ss

  pub run_signals-InRange :
      (laws : IsF32 f) (c : Controller f.Real) (ss : List (ℕ × Signal f))
      → InRange c
      → InRange (run_signals c ss)
  unfolding run_signals
  run_signals-InRange laws c [] v = v
  run_signals-InRange laws c ((now, s) ∷ ss) v =
      run_signals-InRange laws (react f c now s) ss (react-InRange laws c now s v)

  -- The codec and the envelope are not changed.
  abbrev Kept : Controller f.Real → Controller f.Real → Type 0
  Kept c d = (d.env ≡ c.env) × (d.codec ≡ c.codec)

  try_decrease-Kept : (c : Controller f.Real) (now : ℕ) → Kept c (try_decrease f c now)
  unfolding try_decrease
  try_decrease-Kept c now = ground arith

  backlog-Kept : (c : Controller f.Real) (now : ℕ) → Kept c (on_send_backlog f c now)
  unfolding on_send_backlog
  backlog-Kept c now = ground (arith, try_decrease-Kept (record c { backlog_recent = 0 }) now)

  tick-Kept : (c : Controller f.Real) (now : ℕ) → Kept c (on_tick f c now)
  unfolding on_tick
  tick-Kept c now = ground arith

  stats-Kept : (c : Controller f.Real) (now depth : ℕ) → Kept c (on_viewer_stats f c now depth)
  unfolding on_viewer_stats
  stats-Kept c now depth =
      ground (arith, try_decrease-Kept (record c { queue_high_streak = 0 }) now)

  count_rtt-Kept : (c : Controller f.Real) (now : ℕ) (high : Bool) → Kept c (count_rtt f c now high)
  unfolding count_rtt
  count_rtt-Kept c now high =
      ground (arith, try_decrease-Kept (record c { rtt_high_streak = 0 }) now)

  rtt-Kept : (c : Controller f.Real) (now : ℕ) (r : f.Real) → Kept c (on_rtt_sample f c now r)
  unfolding on_rtt_sample
  rtt-Kept c now r = elim (Bool-cases (f.leb_f r (f.of_ratio 0 1) || not (f.is_finite r))) [
    | inl bad ↦ rw bad (refl, refl)
    | inr good ↦
        let low = f.min_f c.rtt_min_ms r in
        let smooth = smoothed f c.rtt_smooth_ms r in
        rw good (
          count_rtt-Kept (record c { rtt_min_ms = low; rtt_smooth_ms = smooth }) now
            (bloated f low smooth))
  ]

  react-Kept : (c : Controller f.Real) (now : ℕ) (s : Signal f) → Kept c (react f c now s)
  unfolding react
  react-Kept c now backlog = backlog-Kept c now
  react-Kept c now tick = tick-Kept c now
  react-Kept c now (rtt r) = rtt-Kept c now r
  react-Kept c now (stats n) = stats-Kept c now n

  run_signals-Kept : (c : Controller f.Real) (ss : List (ℕ × Signal f)) → Kept c (run_signals c ss)
  unfolding run_signals
  run_signals-Kept c [] = (refl, refl)
  run_signals-Kept c ((now, s) ∷ ss) =
      let (e, k) = react-Kept c now s in
      let (e', k') = run_signals-Kept (react f c now s) ss in (e' ∙ e, k' ∙ k)

  started-Kept :
      (p : Profile) (k : Codec) (now : ℕ) (ss : List (ℕ × Signal f))
      → let c = run_signals (new_controller f p k now) ss in (c.env ≡ envelope p k) × (c.codec ≡ k)
  unfolding new_controller
  started-Kept p k now ss = run_signals-Kept (new_controller f p k now) ss

  switched-Kept :
      (c : Controller f.Real) (later : ℕ) (q : Profile) (ts : List (ℕ × Signal f))
      → (run_signals (set_profile f c later q) ts).env ≡ envelope q c.codec
  unfolding set_profile
  switched-Kept c later q ts = (run_signals-Kept (set_profile f c later q) ts).0

  -- From a new controller, through any signals, a switch of the profile and any more signals, the
  -- envelope in force is that of the profile that was chosen last, for the codec of the session; the
  -- bitrate and the frame rate stay in it, and every counter below the threshold at which it acts, if
  -- cutting by 0.7 does not increase a bitrate; the next bitrate of a tick stays within a u32.
  pub always-InRange :
      (laws : IsF32 f) (p q : Profile) (k : Codec) (now later : ℕ) (ss ts : List (ℕ × Signal f))
      → let c = run_signals (new_controller f p k now) ss in
        let d = run_signals (set_profile f c later q) ts in
        (c.env ≡ envelope p k)
        × InRange c
        × (d.env ≡ envelope q k)
        × InRange d
        × (d.bitrate_kbps + max (d.bitrate_kbps / 12) 100 < 2 ^ 32)
  always-InRange laws p q k now later ss ts =
      let v = run_signals-InRange laws (new_controller f p k now) ss (new-InRange p k now) in
      let c = run_signals (new_controller f p k now) ss in
      let w =
        run_signals-InRange laws (set_profile f c later q) ts (set_profile-InRange c later q v) in
      let d = run_signals (set_profile f c later q) ts in
      let cap : d.bitrate_kbps ≤ 120_000 = omega (arith, w.kbps_high, w.env_ok.kbps_cap) in
      let (own, codec) = started-Kept p k now ss in
      let env = switched-Kept c later q ts ∙ ap (envelope q) codec in
      (own, v, env, w, ground (arith, cap))
