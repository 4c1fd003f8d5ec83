-- ===== src/Host/Adapt/Examples.antt =====
-- Runs of the theorems on the controller, over numbers in tenths.
use nebula_display.Prelude.{
  ℕ, ◌+◌, ◌*◌, ◌/◌, ◌^◌, ◌<◌, min, max, ◌≡◌, true, List, [], ◌∷◌, arith, ltb, leb, ◌==◌, nat_eq,
  text_eq,
}
use nebula_display.Protocol.Media.{h264}
use nebula_display.Host.Adapt.{
  F32, IsF32, office, gaming, Controller, new_controller, set_profile, Signal, backlog, tick, rtt,
  stats,
}
use nebula_display.Host.Adapt.{envelope}
use nebula_display.Host.Adapt.Range.{InRange, run_signals, always-InRange}
use nebula_display.Host.Adapt.Recovery.{ticks, ticks_recover}

-- Numbers in tenths.
abbrev tenths : F32
tenths = record {
  Real = ℕ;
  of_ratio = λ p q. 10 * p / q;
  max_value = 1_000_000;
  leb_f = leb;
  ltb_f = ltb;
  eqb_f = λ a b. a == b;
  min_f = min;
  add_f = λ a b. a + b;
  mul_f = λ a b. a * b / 10;
  is_finite = λ a. true;
  of_u32 = λ n. 10 * n;
  to_u32 = λ a. a / 10;
}

tenths-IsF32 : IsF32 tenths
tenths-IsF32 = record { cut_le = λ kbps. omega arith }

abbrev congestion : List (ℕ × Signal tenths)
congestion = (2_000, backlog) ∷ (2_050, backlog) ∷ (2_100, backlog) ∷ (6_000, tick) ∷ []

abbrev late : List (ℕ × Signal tenths)
late = (9_000, rtt 300) ∷ (9_500, stats 5) ∷ []

always-InRange_example :
    let c = run_signals tenths (new_controller tenths office h264 1_500) congestion in
    let d = run_signals tenths (set_profile tenths c 8_000 gaming) late in
    (c.env ≡ envelope office h264)
    × InRange tenths c
    × (d.env ≡ envelope gaming h264)
    × InRange tenths d
    × (d.bitrate_kbps + max (d.bitrate_kbps / 12) 100 < 2 ^ 32)
always-InRange_example =
    always-InRange tenths tenths-IsF32 office gaming h264 1_500 8_000 congestion late

-- A controller at the floor of its bitrate, that was cut once there.
abbrev at_floor : Controller ℕ
at_floor = record {
  codec = h264;
  env = record { min_kbps = 500; max_kbps = 6_000; start_kbps = 2_500; min_fps = 10; max_fps = 30 };
  bitrate_kbps = 500;
  fps = 30;
  rtt_min_ms = 100;
  rtt_smooth_ms = 100;
  rtt_high_streak = 0;
  queue_high_streak = 0;
  backlog_recent = 2;
  floor_pressure = 1;
  last_decrease = 2_000;
  last_increase = 0;
  clean_since = 2_000;
}

abbrev above_floor : Controller ℕ
above_floor = record at_floor { bitrate_kbps = 1_000; floor_pressure = 0 }

abbrev near_top : Controller ℕ
near_top = record at_floor { bitrate_kbps = 5_900; fps = 15; floor_pressure = 0 }

at_floor-InRange : InRange tenths at_floor
at_floor-InRange = ground arith

above_floor-InRange : InRange tenths above_floor
above_floor-InRange = ground arith

ticks_recover_example :
    ((ticks tenths near_top (9_000 ∷ 11_000 ∷ [])).bitrate_kbps ≡ 6_000)
    × ((ticks tenths near_top (9_000 ∷ 11_000 ∷ [])).fps ≡ 30)
ticks_recover_example =
    ticks_recover tenths near_top (9_000 ∷ []) 11_000 (omega arith) (omega arith) (omega arith, tt)
      (omega arith) (omega arith, (omega arith, tt)) (omega arith)
