-- ===== src/Host/Adapt.antt =====
-- host/service/src/adapt.rs: the controller that adapts a client's bitrate and frame rate. Instants and
-- durations are milliseconds; the reading of the clock is an argument of each method. The code's f32
-- arithmetic is a parameter `F32`; of it only the cut by 0.7 has a law, `IsF32`.
pub mod Range
pub mod Cooldown
pub mod Recovery
mod Examples
use nebula_display.Prelude.{
  ℕ, zero, suc, ◌+◌, ◌-◌, ◌*◌, ◌/◌, ◌%◌, ◌^◌, ◌≤◌, ◌<◌, min, max, ◌≡◌, refl, sym, ap, ◌∙◌, subst,
  ◌≢◌, ◌↔◌, ◌⊎◌, inl, inr, Bool, true, false, not, ◌&&◌, ◌||◌, Option, none, some, List, [], ◌∷◌,
  ◌++◌, map, append_assoc, append-nil, arith, ltb, leb, ◌==◌, if◌then◌else◌, ltb→lt, lt→ltb, le→ltb,
  ==_iff, Bool-cases, Option-cases, length, get_or, set, take, drop, replicate, All, keep, first,
  length-append, length-set, get_or-set_self, get_or-set_ne, take-append, drop-append, length-drop,
  All-keep, All-append, take-append_eq, drop-append_eq, list_eq, list_eq→eq, list_eq_refl,
  list_eq-of_ne, Eq, nat_eq, text_eq, lookup, insert, remove, lookup-insert, lookup-remove,
  lookup-insert_self, lookup-insert_ne, lookup-remove_self, lookup-remove_ne, Result, ok, err,
  ◌>>=◌, ok_or,
}
use nebula_display.Protocol.Media.{Codec, jpeg, h264, hevc, av1}

-- The f32 operations that the controller uses.
pub record F32 : Type 1 where
  pub Real : Type 0
  pub of_ratio : ℕ → ℕ → Real
  pub max_value : Real
  pub leb_f : Real → Real → Bool
  pub ltb_f : Real → Real → Bool
  pub eqb_f : Real → Real → Bool
  pub min_f : Real → Real → Real
  pub add_f : Real → Real → Real
  pub mul_f : Real → Real → Real
  pub is_finite : Real → Bool
  pub of_u32 : ℕ → Real
  pub to_u32 : Real → ℕ

-- `((kbps as f32) * 0.7) as u32`.
abbrev pub cut_of : F32 → ℕ → ℕ
cut_of f kbps = f.to_u32 (f.mul_f (f.of_u32 kbps) (f.of_ratio 7 10))

-- Multiplying a number by 0.7 and truncating does not exceed it.
pub record IsF32 (f : F32) : Type 0 where
  pub cut_le : (kbps : ℕ) → cut_of f kbps ≤ kbps

pub data Profile : Type 0 where
  office video drawing gaming : Profile

pub record ProfileEnvelope : Type 0 where
  pub min_kbps : ℕ
  pub max_kbps : ℕ
  pub start_kbps : ℕ
  pub min_fps : ℕ
  pub max_fps : ℕ

unfoldable pub base_envelope : Profile → ProfileEnvelope
base_envelope office = record {
  min_kbps = 500;
  max_kbps = 6_000;
  start_kbps = 2_500;
  min_fps = 10;
  max_fps = 30;
}
base_envelope video = record {
  min_kbps = 2_000;
  max_kbps = 20_000;
  start_kbps = 8_000;
  min_fps = 24;
  max_fps = 60;
}
base_envelope drawing = record {
  min_kbps = 1_000;
  max_kbps = 10_000;
  start_kbps = 4_000;
  min_fps = 30;
  max_fps = 60;
}
base_envelope gaming = record {
  min_kbps = 3_000;
  max_kbps = 30_000;
  start_kbps = 10_000;
  min_fps = 30;
  max_fps = 60;
}

scale_for : Codec → ProfileEnvelope → ProfileEnvelope
scale_for jpeg env = record env {
  min_kbps = env.min_kbps * 2;
  max_kbps = env.max_kbps * 4;
  start_kbps = env.start_kbps * 4;
}
scale_for _ env = env

unfoldable pub envelope : Profile → Codec → ProfileEnvelope
unfolding base_envelope scale_for
envelope profile codec = scale_for codec (base_envelope profile)

abbrev pub decrease_cooldown : ℕ
decrease_cooldown = 1_500

abbrev pub increase_interval : ℕ
increase_interval = 1_000

abbrev pub clean_before_increase : ℕ
clean_before_increase = 2_000

abbrev pub clean_before_fps_restore : ℕ
clean_before_fps_restore = 8_000

abbrev pub rtt_streak_for_decrease : ℕ
rtt_streak_for_decrease = 4

abbrev pub queue_streak_for_decrease : ℕ
queue_streak_for_decrease = 2

abbrev pub backlog_for_decrease : ℕ
backlog_for_decrease = 3

abbrev pub floor_pressure_for_fps_drop : ℕ
floor_pressure_for_fps_drop = 2

-- `AdaptiveController`.
pub record Controller (R : Type 0) : Type 0 where
  pub codec : Codec
  pub env : ProfileEnvelope
  pub bitrate_kbps : ℕ
  pub fps : ℕ
  pub rtt_min_ms : R
  pub rtt_smooth_ms : R
  pub rtt_high_streak : ℕ
  pub queue_high_streak : ℕ
  pub backlog_recent : ℕ
  pub floor_pressure : ℕ
  pub last_decrease : ℕ
  pub last_increase : ℕ
  pub clean_since : ℕ

module _ (f : F32) where
  -- `new`. The clock is past the first `decrease_cooldown` milliseconds.
  unfoldable pub new_controller : Profile → Codec → ℕ → Controller f.Real
  new_controller profile codec now = record {
    codec = codec;
    env = envelope profile codec;
    bitrate_kbps = (envelope profile codec).start_kbps;
    fps = (envelope profile codec).max_fps;
    rtt_min_ms = f.max_value;
    rtt_smooth_ms = f.of_ratio 0 1;
    rtt_high_streak = 0;
    queue_high_streak = 0;
    backlog_recent = 0;
    floor_pressure = 0;
    last_decrease = now - decrease_cooldown;
    last_increase = now;
    clean_since = now;
  }

  -- `set_profile`.
  unfoldable pub set_profile : Controller f.Real → ℕ → Profile → Controller f.Real
  set_profile c now profile =
      let env = envelope profile c.codec in
      record c {
        env = env;
        bitrate_kbps = min (max (max c.bitrate_kbps env.start_kbps) env.min_kbps) env.max_kbps;
        fps = env.max_fps;
        floor_pressure = 0;
        clean_since = now;
      }

  -- The cut of `try_decrease`, once the cooldown is over.
  act : Controller f.Real → ℕ → Controller f.Real
  act c now =
      if ltb c.env.min_kbps c.bitrate_kbps
      then record c {
        bitrate_kbps = max (cut_of f c.bitrate_kbps) c.env.min_kbps;
        floor_pressure = 0;
        last_decrease = now;
        clean_since = now;
      }
      else if leb floor_pressure_for_fps_drop (c.floor_pressure + 1)
      then record c {
        floor_pressure = 0;
        fps = max (c.fps / 2) c.env.min_fps;
        last_decrease = now;
        clean_since = now;
      }
      else record c {
        floor_pressure = c.floor_pressure + 1;
        last_decrease = now;
        clean_since = now;
      }

  -- `try_decrease`.
  unfoldable pub try_decrease : Controller f.Real → ℕ → Controller f.Real
  unfolding act
  try_decrease c now =
      if ltb (now - c.last_decrease) decrease_cooldown
      then record c { clean_since = now }
      else act c now

  -- `on_send_backlog`.
  unfoldable pub on_send_backlog : Controller f.Real → ℕ → Controller f.Real
  on_send_backlog c now =
      if leb backlog_for_decrease (c.backlog_recent + 1)
      then try_decrease (record c { backlog_recent = 0 }) now
      else record c { backlog_recent = c.backlog_recent + 1 }

  -- The new smoothed round trip of `on_rtt_sample`.
  smoothed : f.Real → f.Real → f.Real
  smoothed old rtt =
      if f.eqb_f old (f.of_ratio 0 1)
      then rtt
      else f.add_f (f.mul_f old (f.of_ratio 8 10)) (f.mul_f rtt (f.of_ratio 2 10))

  -- Whether the smoothed round trip stands well above the smallest one.
  bloated : f.Real → f.Real → Bool
  bloated low smooth =
      f.is_finite low
      && (f.ltb_f (f.add_f low (f.of_ratio 60 1)) smooth
          && f.ltb_f (f.mul_f low (f.of_ratio 2 1)) smooth)

  count_rtt : Controller f.Real → ℕ → Bool → Controller f.Real
  count_rtt c now high =
      if high
      then if leb rtt_streak_for_decrease (c.rtt_high_streak + 1)
        then try_decrease (record c { rtt_high_streak = 0 }) now
        else record c { rtt_high_streak = c.rtt_high_streak + 1 }
      else record c { rtt_high_streak = 0 }

  -- `on_rtt_sample`.
  unfoldable pub on_rtt_sample : Controller f.Real → ℕ → f.Real → Controller f.Real
  unfolding smoothed bloated count_rtt
  on_rtt_sample c now rtt =
      if f.leb_f rtt (f.of_ratio 0 1) || not (f.is_finite rtt)
      then c
      else let low = f.min_f c.rtt_min_ms rtt in
        let smooth = smoothed c.rtt_smooth_ms rtt in
        count_rtt (record c { rtt_min_ms = low; rtt_smooth_ms = smooth }) now (bloated low smooth)

  -- `on_viewer_stats`, of which only the depth of the queue is read.
  unfoldable pub on_viewer_stats : Controller f.Real → ℕ → ℕ → Controller f.Real
  on_viewer_stats c now queue_depth =
      if ltb 3 queue_depth
      then if leb queue_streak_for_decrease (c.queue_high_streak + 1)
        then try_decrease (record c { queue_high_streak = 0 }) now
        else record c { queue_high_streak = c.queue_high_streak + 1 }
      else record c { queue_high_streak = 0 }

  -- `on_tick`.
  unfoldable pub on_tick : Controller f.Real → ℕ → Controller f.Real
  on_tick c now =
      if ltb (now - c.clean_since) clean_before_increase
        || ltb (now - c.last_increase) increase_interval
      then c
      else if ltb c.bitrate_kbps c.env.max_kbps
      then record c {
        bitrate_kbps = min (c.bitrate_kbps + max (c.bitrate_kbps / 12) 100) c.env.max_kbps;
        backlog_recent = 0;
        last_increase = now;
      }
      else if ltb c.fps c.env.max_fps && leb clean_before_fps_restore (now - c.clean_since)
      then record c {
        fps = c.env.max_fps;
        floor_pressure = 0;
        backlog_recent = 0;
        last_increase = now;
      }
      else record c { backlog_recent = 0; last_increase = now }

  -- What can happen to a controller between two switches of the profile.
  pub data Signal : Type 0 where
    backlog tick : Signal
    rtt : f.Real → Signal
    stats : ℕ → Signal

  unfoldable pub react : Controller f.Real → ℕ → Signal → Controller f.Real
  unfolding on_send_backlog on_rtt_sample on_viewer_stats on_tick
  react c now backlog = on_send_backlog c now
  react c now tick = on_tick c now
  react c now (rtt r) = on_rtt_sample c now r
  react c now (stats n) = on_viewer_stats c now n
