-- ===== src/Host/Session/Video/Keyframes.antt =====
-- A keyframe that is asked for is not forgotten.
use nebula_display.Prelude.{
  ◌+◌, ◌%◌, ◌^◌, ◌≤◌, ◌<◌, ◌≡◌, refl, ◌≢◌, ◌⊎◌, inl, inr, Bool, true, false, not, ◌&&◌, ◌||◌,
  Option, none, some, List, [], ◌∷◌, arith, ltb, ◌==◌, if◌then◌else◌, Bool-cases, length,
}
use nebula_display.Protocol.Media.{VideoFrame}
use nebula_display.Viewer.Receive.Consistency.{if_both}
use nebula_display.Host.Adapt.{F32, on_tick}
use nebula_display.Host.Session.{Session, Flow}
use nebula_display.Host.Session.Video.{
  CapturedFrame, Encoded, Video, VideoEnv, is_newer, holds_keyframe, publish, use_encoded,
  encode_frame, fit_encoder, pick_frame, video_turn,
}

-- A keyframe is asked for, or one stands in the slot and the writer has not taken it.
abbrev pub Owed : Bool → Video → Type 0
Owed force v = (force ≡ true) ⊎ ((holds_keyframe v.slot ≡ true) × (v.consumed_seq < v.out_seq))

pub record IsOwed (force : Bool) (v : Video) : Type 0 where
  pub bounded : v.consumed_seq ≤ v.out_seq
  pub owed : Owed force v

-- The encoder neither fails nor leaves the frame out.
abbrev pub IsEncoding : VideoEnv → Type 0
IsEncoding env = (fk : Bool) → (e : Encoded) × (env.encoded fk ≡ some e) × (length e.payload ≢ 0)

-- What happens to the video of a session: a turn of the task, a request by the viewer, and the writer, which
-- takes the frame of the slot.
pub data VideoEvent : Type 0 where
  turn : (env : VideoEnv) → VideoEvent
  request take : VideoEvent

-- In every turn the encoder encodes.
abbrev pub AllEncode : List VideoEvent → Type 0
AllEncode [] = Unit
AllEncode (turn env ∷ es) = IsEncoding env × AllEncode es
AllEncode (e ∷ es) = AllEncode es

abbrev pub any : List Bool → Bool
any [] = false
any (b ∷ bs) = b || any bs

module _ (f : F32) where
  abbrev OwedIn : Session f.Real × Video × Flow → Type 0
  OwedIn (s, v, flow) = IsOwed s.force_keyframe v

  publish-OwedIn :
      (env : VideoEnv) (s : Session f.Real) (v : Video) (vf : VideoFrame)
      → v.consumed_seq ≤ v.out_seq
      → ((vf.keyframe ≡ true) ⊎ Owed s.force_keyframe v)
      → OwedIn (publish f env s v vf)
  unfolding publish
  publish-OwedIn env s v vf b o = record {
    bounded = omega arith;
    owed =
        if_both
          (λ (x : Session f.Real).
            Owed x.force_keyframe
              (record v { out_seq = v.out_seq + 1; slot = some (v.out_seq + 1, vf) }))
          (not (v.out_seq == 0) && ltb v.consumed_seq v.out_seq) _ _ (next o) (on_time o);
  }
    where
      next :
          ((vf.keyframe ≡ true) ⊎ Owed s.force_keyframe v)
          → (not (v.out_seq == 0) && ltb v.consumed_seq v.out_seq) ≡ true
          → ((s.force_keyframe || (holds_keyframe v.slot && not vf.keyframe)) ≡ true)
            ⊎ ((vf.keyframe ≡ true) × (v.consumed_seq < v.out_seq + 1))
      next (inl k) late = inr (k, omega arith)
      next (inr (inl e)) late = inl (ground arith)
      next (inr (inr (k, u))) late = elim (Bool-cases vf.keyframe) [
        | inl y ↦ inr (y, omega arith)
        | inr n ↦ inl (ground arith)
      ]

      on_time :
          ((vf.keyframe ≡ true) ⊎ Owed s.force_keyframe v)
          → (not (v.out_seq == 0) && ltb v.consumed_seq v.out_seq) ≡ false
          → (s.force_keyframe ≡ true) ⊎ ((vf.keyframe ≡ true) × (v.consumed_seq < v.out_seq + 1))
      on_time (inl k) late = inr (k, omega arith)
      on_time (inr (inl e)) late = inl e
      on_time (inr (inr (k, u))) late = absurd (ground arith)

  use-OwedIn :
      (env : VideoEnv) (s : Session f.Real) (v : Video) (frame : CapturedFrame) (fk : Bool)
      (e : Encoded)
      → v.consumed_seq ≤ v.out_seq
      → length e.payload ≢ 0
      → Owed fk v
      → OwedIn (use_encoded f env s v frame fk (some e))
  unfolding use_encoded
  use-OwedIn env s v frame fk e b full o =
      if_both OwedIn (length e.payload == 0) _ _ (λ t. absurd (full (ground arith)))
        (λ t.
          publish-OwedIn env _ (record v { frame_seq16 = (v.frame_seq16 + 1) % 2 ^ 32 }) _ b
            (elim (Bool-cases e.keyframe) [
              | inl k ↦ inl k
              | inr n ↦ elim o [
                | inl asked ↦ inr (inl (ground (arith, asked, n)))
                | inr unsent ↦ inr (inr unsent)
              ]
            ]))

  encode-OwedIn :
      (env : VideoEnv) (s : Session f.Real) (v : Video) (frame : CapturedFrame)
      → IsEncoding env
      → IsOwed s.force_keyframe v
      → OwedIn (encode_frame f env s v frame)
  unfolding encode_frame
  encode-OwedIn env s v frame enc h =
      let (e, q, full) = enc s.force_keyframe in
      rw q (
        use-OwedIn env _ (record v { encoder_width = frame.width; encoder_height = frame.height })
          frame s.force_keyframe e h.bounded full h.owed)

  fit-OwedIn :
      (env : VideoEnv) (s : Session f.Real) (v : Video) (frame : CapturedFrame)
      → IsEncoding env
      → IsOwed s.force_keyframe v
      → OwedIn (fit_encoder f env s v frame)
  unfolding fit_encoder
  fit-OwedIn env s v frame enc h =
      if_both OwedIn
        ((v.encoder_width == frame.width) && (v.encoder_height == frame.height)
          || ((v.encoder_width == 0) && (v.encoder_height == 0)))
        _ _ (λ _. encode-OwedIn env s v frame enc h)
        (λ _.
          if_both OwedIn env.recreated _ _
            (λ _.
              encode-OwedIn env (record s { force_keyframe = true }) v frame enc
                (record { bounded = h.bounded; owed = inl refl }))
            (λ _. h))

  pick-OwedIn :
      (env : VideoEnv) (s : Session f.Real) (v : Video) (o : Option CapturedFrame)
      → IsEncoding env
      → IsOwed s.force_keyframe v
      → OwedIn (pick_frame f env s v o)
  unfolding pick_frame
  pick-OwedIn env s v none enc h = h
  pick-OwedIn env s v (some frame) enc h =
      if_both OwedIn (is_newer frame v.last_captured_seq s.force_keyframe) _ _
        (λ _.
          fit-OwedIn env s (record v { last_captured_seq = frame.seq }) frame enc
            (record { bounded = h.bounded; owed = h.owed }))
        (λ _. h)

  -- The session, the video and what the writer has taken.
  pub record Watched : Type 0 where
    pub session : Session f.Real
    pub video : Video
    pub taken : List Bool  -- of each frame, whether it was a keyframe

  unfoldable pub on_video_event : Watched → VideoEvent → Watched
  on_video_event w (turn env) =
      let (s, v, flow) = video_turn f env w.session w.video in record w { session = s; video = v }
  on_video_event w request = record w { session = record w.session { force_keyframe = true } }
  on_video_event w take =
      if ltb w.video.consumed_seq w.video.out_seq
      then record w {
        video = record w.video { consumed_seq = w.video.out_seq };
        taken = holds_keyframe w.video.slot ∷ w.taken;
      }
      else w

  unfoldable pub on_video_events : Watched → List VideoEvent → Watched
  on_video_events w [] = w
  on_video_events w (e ∷ es) = on_video_events (on_video_event w e) es

  abbrev Fine : Watched → Type 0
  Fine w = (any w.taken ≡ true) ⊎ IsOwed w.session.force_keyframe w.video

  event-Fine :
      (w : Watched) (e : VideoEvent) (es : List VideoEvent)
      → AllEncode (e ∷ es)
      → Fine w
      → Fine (on_video_event w e)
  unfolding on_video_event video_turn
  event-Fine w (turn env) es enc (inl t) = inl t
  event-Fine w (turn env) es enc (inr h) = inr (
      pick-OwedIn env (record w.session { ctl = on_tick f w.session.ctl env.now_ms }) w.video
        env.newest enc.0 h)
  event-Fine w request es enc (inl t) = inl t
  event-Fine w request es enc (inr h) = inr (record { bounded = h.bounded; owed = inl refl })
  event-Fine w take es enc h =
      if_both Fine (ltb w.video.consumed_seq w.video.out_seq) _ _ (λ late. took h late) (λ _. h)
    where
      took :
          Fine w
          → ltb w.video.consumed_seq w.video.out_seq ≡ true
          → Fine (record w {
            video = record w.video { consumed_seq = w.video.out_seq };
            taken = holds_keyframe w.video.slot ∷ w.taken;
          })
      took (inl t) late = inl (ground arith)
      took (inr h) late = elim h.owed [
        | inl asked ↦ inr (record { bounded = omega arith; owed = inl asked })
        | inr (k, u) ↦ inl (ground arith)
      ]

  events-Fine :
      (w : Watched) (es : List VideoEvent) → AllEncode es → Fine w → Fine (on_video_events w es)
  unfolding on_video_events
  events-Fine w [] enc h = h
  events-Fine w (e ∷ es) enc h =
      events-Fine (on_video_event w e) es (rest e enc) (event-Fine w e es enc h)
    where
      rest : (e : VideoEvent) → AllEncode (e ∷ es) → AllEncode es
      rest (turn env) k = k.1
      rest request k = k
      rest take k = k

  -- Once a keyframe is asked for, then after any turns of the video task, requests and frames that the writer
  -- takes, however late, either the writer has taken a keyframe, or one is still asked for, or one waits in
  -- the slot: no frame that overwrites it makes the request forgotten. In each turn the encoder is supposed
  -- to encode, neither failing nor leaving the frame out.
  pub keyframe_not_lost :
      (w : Watched) (es : List VideoEvent)
      → AllEncode es
      → IsOwed w.session.force_keyframe w.video
      → let w' = on_video_events w es in
        (any w'.taken ≡ true) ⊎ IsOwed w'.session.force_keyframe w'.video
  keyframe_not_lost w es enc h = events-Fine w es enc (inr h)
