-- ===== src/Host/Session/Grants.antt =====
-- What a viewer can do to the host is what the panel has granted.
use nebula_display.Prelude.{
  ℕ, ◌≤◌, ◌≡◌, refl, ap, ◌∙◌, ◌≢◌, ◌⊎◌, inl, inr, Bool, true, false, not, ◌&&◌, ◌||◌, Option, none,
  some, List, [], ◌∷◌, ◌++◌, arith, ltb, ◌==◌, if◌then◌else◌, Bool-cases, length, list_eq, Result,
  ok, err,
}
use nebula_display.Viewer.Receive.{Codecs, Files, Reason, text}
use nebula_display.Host.Trust.{IoError}
use nebula_display.Host.Adapt.{F32}
use nebula_display.Host.Clipboard.{ClipboardSync, clipboard_max_bytes, apply_from_viewer}
use nebula_display.Host.Transfers.{Pending, Answer, register}
use nebula_display.Host.Control.{
  AudioWireCodec, InputEvent, SessionMsg, audio_grant, error, ping, pong, set_profile_to,
  set_input_mode, request_keyframe, input, stats_of, set_audio, clipboard, file_offer, file_answer,
  file_chunk, file_end, file_done, file_abort, bye,
}
use nebula_display.Host.Session.{
  ActiveTransfer, OutboundTransfer, Session, Env, Flow, send_msg, send_anyway, offer_msg,
  touch_recv,
}
use nebula_display.Host.Session.Audio.{set_enabled}
use nebula_display.Host.Session.Inbound.{
  drop_transfer, abort_with, chunk_applied, chunk_for, on_chunk, finished, end_for, on_end,
  apply_chunk, finalize_transfer,
}
use nebula_display.Host.Session.Outbound.{
  drop_outbound, start_sending, end_outbound, answered, on_file_answer, ended, on_file_done,
}
use nebula_display.Host.Session.Pump.{
  sane_id, sane_hash, max_file_bytes, is_busy, offer_of, on_input, on_set_audio, clipboard_result,
  asked_to_set, on_clipboard, registered, on_offer, cancelled, on_abort, on_stats, on_message,
  Incoming, closed, violation, rejected, other_channel, control, pump_turn,
}
use Prim.Native.String.{String}

-- What the input sink and the clipboard have been given, and the grants.
record Gates (R : Type 0) : Type 0 where
  applied : List (List (InputEvent R))
  clipboard_set : List (List ℕ)
  input_allowed : Bool
  clipboard_allowed : Bool

module _ {R : Type 0} where
  gates : Session R → Gates R
  gates s = record {
    applied = s.applied;
    clipboard_set = s.clipboard_set;
    input_allowed = s.input_allowed;
    clipboard_allowed = s.clipboard_allowed;
  }

  -- A branch on a test keeps what both branches keep.
  if-gates :
      (b : Bool) (x y : Session R) (g : Gates R)
      → gates x ≡ g
      → gates y ≡ g
      → gates (if b then x else y) ≡ g
  if-gates true x y g e e' = e
  if-gates false x y g e e' = e'

  if-gates_flow :
      (b : Bool) (x y : Session R × Flow) (g : Gates R)
      → gates x.0 ≡ g
      → gates y.0 ≡ g
      → gates (if b then x else y).0 ≡ g
  if-gates_flow true x y g e e' = e
  if-gates_flow false x y g e e' = e'

  offer_msg-gates :
      (env : Env) (s : Session R) (m : SessionMsg R) → gates (offer_msg env s m) ≡ gates s
  unfolding gates
  offer_msg-gates env s m = if-gates env.queue_room _ _ (gates s) refl refl

  send_msg-gates :
      (env : Env) (s : Session R) (m : SessionMsg R) → gates (send_msg env s m).0 ≡ gates s
  unfolding gates
  send_msg-gates env s m = if-gates_flow env.writer_alive _ _ (gates s) refl refl

  send_anyway-gates :
      (env : Env) (s : Session R) (m : SessionMsg R) → gates (send_anyway env s m) ≡ gates s
  unfolding gates
  send_anyway-gates env s m = if-gates env.writer_alive _ _ (gates s) refl refl

  drop_transfer-gates :
      (env : Env) (o : Option ActiveTransfer) (s : Session R)
      → gates (drop_transfer env o s) ≡ gates s
  unfolding gates drop_transfer
  drop_transfer-gates env none s = refl
  drop_transfer-gates env (some t) s = refl

  drop_outbound-gates :
      (env : Env) (o : Option OutboundTransfer) (s : Session R)
      → gates (drop_outbound env o s) ≡ gates s
  unfolding gates drop_outbound
  drop_outbound-gates env none s = refl
  drop_outbound-gates env (some t) s = refl

  abort-gates :
      (env : Env) (s : Session R) (id : List ℕ) (r : Reason)
      → gates (abort_with env s id r) ≡ gates s
  unfolding abort_with
  abort-gates env s id r =
      send_anyway-gates env (drop_transfer env s.transfer s) (file_abort id r)
      ∙ drop_transfer-gates env s.transfer s

  applied-gates :
      (env : Env) (s : Session R) (id : List ℕ) (r : Result Reason (Files × ActiveTransfer))
      → gates (chunk_applied env s id r) ≡ gates s
  unfolding gates chunk_applied
  applied-gates env s id (ok (files, t)) = refl
  applied-gates env s id (err reason) = abort-gates env s id reason

  chunk-gates :
      (c : Codecs) (env : Env) (s : Session R) (o : Option ActiveTransfer) (id : List ℕ) (seq : ℕ)
      (data_b64 : List ℕ)
      → gates (chunk_for c env s o id seq data_b64) ≡ gates s
  unfolding chunk_for
  chunk-gates c env s none id seq data_b64 = abort-gates env s id (text "no such transfer")
  chunk-gates c env s (some t) id seq data_b64 =
      if-gates (list_eq t.id id) _ _ (gates s)
        (applied-gates env s id (apply_chunk c env s.files t seq data_b64))
        (abort-gates env s id (text "no such transfer"))

  finished-gates :
      (env : Env) (s : Session R) (id : List ℕ) (r : Files × Result Reason (List ℕ))
      → gates (finished env s id r).0 ≡ gates s
  unfolding gates finished
  finished-gates env s id (files, ok dest) =
      send_msg-gates env (record s { transfer = none; files = files }) (file_done id)
  finished-gates env s id (files, err reason) =
      send_msg-gates env (record s { transfer = none; files = files }) (file_abort id reason)

  end-gates :
      (c : Codecs) (env : Env) (s : Session R) (o : Option ActiveTransfer) (id : List ℕ)
      → gates (end_for c env s o id).0 ≡ gates s
  unfolding end_for
  end-gates c env s none id = send_anyway-gates env s (file_abort id (text "no such transfer"))
  end-gates c env s (some t) id =
      if-gates_flow (list_eq t.id id) _ _ (gates s)
        (finished-gates env s id (finalize_transfer c env s.files t))
        (send_anyway-gates env s (file_abort id (text "no such transfer")))

  answered-gates :
      (env : Env) (s : Session R) (o : Option OutboundTransfer) (id : List ℕ) (accept : Bool)
      → gates (answered env s o id accept) ≡ gates s
  unfolding gates answered start_sending end_outbound
  answered-gates env s none id accept = refl
  answered-gates env s (some t) id true = if-gates (list_eq t.id id) _ _ (gates s) refl refl
  answered-gates env s (some t) id false =
      if-gates (list_eq t.id id) _ _ (gates s) (drop_outbound-gates env s.outbound s) refl

  ended-gates :
      (env : Env) (s : Session R) (o : Option OutboundTransfer) (id : List ℕ)
      → gates (ended env s o id) ≡ gates s
  unfolding gates ended end_outbound
  ended-gates env s none id = refl
  ended-gates env s (some t) id =
      if-gates (list_eq t.id id) _ _ (gates s) (drop_outbound-gates env s.outbound s) refl

  cancelled-gates :
      (env : Env) (s : Session R) (o : Option ActiveTransfer) (id : List ℕ)
      → gates (cancelled env s o id) ≡ gates s
  unfolding cancelled
  cancelled-gates env s none id = refl
  cancelled-gates env s (some t) id =
      if-gates (list_eq t.id id) _ _ (gates s) (drop_transfer-gates env (some t) s) refl

  registered-gates :
      (env : Env) (s : Session R) (id : List ℕ) (r : Pending × List Answer × Bool)
      → gates (registered env s id r).0 ≡ gates s
  unfolding gates registered
  registered-gates env s id (m, sent, true) = refl
  registered-gates env s id (m, sent, false) =
      send_msg-gates env (record s { pending = m })
        (file_answer id false (some (text "duplicate offer id")))

  offer-gates :
      (env : Env) (s : Session R) (id name : List ℕ) (size_bytes : ℕ) (sha256 : List ℕ)
      → gates (on_offer env s id name size_bytes sha256).0 ≡ gates s
  unfolding on_offer
  offer-gates env s id name size_bytes sha256 =
      let deny = λ (why : String). send_msg env s (file_answer id false (some (text why))) in
      let done = registered env s id (
        register env.session_room env.now_ms (offer_of env s id name size_bytes sha256)
          s.pending) in
      let x3 =
        if is_busy s.transfer s.offer_pending
        then deny "another transfer is already in progress"
        else done in
      let big = (size_bytes == 0) || ltb (max_file_bytes s.max_file_mb) size_bytes in
      let x2 = if big then deny "file exceeds the host's size limit" else x3 in
      if-gates_flow (not (sane_id id) || not (sane_hash sha256)) (deny "malformed offer") x2
        (gates s) (send_msg-gates env s _)
        (if-gates_flow big (deny "file exceeds the host's size limit") x3 (gates s)
          (send_msg-gates env s _)
          (if-gates_flow (is_busy s.transfer s.offer_pending)
            (deny "another transfer is already in progress") done (gates s) (send_msg-gates env s _)
            (registered-gates env s id (
              register env.session_room env.now_ms (offer_of env s id name size_bytes sha256)
                s.pending))))

  set_audio-gates :
      (env : Env) (s : Session R) (enabled : Bool) (codec : Option AudioWireCodec)
      → gates (on_set_audio env s enabled codec) ≡ gates s
  unfolding on_set_audio gates
  set_audio-gates env s enabled codec =
      let r = set_enabled s.audio_enabled enabled codec s.audio s.listeners in
      let s1 : Session R = record s { audio = r.0; listeners = r.1 } in
      let b = enabled && not s.audio.allowed in
      let s2 = if b then offer_msg env s1 (audio_grant false) else s1 in
      let e =
        if-gates b (offer_msg env s1 (audio_grant false)) s1 (gates s)
          (offer_msg-gates env s1 (audio_grant false)) refl in
      let m = error "audio_disabled" "audio is disabled on this host" in
      if-gates (enabled && not s.audio_enabled) (offer_msg env s2 m) s2 (gates s)
        (offer_msg-gates env s2 m ∙ e) e

  -- Something new reaches the input sink or the clipboard only by its own message, under its grant.
  abbrev pub IsGranted : Session R → Session R → Type 0
  IsGranted s s' =
      ((s'.applied ≡ s.applied)
        ⊎ ((events : List (InputEvent R)) × (s'.applied ≡ s.applied ++ (events ∷ []))
            × (s.input_allowed ≡ true)
            × (s.input_mode ≢ 0)))
      × ((s'.clipboard_set ≡ s.clipboard_set)
          ⊎ ((t : List ℕ) × (s'.clipboard_set ≡ s.clipboard_set ++ (t ∷ []))
              × (s.clipboard_allowed ≡ true)
              × (length t ≤ clipboard_max_bytes)))
      × (s'.input_allowed ≡ s.input_allowed)
      × (s'.clipboard_allowed ≡ s.clipboard_allowed)

  of_gates : (s s' : Session R) → gates s' ≡ gates s → IsGranted s s'
  unfolding gates
  of_gates s s' e = (
    inl (ap (λ (g : Gates R). g.applied) e),
    inl (ap (λ (g : Gates R). g.clipboard_set) e),
    ap (λ (g : Gates R). g.input_allowed) e,
    ap (λ (g : Gates R). g.clipboard_allowed) e,
  )

  input-IsGranted : (s : Session R) (events : List (InputEvent R)) → IsGranted s (on_input s events)
  unfolding on_input
  input-IsGranted s events = elim (Bool-cases (s.input_allowed && not (s.input_mode == 0))) [
    | inl e ↦ rw e (inr (events, refl, ground arith, ground arith), inl refl, refl, refl)
    | inr e ↦ rw e (inl refl, inl refl, refl, refl)
  ]

  result-gates :
      (env : Env) (s : Session R) (r : Result IoError Bool)
      → gates (clipboard_result env s r) ≡ gates s
  unfolding gates clipboard_result
  result-gates env s (ok false) = offer_msg-gates env s _
  result-gates env s (ok true) = refl
  result-gates env s (err e) = refl

  asked-IsGranted :
      (s : Session R) (sync : ClipboardSync) (o : Option (List ℕ))
      → s.clipboard_allowed ≡ true
      → ((t : List ℕ) → o ≡ some t → length t ≤ clipboard_max_bytes)
      → IsGranted s (asked_to_set o (record s { clipboard_sync = sync }))
  unfolding asked_to_set
  asked-IsGranted s sync none h small = (inl refl, inl refl, refl, refl)
  asked-IsGranted s sync (some t) h small = (inl refl, inr (t, refl, h, small t refl), refl, refl)

  -- What is granted stays so when the gates are kept after it.
  IsGranted-then : (s s' s'' : Session R) → IsGranted s s' → gates s'' ≡ gates s' → IsGranted s s''
  unfolding gates
  IsGranted-then s s' s'' (a, c, i, k) e =
      let ea : s''.applied ≡ s'.applied = ap (λ (g : Gates R). g.applied) e in
      let ec : s''.clipboard_set ≡ s'.clipboard_set = ap (λ (g : Gates R). g.clipboard_set) e in
      (
        rw ea a,
        rw ec c,
        ap (λ (g : Gates R). g.input_allowed) e ∙ i,
        ap (λ (g : Gates R). g.clipboard_allowed) e ∙ k,
      )

  clipboard-IsGranted :
      (text_hash : List ℕ → ℕ) (env : Env) (s : Session R) (content : List ℕ)
      → IsGranted s (on_clipboard text_hash env s content)
  unfolding on_clipboard apply_from_viewer
  clipboard-IsGranted text_hash env s content =
      elim (Bool-cases (not s.clipboard_allowed || not env.clipboard_joined)) [
        | inl e ↦ rw e (inl refl, inl refl, refl, refl)
        | inr e ↦
            let r = apply_from_viewer text_hash s.clipboard_sync content env.clipboard_writable in
            rw e (
              IsGranted-then s (asked_to_set r.1 (record s { clipboard_sync = r.0 })) _
                (asked-IsGranted s r.0 r.1 (ground arith) (λ t q. ground arith))
                (result-gates env (asked_to_set r.1 (record s { clipboard_sync = r.0 })) r.2))
      ]

module _ (f : F32) (c : Codecs) (text_hash : List ℕ → ℕ) where
  message-IsGranted :
      (env : Env) (s : Session f.Real) (msg : SessionMsg f.Real)
      → IsGranted s (on_message f c text_hash env s msg).0
  unfolding on_message on_stats on_file_answer on_file_done on_abort on_chunk on_end
  message-IsGranted env s (input events) = input-IsGranted s events
  message-IsGranted env s (clipboard content) = clipboard-IsGranted text_hash env s content
  message-IsGranted env s (ping t0_us) =
      of_gates s _ (offer_msg-gates env s (pong t0_us env.now_us))
  message-IsGranted env s (set_audio enabled codec) =
      of_gates s _ (set_audio-gates env s enabled codec)
  message-IsGranted env s (file_answer id accept reason) =
      of_gates s _ (answered-gates env s s.outbound id accept)
  message-IsGranted env s (file_done id) = of_gates s _ (ended-gates env s s.outbound id)
  message-IsGranted env s (file_offer id name size_bytes sha256) =
      of_gates s _ (offer-gates env s id name size_bytes sha256)
  message-IsGranted env s (file_chunk id seq data_b64) =
      of_gates s _ (chunk-gates c env s s.transfer id seq data_b64)
  message-IsGranted env s (file_end id) = of_gates s _ (end-gates c env s s.transfer id)
  message-IsGranted env s (file_abort id reason) =
      let s' = cancelled env s s.transfer id in
      of_gates s _ (ended-gates env s' s'.outbound id ∙ cancelled-gates env s s.transfer id)
  message-IsGranted env s (stats_of stats) = (inl refl, inl refl, refl, refl)
  message-IsGranted env s (set_profile_to profile) = (inl refl, inl refl, refl, refl)
  message-IsGranted env s (set_input_mode mode) = (inl refl, inl refl, refl, refl)
  message-IsGranted env s request_keyframe = (inl refl, inl refl, refl, refl)
  message-IsGranted env s (bye reason) = (inl refl, inl refl, refl, refl)
  message-IsGranted env s msg = (inl refl, inl refl, refl, refl)

  -- In one turn of the pump, whatever the viewer sends, the input sink gets at most one batch of events,
  -- and only when the panel has granted input and the mode is not view-only; the clipboard is asked to take
  -- at most one text, and only when that is granted and the text is within the size limit; and the viewer
  -- cannot change either grant.
  pub turn-IsGranted :
      (env : Env) (s : Session f.Real) (got : Incoming f c text_hash)
      → IsGranted s (pump_turn f c text_hash env s got).0
  unfolding pump_turn
  turn-IsGranted env s closed = (inl refl, inl refl, refl, refl)
  turn-IsGranted env s violation = (inl refl, inl refl, refl, refl)
  turn-IsGranted env s rejected = (inl refl, inl refl, refl, refl)
  turn-IsGranted env s other_channel = (inl refl, inl refl, refl, refl)
  turn-IsGranted env s (control none) = (inl refl, inl refl, refl, refl)
  turn-IsGranted env s (control (some msg)) = message-IsGranted env (touch_recv env s) msg
