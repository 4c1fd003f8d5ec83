-- ===== src/Host/Session/Audio.antt =====
-- host/service/src/session.rs and state.rs: the audio switch of a session and the host's count of audio
-- listeners, of which a session holds at most one.
pub mod Listeners
use nebula_display.Prelude.{
  ℕ, zero, suc, ◌+◌, ◌-◌, ◌%◌, ◌^◌, Bool, true, false, ◌&&◌, Option, none, some, List, [], ◌∷◌,
  if◌then◌else◌,
}
use nebula_display.Host.Control.{AudioWireCodec, opus}
use nebula_display.Host.Session.{AudioCtl}

-- `fetch_add` and `fetch_sub` of a usize of 64 bits.
abbrev pub audio_listener_add : ℕ → ℕ
audio_listener_add n = (n + 1) % 2 ^ 64

abbrev pub audio_listener_remove : ℕ → ℕ
audio_listener_remove n = (n + (2 ^ 64 - 1)) % 2 ^ 64

-- The update of `sync_audio`, by the new and the old state.
recount : Bool → Bool → AudioCtl → ℕ → AudioCtl × ℕ
recount true false a n = (record a { counted = true; audio_active = true }, audio_listener_add n)
recount false true a n =
    (record a { counted = false; audio_active = false }, audio_listener_remove n)
recount _ _ a n = (a, n)

unfoldable pub sync_audio : AudioCtl → ℕ → AudioCtl × ℕ
unfolding recount
sync_audio a n = recount (a.enabled && a.allowed) a.counted a n

-- The switch of a new session.
abbrev pub new_audio : Bool → AudioCtl
new_audio allowed = record {
  enabled = false;
  allowed = allowed;
  codec = opus;
  counted = false;
  audio_active = false;
}

abbrev pub codec_or : Option AudioWireCodec → AudioWireCodec → AudioWireCodec
codec_or none old = old
codec_or (some c) old = c

-- What `SetAudio` does to the switch, with `audio_enabled` of the configuration.
unfoldable pub set_enabled :
    (configured enabled : Bool) → Option AudioWireCodec → AudioCtl → ℕ → AudioCtl × ℕ
set_enabled configured enabled codec a n =
    sync_audio (record a { enabled = enabled && configured; codec = codec_or codec a.codec }) n

-- What `SetAudioGrant` does to it.
unfoldable pub set_allowed : Bool → AudioCtl → ℕ → AudioCtl × ℕ
set_allowed allowed a n = sync_audio (record a { allowed = allowed }) n

-- The end of a session.
unfoldable pub release : AudioCtl → ℕ → AudioCtl × ℕ
release a n =
    if a.counted
    then (record a { enabled = false; counted = false }, audio_listener_remove n)
    else (record a { enabled = false }, n)

-- The sessions of a host, and the count.
pub record Hub : Type 0 where
  pub listeners : ℕ
  pub sessions : List AudioCtl

pub data HubEvent : Type 0 where
  connect : (allowed : Bool) → HubEvent
  toggle : (i : ℕ) → (configured enabled : Bool) → Option AudioWireCodec → HubEvent
  grant : (i : ℕ) → (allowed : Bool) → HubEvent
  leave : (i : ℕ) → HubEvent

-- One session's switch is changed, together with the count.
unfoldable pub at_session :
    (AudioCtl → ℕ → AudioCtl × ℕ) → ℕ → List AudioCtl → ℕ → List AudioCtl × ℕ
at_session f i [] n = ([], n)
at_session f zero (a ∷ all) n = let (a', n') = f a n in (a' ∷ all, n')
at_session f (suc i) (a ∷ all) n = let (all', n') = at_session f i all n in (a ∷ all', n')

unfoldable pub on_event : Hub → HubEvent → Hub
on_event h (connect allowed) = record h { sessions = new_audio allowed ∷ h.sessions }
on_event h (toggle i configured enabled codec) =
    let (all, n) = at_session (set_enabled configured enabled codec) i h.sessions h.listeners in
    record { listeners = n; sessions = all }
on_event h (grant i allowed) =
    let (all, n) = at_session (set_allowed allowed) i h.sessions h.listeners in
    record { listeners = n; sessions = all }
on_event h (leave i) =
    let (all, n) = at_session release i h.sessions h.listeners in
    record { listeners = n; sessions = all }

unfoldable pub on_events : Hub → List HubEvent → Hub
on_events h [] = h
on_events h (e ∷ es) = on_events (on_event h e) es
