-- ===== src/Host/Session/Audio/Listeners.antt =====
-- The count of audio listeners is the number of sessions that send audio.
use nebula_display.Prelude.{
  ℕ, zero, suc, ◌+◌, ◌^◌, ◌≤◌, ◌<◌, ◌≡◌, refl, Bool, ◌&&◌, Option, List, [], ◌∷◌, arith,
  if◌then◌else◌, All, length,
}
use nebula_display.Host.Control.{AudioWireCodec}
use nebula_display.Host.Session.{AudioCtl}
use nebula_display.Host.Session.Audio.{
  recount, sync_audio, set_enabled, set_allowed, codec_or, release, Hub, HubEvent, connect, toggle,
  grant, leave, at_session, on_event, on_events,
}

-- The sessions whose viewer wants audio and whose panel permits it.
abbrev pub listening : List AudioCtl → ℕ
listening [] = 0
listening (a ∷ all) = (if a.enabled && a.allowed then 1 else 0) + listening all

-- A session holds a place in the count exactly while both hold.
abbrev pub IsSynced : AudioCtl → Type 0
IsSynced a = a.counted ≡ a.enabled && a.allowed

listening-le : (all : List AudioCtl) → listening all ≤ length all
listening-le [] = omega arith
listening-le (a ∷ all) = ground (arith, listening-le all)

-- An update of one switch that keeps the count right, `rest` being what the other sessions hold.
abbrev Keeps : (AudioCtl → ℕ → AudioCtl × ℕ) → Type 0
Keeps f =
    (a : AudioCtl) (n rest : ℕ)
    → IsSynced a
    → n ≡ (if a.enabled && a.allowed then 1 else 0) + rest
    → rest + 1 < 2 ^ 64
    → let (a', n') = f a n in
      IsSynced a' × (n' ≡ (if a'.enabled && a'.allowed then 1 else 0) + rest)

sync-keeps :
    (a : AudioCtl) (n rest : ℕ)
    → n ≡ (if a.counted then 1 else 0) + rest
    → rest + 1 < 2 ^ 64
    → let (a', n') = sync_audio a n in
      IsSynced a' × (n' ≡ (if a'.enabled && a'.allowed then 1 else 0) + rest)
unfolding sync_audio recount
sync-keeps a n rest e h = ground arith

set_enabled-Keeps :
    (configured enabled : Bool) (codec : Option AudioWireCodec)
    → Keeps (set_enabled configured enabled codec)
unfolding set_enabled
set_enabled-Keeps configured enabled codec a n rest s e h =
    sync-keeps (record a { enabled = enabled && configured; codec = codec_or codec a.codec }) n rest
      (ground arith) h

set_allowed-Keeps : (allowed : Bool) → Keeps (set_allowed allowed)
unfolding set_allowed
set_allowed-Keeps allowed a n rest s e h =
    sync-keeps (record a { allowed = allowed }) n rest (ground arith) h

release-Keeps : Keeps release
unfolding release
release-Keeps a n rest s e h = ground arith

at_session-Keeps :
    (f : AudioCtl → ℕ → AudioCtl × ℕ) (i : ℕ) (all : List AudioCtl) (n rest : ℕ)
    → Keeps f
    → All IsSynced all
    → n ≡ listening all + rest
    → length all + rest < 2 ^ 64
    → let (all', n') = at_session f i all n in
      All IsSynced all' × (n' ≡ listening all' + rest) × (length all' ≡ length all)
unfolding at_session
at_session-Keeps f i [] n rest k s e h = (tt, e, refl)
at_session-Keeps f zero (a ∷ all) n rest k s e h =
    let c = k a n (listening all + rest) s.0 (omega arith) (omega (arith, listening-le all)) in
    ((c.0, s.1), omega (arith, c.1), refl)
at_session-Keeps f (suc i) (a ∷ all) n rest k s e h =
    let b : ℕ = if a.enabled && a.allowed then 1 else 0 in
    let c = at_session-Keeps f i all n (b + rest) k s.1 (omega arith) (ground arith) in
    ((s.0, c.0), omega (arith, c.1), omega (arith, c.2))

record IsCounted (h : Hub) : Type 0 where
  counted : h.listeners ≡ listening h.sessions
  synced : All IsSynced h.sessions

-- The sessions that an event adds.
abbrev pub joined : List HubEvent → ℕ
joined [] = 0
joined (connect allowed ∷ es) = suc (joined es)
joined (e ∷ es) = joined es

at_session-IsCounted :
    (f : AudioCtl → ℕ → AudioCtl × ℕ) (i : ℕ) (h : Hub)
    → Keeps f
    → IsCounted h
    → length h.sessions < 2 ^ 64
    → let (all, n) = at_session f i h.sessions h.listeners in
      IsCounted (record { listeners = n; sessions = all }) × (length all ≡ length h.sessions)
at_session-IsCounted f i h k c b =
    let e = c.counted in
    let r = at_session-Keeps f i h.sessions h.listeners 0 k c.synced (omega arith) (omega arith) in
    (record { counted = omega (arith, r.1); synced = r.0 }, r.2)

events-IsCounted :
    (h : Hub) (es : List HubEvent)
    → IsCounted h
    → length h.sessions + joined es < 2 ^ 64
    → IsCounted (on_events h es)
unfolding on_events on_event
events-IsCounted h [] c b = c
events-IsCounted h (connect allowed ∷ es) c b =
    events-IsCounted (on_event h (connect allowed)) es
      (record { counted = omega (arith, c.counted); synced = (refl, c.synced) }) (omega arith)
events-IsCounted h (toggle i configured enabled codec ∷ es) c b =
    let r =
      at_session-IsCounted (set_enabled configured enabled codec) i h
        (set_enabled-Keeps configured enabled codec) c (omega arith) in
    events-IsCounted (on_event h (toggle i configured enabled codec)) es r.0 (omega (arith, r.1))
events-IsCounted h (grant i allowed ∷ es) c b =
    let r =
      at_session-IsCounted (set_allowed allowed) i h (set_allowed-Keeps allowed) c (omega arith) in
    events-IsCounted (on_event h (grant i allowed)) es r.0 (omega (arith, r.1))
events-IsCounted h (leave i ∷ es) c b =
    let r = at_session-IsCounted release i h release-Keeps c (omega arith) in
    events-IsCounted (on_event h (leave i)) es r.0 (omega (arith, r.1))

-- After any events, fewer than 2^64 of them connections, the host's count of audio listeners is the number
-- of sessions whose viewer has asked for audio and whose panel permits it; the count does not wrap.
pub listeners_exact :
    (es : List HubEvent)
    → joined es < 2 ^ 64
    → let h = on_events (record { listeners = 0; sessions = [] }) es in
      h.listeners ≡ listening h.sessions
listeners_exact es b =
    (events-IsCounted (record { listeners = 0; sessions = [] }) es
      (record { counted = refl; synced = tt }) (omega arith)).counted
