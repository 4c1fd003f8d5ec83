-- ===== src/Client/Serve.antt =====
-- host/service/src/pairing.rs, as a client meets it: the answers of the host to the messages of a pairing
-- by the key exchange.
use nebula_display.Prelude.{
  ℕ, ◌+◌, ◌≡◌, refl, ◌∙◌, arith, true, false, Option, none, some, List, [], ◌∷◌, ◌++◌, ltb, length,
  codes, list_eq_refl, if_true, if_false, le→ltb, length-append, take-append_eq, drop-append_eq, ok,
}
use nebula_display.Protocol.Media.{Codec}
use nebula_display.Protocol.Crypto.{mac_equal_iff}
use nebula_display.Protocol.Envelope.{IsAead}
use nebula_display.Protocol.Spake2.{Spake2Keys, Spake2Server, respond}
use nebula_display.Protocol.Messages.{
  ClientInfo, pair_spake2, ControlMsg, hello, hello_ack, spake2_start, spake2_challenge,
  spake2_confirm, spake2_result,
}
use nebula_display.Host.Pin.{PinManager, allowed, gate, current_pin, consume}
use nebula_display.Host.Trust.{enroll, save, save_then, get, new_device}
use nebula_display.Host.Trust.Lookup.{get-enroll}
use nebula_display.Host.Handshake.{
  Primitives, AppState, AuthComplete, Step, reply_with, Draws, await_pair_start,
  await_spake2_confirm, finished, Handshake, new_handshake, select_codec, auth_ok_reply, seal_blob,
  open_blob, Outcome, paired_device, enroll_client,
}
use nebula_display.Host.Pairing.{process, protocol_version}

module _ (p : Primitives) where
  -- A message that reaches the host, with what the host draws for it.
  pub record Arrival : Type 0 where
    pub draws : Draws p
    pub message : ControlMsg

  abbrev pub or_later : Option AuthComplete → Option AuthComplete → Option AuthComplete
  or_later none later = later
  or_later (some done) later = some done

  serve_next :
      Outcome p
      → (AppState → Handshake p → Option (AppState × List ControlMsg × Option AuthComplete))
      → Option (AppState × List ControlMsg × Option AuthComplete)
  serve_next none k = none
  serve_next (some (s, h, step)) k = elim (k s h) [
    | none ↦ none
    | some (after, replies, done) ↦
        some (after, step.replies ++ replies, or_later step.complete done)
  ]

  -- Messages that arrive in turn: the state of the host afterwards, its answers and what it completes to;
  -- `none` is a panic.
  unfoldable pub serve :
      AppState
      → Handshake p
      → List Arrival
      → Option (AppState × List ControlMsg × Option AuthComplete)
  unfolding serve_next
  serve s h [] = some (s, [], none)
  serve s h (a ∷ later) = serve_next (process p s h a.draws a.message) (λ s h. serve s h later)

  abbrev pub arrivals : List (Draws p) → List ControlMsg → List Arrival
  arrivals (d ∷ ds) (m ∷ msgs) = record { draws = d; message = m } ∷ arrivals ds msgs
  arrivals [] msgs = []
  arrivals (d ∷ ds) [] = []

  pub serve-step :
      (s s' after : AppState) (h h' : Handshake p) (a : Arrival) (later : List Arrival)
      (step : Step) (replies : List ControlMsg) (outcome : Option AuthComplete)
      → process p s h a.draws a.message ≡ some (s', h', step)
      → serve s' h' later ≡ some (after, replies, outcome)
      → serve s h (a ∷ later)
        ≡ some (after, step.replies ++ replies, or_later step.complete outcome)
  unfolding serve serve_next
  serve-step s s' after h h' a later step replies outcome one rest = rw (one, rest) refl

  pub open_blob-seal_blob :
      (laws : IsAead p.aead) (nonce key plain aad : List ℕ)
      → length nonce ≡ 12
      → open_blob p key (seal_blob p nonce key plain aad) aad ≡ ok plain
  unfolding open_blob seal_blob
  open_blob-seal_blob laws nonce key plain aad len =
      let sealed = p.aead.encrypt key nonce aad plain in
      let long : ltb (length (nonce ++ sealed)) (12 + 16) ≡ false =
        le→ltb _ _ (omega (arith, length-append nonce sealed, laws.tag_len key nonce aad plain)) in
      if_false _ _ _ long
      ∙ rw (take-append_eq 12 nonce sealed len, drop-append_eq 12 nonce sealed len, laws.opens) refl

  -- The handshake of the host after the client's hello.
  abbrev pub greeted : ℕ → List ℕ → ClientInfo → List Codec → Handshake p
  greeted ip nonce client codecs = record {
    peer_ip = ip;
    phase = await_pair_start;
    nonce = nonce;
    client = some client;
    auth = some pair_spake2;
    client_codecs = codecs;
  }

  abbrev pub ack : AppState → List ℕ → ControlMsg
  ack s nonce =
      hello_ack protocol_version
        (record { name = s.name; app_version = s.app_version; fingerprint = s.fingerprint }) true
        (p.b64_encode nonce)

  pub process-hello :
      (s : AppState) (ip : ℕ) (nonce : List ℕ) (d : Draws p) (client : ClientInfo)
      (codecs : List Codec)
      → process p s (new_handshake p ip nonce) d (hello protocol_version client pair_spake2 codecs)
        ≡ some (s, greeted ip nonce client codecs, reply_with (ack s nonce))
  unfolding process new_handshake
  process-hello s ip nonce d client codecs = refl

  pub process-spake2_start :
      (s : AppState) (h : Handshake p) (d : Draws p) (share chars : List ℕ)
      (pins pins' : PinManager) (server : Spake2Server p.curve)
      → h.phase ≡ await_pair_start
      → h.auth ≡ some pair_spake2
      → p.b64_decode (p.b64_encode share) ≡ some share
      → gate s.pins h.peer_ip d.now ≡ (pins, allowed)
      → current_pin pins d.now d.word ≡ (pins', chars)
      → respond p.curve p.hasher p.kdf chars h.nonce share d.scalar ≡ some (ok server)
      → process p s h d (spake2_start (p.b64_encode share))
        ≡ some (
          record s { pins = pins' },
          record h { phase = await_spake2_confirm server },
          reply_with (spake2_challenge (p.b64_encode server.share)),
        )
  unfolding process
  process-spake2_start s h d share chars pins pins' server waits auth b64 gated shown responds =
      rw (waits, auth, gated, b64, shown, responds) refl

  -- The host's state, and its two last answers, when the client has proved the PIN.
  abbrev pub enrolled : AppState → Handshake p → Draws p → ClientInfo → AppState
  enrolled s h d client = record s {
    pins = consume s.pins h.peer_ip;
    trust =
        (enroll p.hex s.trust client.device_id client.name client.platform d.token d.now_unix
          true).0;
  }

  -- The store then knows the client, by its token, and is saved.
  pub enrolled-device :
      (s : AppState) (h : Handshake p) (d : Draws p) (client : ClientInfo)
      → get (enrolled s h d client).trust client.device_id
        ≡ some (new_device p.hex client.device_id client.name client.platform d.token d.now_unix)
  enrolled-device s h d client =
      get-enroll p.hex s.trust client.device_id client.name client.platform d.token client.device_id
        d.now_unix true
      ∙ if_true _ _ _ (list_eq_refl client.device_id)

  pub enrolled-saved :
      (s : AppState) (h : Handshake p) (d : Draws p) (client : ClientInfo)
      → (enrolled s h d client).trust.saved ≡ (enrolled s h d client).trust.devices
  unfolding enroll save_then save
  enrolled-saved s h d client = refl

  abbrev pub granted : Draws p → Spake2Keys → ControlMsg
  granted d keys =
      spake2_result true (some (p.b64_encode keys.confirm_server))
        (some (p.b64_encode (seal_blob p d.seal_nonce keys.token_key d.token (codes "token")))) none

  pub process-spake2_confirm :
      (s : AppState) (h : Handshake p) (d : Draws p) (client : ClientInfo)
      (server : Spake2Server p.curve)
      → h.phase ≡ await_spake2_confirm server
      → h.client ≡ some client
      → p.b64_decode (p.b64_encode server.keys.confirm_client) ≡ some server.keys.confirm_client
      → d.writable ≡ true
      → process p s h d (spake2_confirm (p.b64_encode server.keys.confirm_client))
        ≡ some (
          enrolled s h d client,
          record h { phase = finished },
          record {
            replies = granted d server.keys ∷ auth_ok_reply p (enrolled s h d client) h false ∷ [];
            complete = some (
                paired_device p client server.keys.session_key
                  (select_codec p (enrolled s h d client) h));
            reject = none;
          },
        )
  unfolding process enroll_client enroll save_then
  process-spake2_confirm s h d client server waits known b64 good =
      let same = (mac_equal_iff server.keys.confirm_client server.keys.confirm_client).1 refl in
      rw (waits, b64, same, known, good) refl
