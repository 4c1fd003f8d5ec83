-- ===== src/Host/Pairing/Completion.antt =====
-- A handshake completes only on a proof: of the PIN, or of the token.
use nebula_display.Prelude.{
  ℕ, ◌+◌, ◌≤◌, ◌≡◌, refl, subst, ◌⊎◌, inl, inr, true, none, some, List, [], ◌∷◌, ◌++◌, arith,
  Bool-cases, Option-cases, ok,
}
use nebula_display.Protocol.Spake2.{Spake2Server}
use nebula_display.Protocol.Messages.{
  ClientInfo, token_of, unexpected_message, ControlMsg, hello, pair_start, pair_confirm,
  spake2_start, spake2_confirm, token_proof, auth_err,
}
use nebula_display.Host.Pin.{current_pin}
use nebula_display.Host.Trust.{TrustedDevice}
use nebula_display.Host.Handshake.{
  Primitives, AppState, AuthComplete, Step, reject_with, Draws, Phase, await_hello,
  await_pair_start, await_proof, await_spake2_confirm, finished, Handshake, select_codec,
  pairing_key, shared_session_key, open_blob,
}
use Prim.Native.String.{String}
use nebula_display.Host.Trust.{get}
use nebula_display.Host.Trust.Auth.{Proves}
use nebula_display.Host.Handshake.{is_pair, is_pair_spake2, Outcome, refuse}
use nebula_display.Host.Pairing.{variant_name, unexpected, dispatch, process}
use nebula_display.Host.PinArm.{confirm_context}
use nebula_display.Host.Pairing.Soundness.{
  known_device, fresh_device, Sound, hello-Sound, pair_confirm-Sound, spake2_checked-Sound,
  spake2_starts-Sound, starts-Sound, token-Sound, unexpected-Sound,
}

module _ (p : Primitives) where
  -- The client confirmed a SPAKE2 exchange.
  abbrev pub BySpake2 : AppState → Handshake p → ControlMsg → AuthComplete → Type 0
  BySpake2 s h msg done =
      (server : Spake2Server p.curve) × (mac : List ℕ) × (client : ClientInfo) × (h.phase
        ≡ await_spake2_confirm server)
      × (msg ≡ spake2_confirm mac)
      × (p.b64_decode mac ≡ some server.keys.confirm_client)
      × (h.client ≡ some client)
      × (done ≡ fresh_device p client server.keys.session_key (select_codec p s h))

  -- The client sealed the confirmation under the key that the PIN in force gives.
  abbrev pub ByPin : AppState → Handshake p → Draws p → ControlMsg → AuthComplete → Type 0
  ByPin s h d msg done =
      (shared : List ℕ) × (salt : List ℕ) × (client_pub : List ℕ) × (server_pub : List ℕ)
      × (sealed : List ℕ) × (blob : List ℕ) × (client : ClientInfo) × (h.phase
          ≡ await_proof shared salt client_pub server_pub)
      × (msg ≡ pair_confirm sealed)
      × (is_pair h.auth ≡ true)
      × (p.b64_decode sealed ≡ some blob)
      × (open_blob p (pairing_key p shared salt (current_pin s.pins d.now d.word).1 h.nonce) blob []
          ≡ ok (confirm_context p ++ h.nonce))
      × (h.client ≡ some client)
      × (done
          ≡ fresh_device p client (shared_session_key p shared salt h.nonce) (select_codec p s h))

  -- The client proved its token, and has the grants of its record.
  abbrev pub ByToken : AppState → Handshake p → ControlMsg → AuthComplete → Type 0
  ByToken s h msg done =
      (shared : List ℕ) × (salt : List ℕ) × (client_pub : List ℕ) × (server_pub : List ℕ)
      × (device_id : List ℕ) × (sent : List ℕ) × (proof : List ℕ) × (client : ClientInfo)
      × (dev : TrustedDevice) × (h.phase ≡ await_proof shared salt client_pub server_pub)
      × (msg ≡ token_proof sent)
      × (h.auth ≡ some (token_of device_id))
      × (p.b64_decode sent ≡ some proof)
      × Proves p.hasher p.hex s.trust device_id h.nonce client_pub server_pub proof
      × (get s.trust device_id ≡ some dev)
      × (h.client ≡ some client)
      × (done
          ≡ known_device p client (shared_session_key p shared salt h.nonce) (select_codec p s h)
              dev)

  abbrev pub Proved : AppState → Handshake p → Draws p → ControlMsg → AuthComplete → Type 0
  Proved s h d msg done = BySpake2 s h msg done ⊎ ByPin s h d msg done ⊎ ByToken s h msg done

  dispatch-Sound :
      (s : AppState) (h : Handshake p) (d : Draws p) (phase : Phase p) (msg : ControlMsg)
      → h.phase ≡ phase
      → Sound p (Proved s h d msg) (dispatch p s h d phase msg)
  unfolding dispatch
  dispatch-Sound s h d await_hello (hello protocol client auth codecs) q =
      hello-Sound p (Proved s h d (hello protocol client auth codecs)) s h protocol client auth
        codecs
  dispatch-Sound s h d await_pair_start (spake2_start share) q =
      elim (Bool-cases (is_pair_spake2 h.auth)) [
        | inl e ↦ rw e (spake2_starts-Sound p (Proved s h d (spake2_start share)) s h d share)
        | inr e ↦
            rw e (unexpected-Sound p (Proved s h d (spake2_start share)) s h (spake2_start share))
      ]
  dispatch-Sound s h d (await_spake2_confirm server) (spake2_confirm mac) q =
      spake2_checked-Sound p (Proved s h d (spake2_confirm mac)) s h d server.keys
        (p.b64_decode mac) (λ c e client. inl (server, mac, c, q, refl, e, client, refl))
  dispatch-Sound s h d await_pair_start (pair_start key) q =
      starts-Sound p (Proved s h d (pair_start key)) s h d key
  dispatch-Sound s h d (await_proof shared salt cpub spub) (pair_confirm sealed) q =
      elim (Bool-cases (is_pair h.auth)) [
        | inl e ↦ rw e (
            pair_confirm-Sound p (Proved s h d (pair_confirm sealed)) s h d shared salt
              (p.b64_decode sealed)
              (λ c blob decoded opened client. inr (
                inl (
                  shared, salt, cpub, spub, sealed, blob, c, q, refl, e, decoded, opened, client,
                  refl,
                ))))
        | inr e ↦
            rw e (unexpected-Sound p (Proved s h d (pair_confirm sealed)) s h (pair_confirm sealed))
      ]
  dispatch-Sound s h d (await_proof shared salt cpub spub) (token_proof sent) q =
      token-Sound p (Proved s h d (token_proof sent)) s h d shared salt cpub spub sent h.auth
        (λ c dev id proof auth decoded proves found client. inr (
          inr (
            shared, salt, cpub, spub, id, sent, proof, c, dev, q, refl, auth, decoded, proves,
            found, client, refl,
          )))
  dispatch-Sound s h d phase msg q = unexpected-Sound p (Proved s h d msg) s h msg

  -- A handshake completes only on a proof that the client knows a secret: the confirmation that the
  -- exchange calls for (SPAKE2), the sealed confirmation under the key of the PIN in force (the older
  -- scheme, if the client announced it), or the proof of the stored token on this nonce and these keys.
  -- A newly paired device has neither input nor the clipboard, a known one the grants of its record; the
  -- session key is that of the exchange, and the handshake is then finished.
  pub complete_cases :
      (s s' : AppState) (h h' : Handshake p) (d : Draws p) (msg : ControlMsg) (step : Step)
      (done : AuthComplete)
      → process p s h d msg ≡ some (s', h', step)
      → step.complete ≡ some done
      → (h'.phase ≡ finished) × Proved s h d msg done
  unfolding process
  complete_cases s s' h h' d msg step done e c =
      subst (Sound p (Proved s h d msg)) e (dispatch-Sound s h d h.phase msg refl) done c

  -- From a finished handshake on, every message is refused and it stays finished.
  finished_stays :
      (s : AppState) (h : Handshake p) (d : Draws p) (msg : ControlMsg)
      → h.phase ≡ finished
      → (r : String) × (m : ControlMsg) × (process p s h d msg ≡ some (s, h, reject_with m r))
  unfolding process dispatch unexpected refuse
  finished_stays s h d msg q =
      ("protocol violation", auth_err (unexpected_message (variant_name msg)), rw q refl)

  -- One message at a time, while other connections may change the state of the host in between.
  pub record Arrival : Type 0 where
    pub host : AppState
    pub draws : Draws p
    pub message : ControlMsg

  next_phase : Handshake p → Outcome p → Handshake p × ℕ
  next_phase h none = (h, 0)
  next_phase h (some (s', h', step)) = (h', elim step.complete [ none ↦ 0 | some done ↦ 1 ])

  -- How often a handshake completes while messages arrive.
  unfoldable pub completions : Handshake p → List Arrival → ℕ
  unfolding next_phase
  completions h [] = 0
  completions h (a ∷ as') =
      let r = next_phase h (process p a.host h a.draws a.message) in r.1 + completions r.0 as'

  finished-completions :
      (h : Handshake p) (as' : List Arrival) → h.phase ≡ finished → completions h as' ≡ 0
  unfolding completions
  finished-completions h [] q = refl
  finished-completions h (a ∷ as') q =
      let (r, m, e) = finished_stays a.host h a.draws a.message q in
      rw e (omega (arith, finished-completions h as' q))

  next_cases :
      (P : AuthComplete → Type 0) (h : Handshake p) (o : Outcome p)
      → Sound p P o
      → ((next_phase h o).1 ≡ 0)
        ⊎ (((next_phase h o).1 ≡ 1) × ((next_phase h o).0.phase ≡ finished))
  unfolding next_phase
  next_cases P h none sound = inl refl
  next_cases P h (some (s', h', step)) sound = elim (Option-cases step.complete) [
    | inl e ↦ inl (rw e refl)
    | inr (done, e) ↦ inr (rw e refl, (sound done e).0)
  ]

  -- Whatever messages a client sends, before and after, a connection completes at most once.
  pub completions_once : (h : Handshake p) (arrivals : List Arrival) → completions h arrivals ≤ 1
  unfolding completions process
  completions_once h [] = omega arith
  completions_once h (a ∷ as') =
      let o = process p a.host h a.draws a.message in
      let sound = dispatch-Sound a.host h a.draws h.phase a.message refl in
      elim (next_cases (Proved a.host h a.draws a.message) h o sound) [
        | inl e ↦ omega (arith, e, completions_once (next_phase h o).0 as')
        | inr (e, q) ↦ omega (arith, e, finished-completions (next_phase h o).0 as' q)
      ]
