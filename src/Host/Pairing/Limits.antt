-- ===== src/Host/Pairing/Limits.antt =====
-- Guesses of the PIN: how they are limited and counted, and where they are not.
use nebula_display.Prelude.{
  ℕ, ◌/◌, ◌-◌, ◌<◌, lt→ltb, lookup, ◌≡◌, refl, true, Option, none, some, List,
}
use nebula_display.Protocol.Crypto.{mac_equal_iff}
use nebula_display.Protocol.Spake2.{Spake2Server}
use nebula_display.Protocol.Messages.{
  ClientInfo, retry_in, pair_start, spake2_start, spake2_confirm, auth_err,
}
use nebula_display.Host.Pin.{PinManager, locked_out, gate}
use nebula_display.Host.Trust.{enroll}
use nebula_display.Host.Handshake.{
  Primitives, AppState, AuthComplete, reject_with, Draws, await_pair_start, await_spake2_confirm,
  Handshake, select_codec,
}
use nebula_display.Host.Handshake.{
  is_pair, is_pair_spake2, Outcome, refuse, paired_device, enroll_client,
}
use nebula_display.Host.Spake2Arm.{
  spake2_gated, on_spake2_start, spake2_enrolled, spake2_proved, spake2_checked,
}
use nebula_display.Host.PinArm.{pair_gated, on_pair_start}
use nebula_display.Host.Pairing.{dispatch, process}
use nebula_display.Host.Pin.{Attempts, gate_entry}
use nebula_display.Prelude.{nat_eq}
use nebula_display.Host.Trust.{save, save_then}

module _ (p : Primitives) where
  -- A refusal of a locked address, which changes nothing and tells the whole seconds that are left.
  abbrev pub lockout_refusal : AppState → Handshake p → ℕ → Outcome p
  lockout_refusal s h left =
      some (s, h, reject_with (auth_err (retry_in (left / 1000))) "pairing lockout")

  still_locked :
      (m : PinManager) (ip now until : ℕ) (a : Attempts)
      → lookup ip m.attempts ≡ some a
      → a.locked_until ≡ some until
      → now < until
      → gate m ip now ≡ (m, locked_out (until - now))
  unfolding gate gate_entry
  still_locked m ip now until a known locked early = rw (known, locked, lt→ltb now until early) refl

  -- While an address is locked out, a client there gets no key exchange of the scheme that it announced: the
  -- start of one is refused with the time that is left, and the handshake, the count and the lockout of the
  -- address, the PIN and all else of the host are as before.
  pub lockout_stops :
      (s : AppState) (h : Handshake p) (d : Draws p) (sent : List ℕ) (until : ℕ) (a : Attempts)
      → h.phase ≡ await_pair_start
      → lookup h.peer_ip s.pins.attempts ≡ some a
      → a.locked_until ≡ some until
      → d.now < until
      → (is_pair_spake2 h.auth ≡ true
          → process p s h d (spake2_start sent) ≡ lockout_refusal s h (until - d.now))
        × (is_pair h.auth ≡ true
            → process p s h d (pair_start sent) ≡ lockout_refusal s h (until - d.now))
  unfolding process dispatch on_spake2_start spake2_gated on_pair_start pair_gated refuse
  lockout_stops s h d sent until a waits known locked early =
      let closed = still_locked s.pins h.peer_ip d.now until a known locked early in
      (λ auth. rw (waits, auth, closed) refl, λ auth. rw (waits, auth, closed) refl)

  abbrev pub completed : Outcome p → Option AuthComplete
  completed none = none
  completed (some (s, h, step)) = step.complete

  -- A SPAKE2 exchange that has begun completes on the right confirmation whatever the host then thinks of
  -- its PIN and of the address: the PIN may have paired another device, been replaced after a failure or
  -- be too old, and the address may be locked out.
  pub spent_pin_pairs :
      (s : AppState) (pins : PinManager) (h : Handshake p) (d : Draws p)
      (server : Spake2Server p.curve) (sent : List ℕ) (client : ClientInfo)
      → h.phase ≡ await_spake2_confirm server
      → p.b64_decode sent ≡ some server.keys.confirm_client
      → h.client ≡ some client
      → d.writable ≡ true
      → completed (process p (record s { pins = pins }) h d (spake2_confirm sent))
        ≡ some (paired_device p client server.keys.session_key (select_codec p s h))
  unfolding process dispatch spake2_checked spake2_proved spake2_enrolled enroll_client enroll
      save_then save select_codec
  spent_pin_pairs s pins h d server sent client q decoded known writable =
      rw
        (
          q,
          decoded,
          (mac_equal_iff server.keys.confirm_client server.keys.confirm_client).1 refl,
          known,
          writable,
        )
        refl
