-- ===== src/Protocol/Envelope/Stream.antt =====
-- A whole stream of envelopes between one sealer and one opener, over a link that loses some.
use nebula_display.Prelude.{
  ℕ, ◌+◌, ◌≤◌, ◌≡◌, refl, inl, inr, Bool, true, false, Option, none, some, List, [], ◌∷◌, arith,
  if◌then◌else◌, Bool-cases, length, Result, ok,
}
use nebula_display.Protocol.Error.{ProtocolError}
use nebula_display.Protocol.Envelope.{
  Channel, Aead, IsAead, u64_max, Sealer, Opener, at_chan, concat, seal_parts, open_envelope,
}
use nebula_display.Protocol.Envelope.Sync.{InSync, open-seal_parts, seal_parts_total}

pub record Sending : Type 0 where
  pub chan : Channel
  pub parts : List (List ℕ)
  pub arrives : Bool

abbrev pub Received : Type 0
Received = Result ProtocolError (Channel × List ℕ)

-- Each entry is sealed in turn, and opened if it arrives: the results of those that arrive, or `none`
-- if the sealer panics.
unfoldable pub transmit : Aead → Sealer → Opener → List Sending → Option (List Received)
transmit c s o [] = some []
transmit c s o (m ∷ ms) = elim (seal_parts c s m.chan m.parts) [
  | none ↦ none
  | some (s', env) ↦ elim m.arrives [
    | true ↦ elim (transmit c s' (open_envelope c o env).0 ms) [
      | none ↦ none
      | some rs ↦ some ((open_envelope c o env).1 ∷ rs)
    ]
    | false ↦ transmit c s' o ms
  ]
]

-- What should be received: the channel and joined parts of each entry that arrives.
abbrev pub delivered : List Sending → List Received
delivered [] = []
delivered (m ∷ ms) =
    let rest = delivered ms in if m.arrives then ok (m.chan, concat m.parts) ∷ rest else rest

-- Over a link that loses any envelopes but keeps their order, the sealer does not panic, and every
-- envelope that arrives opens to exactly the channel and the joined parts that were sealed, in order:
-- if the cipher opens what it sealed, the two ends start in step, and each counter has room for the
-- whole stream.
pub transmit_delivers :
    (c : Aead) (laws : IsAead c) (s : Sealer) (o : Opener) (ms : List Sending)
    → InSync s o
    → ((ch : Channel) → at_chan s.counters ch + length ms ≤ u64_max)
    → transmit c s o ms ≡ some (delivered ms)
unfolding transmit
transmit_delivers c laws s o [] sync room = refl
transmit_delivers c laws s o (m ∷ ms) sync room =
    let (s', env, sealed, grows) =
      seal_parts_total c s m.chan m.parts sync.sealer_len (omega (arith, room m.chan)) in
    let (opened, kept, lost) = open-seal_parts c laws s s' o m.chan m.parts env sync sealed in
    let room' : (ch : Channel) → at_chan s'.counters ch + length ms ≤ u64_max =
      λ ch. omega (arith, grows ch, room ch) in
    elim (Bool-cases m.arrives) [
      | inl arrives ↦
          rw (sealed, transmit, arrives)
            (ground
              (arith, transmit_delivers c laws s' (open_envelope c o env).0 ms kept room', opened))
      | inr gone ↦ rw (sealed, transmit, gone) (transmit_delivers c laws s' o ms lost room')
    ]
