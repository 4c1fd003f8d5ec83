-- ===== src/Protocol/Spake2/Examples.antt =====
-- Runs of the theorems on the exchange, over a group of one-byte codes.
use nebula_display.Prelude.{ℕ, ◌≡◌, refl, some, List, [], ◌∷◌, arith, codes, nat_eq, text_eq, ok}
use nebula_display.Protocol.Samples.{toy, same_bytes, tagged}
use nebula_display.Protocol.Spake2.{
  Spake2Keys, derive_keys, sampled_point, sampled_scalar, w_from, derive_point, m_point, n_point,
  w_scalar, decode_point, transcript, Spake2Client, Spake2Server, client_with, start, respond_at,
  respond_with, respond,
}
use nebula_display.Protocol.Spake2.Framing.{transcript_binds}

abbrev pin : List ℕ
pin = codes "012345"

abbrev nonce : List ℕ
nonce = 1 ∷ 2 ∷ []

-- The scalar of the PIN has the value 25 here, and both masks have the value 2.
abbrev a_client : Spake2Client toy
a_client = record { x = 3; w = 25; share = 53 ∷ []; nonce = nonce }

abbrev server_keys : Spake2Keys
server_keys = derive_keys same_bytes tagged (transcript toy nonce (53 ∷ []) (54 ∷ []) (12 ∷ []) 25)

abbrev a_server : Spake2Server toy
a_server = record { share = 54 ∷ []; keys = server_keys }

started : start toy same_bytes pin nonce 3 ≡ some a_client
unfolding start client_with w_scalar w_from sampled_scalar m_point derive_point sampled_point
started = refl

responded : respond toy same_bytes tagged pin nonce (53 ∷ []) 4 ≡ some (ok a_server)
unfolding respond respond_with respond_at decode_point w_scalar w_from sampled_scalar m_point
    n_point derive_point sampled_point
responded = refl

decoded : decode_point toy (54 ∷ []) ≡ ok 54
unfolding decode_point
decoded = refl

transcript_binds_example :
    (nonce ≡ nonce)
    × (pin ≡ pin)
    × (a_client.share ≡ a_client.share)
    × (pin ≡ pin)
    × (toy.to_repr 4 ≡ toy.to_repr 4)
transcript_binds_example =
    transcript_binds toy nonce nonce pin pin (53 ∷ []) (53 ∷ []) pin pin 4 4
      (omega arith, (omega arith, (omega arith, (omega arith, (omega arith, tt)))))
      (omega arith, (omega arith, (omega arith, (omega arith, (omega arith, tt))))) refl
