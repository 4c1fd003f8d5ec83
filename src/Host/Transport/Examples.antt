-- ===== src/Host/Transport/Examples.antt =====
-- A run of the theorem on frames.
use nebula_display.Prelude.{ℕ, ◌≡◌, List, [], ◌∷◌, ◌++◌, map, arith}
use nebula_display.Host.Transport.{envelope, closed}
use nebula_display.Host.Transport.Frames.{inbounds, written, inbounds-written}

abbrev envelopes : List (List ℕ)
envelopes = (1 ∷ 2 ∷ []) ∷ [] ∷ (3 ∷ []) ∷ []

inbounds-written_example : inbounds 4 (written envelopes) ≡ map envelope envelopes ++ closed ∷ []
inbounds-written_example =
    inbounds-written envelopes 4 (omega arith, (omega arith, (omega arith, tt))) (omega arith)
