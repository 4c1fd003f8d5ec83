-- ===== src/Client/Answers.antt =====
-- shared/client/src/lib.rs: rules for what a handshake establishes when it connects, one for each way in
-- which its steps are joined, and the messages that a server has answered with.
use nebula_display.Prelude.{
  ℕ, zero, suc, ◌≡◌, refl, ap, subst, Option, none, some, List, [], ◌∷◌, arith, Result, ok, err,
  ◌>>=◌,
}
use nebula_display.Protocol.Messages.{ControlMsg}
use nebula_display.Client.{
  Session, Failure, WsItem, text, close, ping, pong, binary, ws_error, QuicItem, frame, quic_error,
  Inbound, ws, quic, receive_ws, receive, Wire, connected, failed, panicked, Run, stop, send_with,
  send_json, attempt, expecting, await,
}

-- The session of a run, when there is one, is as `P` says.
pub record Sound (P : Session → Type 0) (run : Run) : Type 0 where
  pub holds : (s : Session) → run.ended ≡ connected s → P s

pub failed-Sound : (P : Session → Type 0) (e : Failure) → Sound P (stop (failed e))
failed-Sound P e = record { holds = λ s h. cc }

pub panicked-Sound : (P : Session → Type 0) → Sound P (stop panicked)
panicked-Sound P = record { holds = λ s h. cc }

pub connected-Sound : (P : Session → Type 0) (s : Session) → P s → Sound P (stop (connected s))
connected-Sound P s good = record { holds = λ t h. let same : s ≡ t = cc in subst P same good }

pub attempt-Sound :
    {A : Type 0} (P : Session → Type 0) (r : Result Failure A) (k : A → Run)
    → ((a : A) → r ≡ ok a → Sound P (k a))
    → Sound P (attempt r k)
unfolding attempt
attempt-Sound P (err e) k good = failed-Sound P e
attempt-Sound P (ok a) k good = good a refl

pub expecting-Sound :
    {A : Type 0} (P : Session → Type 0) (o : Option A) (k : A → Run)
    → ((a : A) → o ≡ some a → Sound P (k a))
    → Sound P (expecting o k)
unfolding expecting
expecting-Sound P none k good = panicked-Sound P
expecting-Sound P (some a) k good = good a refl

send_with-Sound :
    (P : Session → Type 0) (w : Wire) (msg : ControlMsg) (k : Wire → Run) (room : ℕ)
    → ((n : ℕ) → Sound P (k (record w { room = n })))
    → Sound P (send_with w msg k room)
unfolding send_with
send_with-Sound P w msg k zero good = failed-Sound P _
send_with-Sound P w msg k (suc n) good = record { holds = (good n).holds }

pub send-Sound :
    (P : Session → Type 0) (w : Wire) (msg : ControlMsg) (k : Wire → Run)
    → ((n : ℕ) → Sound P (k (record w { room = n })))
    → Sound P (send_json w msg k)
unfolding send_json
send-Sound P w msg k good = send_with-Sound P w msg k w.room good

-- The messages that a connection delivers, up to the first thing that is none.
ws_answers : List WsItem → List ControlMsg
ws_answers [] = []
ws_answers (text (some m) ∷ rest) = m ∷ ws_answers rest
ws_answers (text none ∷ rest) = []
ws_answers (close ∷ rest) = []
ws_answers (ping ∷ rest) = ws_answers rest
ws_answers (pong ∷ rest) = ws_answers rest
ws_answers (binary ∷ rest) = []
ws_answers (ws_error ∷ rest) = []

quic_answers : List QuicItem → List ControlMsg
quic_answers [] = []
quic_answers (frame zero (some m) ∷ rest) = m ∷ quic_answers rest
quic_answers (frame zero none ∷ rest) = []
quic_answers (frame (suc t) m ∷ rest) = []
quic_answers (quic_error ∷ rest) = []

unfoldable pub answers : Inbound → List ControlMsg
unfolding ws_answers quic_answers
answers (ws items) = ws_answers items
answers (quic items) = quic_answers items

receive_ws-answers :
    (items : List WsItem) (m : ControlMsg)
    → (receive_ws items).0 ≡ ok m
    → ws_answers items ≡ m ∷ answers (receive_ws items).1
unfolding receive_ws ws_answers answers
receive_ws-answers [] m h = cc
receive_ws-answers (text (some n) ∷ rest) m h =
    let same : n ≡ m = cc in ap (λ z. z ∷ ws_answers rest) same
receive_ws-answers (text none ∷ rest) m h = cc
receive_ws-answers (close ∷ rest) m h = cc
receive_ws-answers (ping ∷ rest) m h = receive_ws-answers rest m h
receive_ws-answers (pong ∷ rest) m h = receive_ws-answers rest m h
receive_ws-answers (binary ∷ rest) m h = cc
receive_ws-answers (ws_error ∷ rest) m h = cc

pub receive-answers :
    (i : Inbound) (m : ControlMsg) → (receive i).0 ≡ ok m → answers i ≡ m ∷ answers (receive i).1
unfolding receive answers quic_answers
receive-answers (ws items) m h = receive_ws-answers items m h
receive-answers (quic []) m h = cc
receive-answers (quic (quic_error ∷ rest)) m h = cc
receive-answers (quic (frame zero none ∷ rest)) m h = cc
receive-answers (quic (frame zero (some n) ∷ rest)) m h =
    let same : n ≡ m = cc in ap (λ z. z ∷ quic_answers rest) same
receive-answers (quic (frame (suc t) n ∷ rest)) m h = ground arith

pub bound-ok :
    {A : Type 0} (r : Result Failure ControlMsg) (view : ControlMsg → Result Failure A) (a : A)
    → (r >>= view) ≡ ok a
    → (m : ControlMsg) × (r ≡ ok m) × (view m ≡ ok a)
bound-ok (err e) view a h = cc
bound-ok (ok m) view a h = (m, refl, h)

pub await-Sound :
    {A : Type 0} (P : Session → Type 0) (view : ControlMsg → Result Failure A) (w : Wire)
    (k : Wire → A → Run)
    → ((i : Inbound) (m : ControlMsg) (a : A)
        → answers w.inbound ≡ m ∷ answers i
        → view m ≡ ok a
        → Sound P (k (record w { inbound = i }) a))
    → Sound P (await view w k)
unfolding await
await-Sound P view w k good = attempt-Sound P _ _ (λ a h.
    let (m, received, seen) = bound-ok (receive w.inbound).0 view a h in
    good (receive w.inbound).1 m a (receive-answers w.inbound m received) seen)
