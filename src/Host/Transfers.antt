-- ===== src/Host/Transfers.antt =====
-- host/service/src/transfers.rs: `TransferManager`, the file offers that wait for the panel. A session is
-- named by a number; whether the command channel of a session has room for the answer to an offer is an
-- argument. What is sent is listed beside the new state. Instants are milliseconds. The map is an
-- association list, so that the answers of one pass come in the order of its entries.
pub mod Answers
mod Examples
use nebula_display.Prelude.{
  ℕ, ◌+◌, ◌-◌, ◌*◌, ◌/◌, Bool, true, false, Option, none, some, List, [], ◌∷◌, ◌++◌, map, ltb, leb,
  if◌then◌else◌, keep, list_eq, not, text_eq, lookup, insert, remove,
}

abbrev pub offer_ttl : ℕ
offer_ttl = 120_000

pub record PendingOffer : Type 0 where
  pub id : List ℕ
  pub device_id : List ℕ
  pub device_name : List ℕ
  pub name : List ℕ
  pub size_bytes : ℕ
  pub sha256_hex : List ℕ
  pub offered_at : ℕ
  pub offered_unix : ℕ
  pub session : ℕ

pub record PendingOfferView : Type 0 where
  pub id : List ℕ
  pub device_id : List ℕ
  pub device_name : List ℕ
  pub name : List ℕ
  pub size_bytes : ℕ
  pub offered_unix : ℕ
  pub expires_in_secs : ℕ

-- `SessionCommand::AnswerFileOffer`, with the session that it is sent to.
pub record Answer : Type 0 where
  pub to_session : ℕ
  pub id : List ℕ
  pub accept : Bool
  pub name : List ℕ
  pub size_bytes : ℕ
  pub sha256_hex : List ℕ

abbrev pub Pending : Type 0
Pending = List (List ℕ × PendingOffer)

abbrev pub answer_to : List ℕ → Bool → PendingOffer → Answer
answer_to id accept o = record {
  to_session = o.session;
  id = id;
  accept = accept;
  name = o.name;
  size_bytes = o.size_bytes;
  sha256_hex = o.sha256_hex;
}

-- `offered_at.elapsed() < OFFER_TTL`.
abbrev pub is_live : ℕ → PendingOffer → Bool
is_live now o = ltb (now - o.offered_at) offer_ttl

module _ (has_room : PendingOffer → Bool) where
  -- `try_send`.
  abbrev pub try_send : List ℕ → Bool → PendingOffer → List Answer
  try_send id accept o = if has_room o then answer_to id accept o ∷ [] else []

  -- `prune`: the offers that are left, and the denials that are sent.
  unfoldable pub prune : ℕ → Pending → Pending × List Answer
  prune now [] = ([], [])
  prune now ((id, o) ∷ m) =
      let (m', sent) = prune now m in
      if is_live now o then ((id, o) ∷ m', sent) else (m', try_send id false o ++ sent)

  register_in :
      PendingOffer → Pending × List Answer → Option PendingOffer → Pending × List Answer × Bool
  register_in offer (m, sent) (some o) = (m, sent, false)
  register_in offer (m, sent) none = (insert offer.id offer m, sent, true)

  unfoldable pub register : ℕ → PendingOffer → Pending → Pending × List Answer × Bool
  unfolding register_in
  register now offer m = register_in offer (prune now m) (lookup offer.id (prune now m).0)

  answer_in :
      List ℕ → Bool → Pending × List Answer → Option PendingOffer → Pending × List Answer × Bool
  answer_in id accept (m, sent) none = (m, sent, false)
  answer_in id accept (m, sent) (some o) = (remove id m, sent ++ try_send o.id accept o, has_room o)

  unfoldable pub answer : ℕ → List ℕ → Bool → Pending → Pending × List Answer × Bool
  unfolding answer_in
  answer now id accept m = answer_in id accept (prune now m) (lookup id (prune now m).0)

  view : ℕ → PendingOffer → PendingOfferView
  view now o = record {
    id = o.id;
    device_id = o.device_id;
    device_name = o.device_name;
    name = o.name;
    size_bytes = o.size_bytes;
    offered_unix = o.offered_unix;
    expires_in_secs = (offer_ttl - (now - o.offered_at)) / 1000;
  }

  -- `sort_by_key`, which is stable.
  sort_in : PendingOfferView → List PendingOfferView → List PendingOfferView
  sort_in v [] = v ∷ []
  sort_in v (w ∷ ws) = if leb v.offered_unix w.offered_unix then v ∷ w ∷ ws else w ∷ sort_in v ws

  sort_by_unix : List PendingOfferView → List PendingOfferView
  unfolding sort_in
  sort_by_unix [] = []
  sort_by_unix (v ∷ vs) = sort_in v (sort_by_unix vs)

  -- `list`: the offers that are left, what was sent, and the views.
  unfoldable pub list_offers : ℕ → Pending → Pending × List Answer × List PendingOfferView
  unfolding view sort_by_unix
  list_offers now m =
      let (m', sent) = prune now m in (m', sent, sort_by_unix (map (λ p. view now p.1) m'))

-- `drop_for_device`.
unfoldable pub drop_for_device : List ℕ → Pending → Pending
drop_for_device device m = keep (λ p. not (list_eq p.1.device_id device)) m
