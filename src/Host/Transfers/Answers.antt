-- ===== src/Host/Transfers/Answers.antt =====
-- Every offer is answered at most once, and the answer goes to the session that made it.
use nebula_display.Prelude.{
  ℕ, ◌+◌, ◌-◌, ◌≤◌, ◌<◌, ◌≡◌, refl, ap, Bool, true, false, Option, none, some, inl, inr, ◌⊎◌, List,
  [], ◌∷◌, ◌++◌, arith, if◌then◌else◌, Bool-cases, keep, All, All-keep, list_eq, not, text_eq,
  lookup, insert, remove, lookup-remove_self,
}
use nebula_display.Host.Transfers.{
  PendingOffer, Answer, Pending, answer_to, try_send, prune, register_in, register, answer_in,
  answer, list_offers, drop_for_device,
}

-- How many elements pass a test.
abbrev pub count {ℓ} : {A : Type ℓ} → (A → Bool) → List A → ℕ
count p [] = 0
count p (x ∷ xs) = (if p x then 1 else 0) + count p xs

count-append {ℓ} :
    {A : Type ℓ} (p : A → Bool) (xs ys : List A) → count p (xs ++ ys) ≡ count p xs + count p ys
count-append p [] ys = omega arith
count-append p (x ∷ xs) ys = omega (arith, count-append p xs ys)

count-keep {ℓ} : {A : Type ℓ} (p k : A → Bool) (xs : List A) → count p (keep k xs) ≤ count p xs
unfolding keep
count-keep p k [] = omega arith
count-keep p k (x ∷ xs) = ground (arith, count-keep p k xs)

-- An answer without its verdict: the session, the file and the offer that it is about.
abbrev pub ticket : Answer → Answer
ticket a = record a { accept = true }

abbrev pub ticket_of : PendingOffer → Answer
ticket_of o = answer_to o.id true o

-- The entries of the map stand under their own ids.
abbrev pub IsKeyed : Pending → Type 0
IsKeyed m = All (λ p. p.0 ≡ p.1.id) m

prune-IsKeyed :
    (room : PendingOffer → Bool) (now : ℕ) (m : Pending) → IsKeyed m → IsKeyed (prune room now m).0
unfolding prune
prune-IsKeyed room now [] h = tt
prune-IsKeyed room now ((id, o) ∷ m) h = ground (arith, prune-IsKeyed room now m h.1)

insert-IsKeyed : (o : PendingOffer) (m : Pending) → IsKeyed m → IsKeyed (insert o.id o m)
unfolding insert
insert-IsKeyed o [] h = (refl, tt)
insert-IsKeyed o ((id, p) ∷ m) h = ground (arith, insert-IsKeyed o m h.1)

remove-IsKeyed : (id : List ℕ) (m : Pending) → IsKeyed m → IsKeyed (remove id m)
unfolding remove
remove-IsKeyed id [] h = tt
remove-IsKeyed id ((k, o) ∷ m) h = ground (arith, remove-IsKeyed id m h.1)

module _ (q : Answer → Bool) where
  abbrev pub answers : List Answer → ℕ
  answers sent = count (λ a. q (ticket a)) sent

  abbrev pub waiting : Pending → ℕ
  waiting m = count (λ p. q (ticket_of p.1)) m

  prune_count :
      (room : PendingOffer → Bool) (now : ℕ) (m : Pending)
      → IsKeyed m
      → answers (prune room now m).1 + waiting (prune room now m).0 ≤ waiting m
  unfolding prune
  prune_count room now [] h = omega arith
  prune_count room now ((id, o) ∷ m) h =
      let e : id ≡ o.id = h.0 in rw e (ground (arith, prune_count room now m h.1))

  insert_count :
      (o : PendingOffer) (m : Pending)
      → waiting (insert o.id o m) ≤ (if q (ticket_of o) then 1 else 0) + waiting m
  unfolding insert
  insert_count o [] = omega arith
  insert_count o ((id, p) ∷ m) = ground (arith, insert_count o m)

  remove_le : (id : List ℕ) (m : Pending) → waiting (remove id m) ≤ waiting m
  unfolding remove
  remove_le id [] = omega arith
  remove_le id ((k, p) ∷ m) = ground (arith, remove_le id m)

  remove_count :
      (id : List ℕ) (o : PendingOffer) (m : Pending)
      → lookup id m ≡ some o
      → (if q (ticket_of o) then 1 else 0) + waiting (remove id m) ≤ waiting m
  unfolding remove lookup
  remove_count id o [] e = absurd cc
  remove_count id o ((k, p) ∷ m) e = elim (Bool-cases (list_eq k id)) [
    | inl t ↦
        let e' : p ≡ o = some_inj (rw (← e, t) refl) in
        rw (t, remove, ← e') (omega (arith, remove_le id m))
    | inr f ↦ rw (f, remove) (omega (arith, remove_count id o m (rw (← e, f) refl)))
  ]
    where
      some_inj : {a b : PendingOffer} → some a ≡ some b → a ≡ b
      some_inj {a} h = ap (λ x. elim x [ none ↦ a | some y ↦ y ]) h

-- The calls of the manager, with the time of the call.
pub data Call : Type 0 where
  registering : ℕ → PendingOffer → Call
  answering : ℕ → (id : List ℕ) → (accept : Bool) → Call
  leaving : (device : List ℕ) → Call
  listing : ℕ → Call

-- The manager after some calls, all that it has sent and the offers that it has taken.
pub record History : Type 0 where
  pub pending : Pending
  pub sent : List Answer
  pub taken : List PendingOffer

abbrev pub beginning : History
beginning = record { pending = []; sent = []; taken = [] }

unfoldable pub call : (PendingOffer → Bool) → History → Call → History
call room h (registering now o) =
    let r = register room now o h.pending in
    record { pending = r.0; sent = r.1 ++ h.sent; taken = if r.2 then o ∷ h.taken else h.taken }
call room h (answering now id accept) =
    let r = answer room now id accept h.pending in record h { pending = r.0; sent = r.1 ++ h.sent }
call room h (leaving device) = record h { pending = drop_for_device device h.pending }
call room h (listing now) =
    let r = list_offers room now h.pending in record h { pending = r.0; sent = r.1 ++ h.sent }

-- Each call comes with the room that the channels have then.
unfoldable pub calls : History → List ((PendingOffer → Bool) × Call) → History
calls h [] = h
calls h ((room, c) ∷ cs) = calls (call room h c) cs

-- No ticket is answered and waiting more often than it was taken.
record IsFair (h : History) : Type 0 where
  keyed : IsKeyed h.pending
  fair :
      (q : Answer → Bool)
      → answers q h.sent + waiting q h.pending ≤ count (λ o. q (ticket_of o)) h.taken

register-IsFair :
    (room : PendingOffer → Bool) (h : History) (now : ℕ) (o : PendingOffer)
    (found : Option PendingOffer)
    → IsFair h
    → let r = register_in room o (prune room now h.pending) found in
      IsFair (record {
        pending = r.0;
        sent = r.1 ++ h.sent;
        taken = if r.2 then o ∷ h.taken else h.taken;
      })
unfolding register_in
register-IsFair room h now o (some p) i = record {
  keyed = prune-IsKeyed room now h.pending i.keyed;
  fair = λ q. omega (
    arith,
    i.fair q,
    prune_count q room now h.pending i.keyed,
    count-append (λ a. q (ticket a)) (prune room now h.pending).1 h.sent,
  );
}
register-IsFair room h now o none i = record {
  keyed = insert-IsKeyed o (prune room now h.pending).0 (prune-IsKeyed room now h.pending i.keyed);
  fair = λ q. omega (
    arith,
    i.fair q,
    prune_count q room now h.pending i.keyed,
    insert_count q o (prune room now h.pending).0,
    count-append (λ a. q (ticket a)) (prune room now h.pending).1 h.sent,
  );
}

answer-IsFair :
    (room : PendingOffer → Bool) (h : History) (now : ℕ) (id : List ℕ) (accept : Bool)
    (found : Option PendingOffer)
    → lookup id (prune room now h.pending).0 ≡ found
    → IsFair h
    → let r = answer_in room id accept (prune room now h.pending) found in
      IsFair (record h { pending = r.0; sent = r.1 ++ h.sent })
unfolding answer_in
answer-IsFair room h now id accept none e i = record {
  keyed = prune-IsKeyed room now h.pending i.keyed;
  fair = λ q. omega (
    arith,
    i.fair q,
    prune_count q room now h.pending i.keyed,
    count-append (λ a. q (ticket a)) (prune room now h.pending).1 h.sent,
  );
}
answer-IsFair room h now id accept (some o) e i =
    let (m, sent) = prune room now h.pending in
    record {
      keyed = remove-IsKeyed id m (prune-IsKeyed room now h.pending i.keyed);
      fair = λ q.
          let one : answers q (try_send room o.id accept o) ≤ (if q (ticket_of o) then 1 else 0) =
            sent_once q in
          omega (
            arith,
            i.fair q,
            prune_count q room now h.pending i.keyed,
            one,
            remove_count q id o m e,
            count-append (λ a. q (ticket a)) sent (try_send room o.id accept o),
            count-append (λ a. q (ticket a)) (sent ++ try_send room o.id accept o) h.sent,
          );
    }
  where
    sent_once :
        (q : Answer → Bool)
        → answers q (try_send room o.id accept o) ≤ (if q (ticket_of o) then 1 else 0)
    sent_once q = ground arith

call-IsFair :
    (room : PendingOffer → Bool) (h : History) (c : Call) → IsFair h → IsFair (call room h c)
unfolding call register answer list_offers drop_for_device
call-IsFair room h (registering now o) i =
    register-IsFair room h now o (lookup o.id (prune room now h.pending).0) i
call-IsFair room h (answering now id accept) i =
    answer-IsFair room h now id accept (lookup id (prune room now h.pending).0) refl i
call-IsFair room h (leaving device) i = record {
  keyed = All-keep _ (λ p. not (list_eq p.1.device_id device)) h.pending i.keyed;
  fair = λ q. omega (
    arith,
    i.fair q,
    count-keep (λ p. q (ticket_of p.1)) (λ p. not (list_eq p.1.device_id device)) h.pending,
  );
}
call-IsFair room h (listing now) i = record {
  keyed = prune-IsKeyed room now h.pending i.keyed;
  fair = λ q. omega (
    arith,
    i.fair q,
    prune_count q room now h.pending i.keyed,
    count-append (λ a. q (ticket a)) (prune room now h.pending).1 h.sent,
  );
}

calls-IsFair :
    (h : History) (cs : List ((PendingOffer → Bool) × Call)) → IsFair h → IsFair (calls h cs)
unfolding calls
calls-IsFair h [] i = i
calls-IsFair h ((room, c) ∷ cs) i = calls-IsFair (call room h c) cs (call-IsFair room h c i)

-- Whatever calls a new manager sees, with whatever room in the channels, the answers that it has sent and
-- the offers that still wait are, by session and offered file, no more than the offers that it has taken:
-- an offer is answered at most once, by the panel or by its expiry, to the session that made it.
pub answered_at_most_once :
    (cs : List ((PendingOffer → Bool) × Call)) (q : Answer → Bool)
    → let h = calls beginning cs in
      answers q h.sent + waiting q h.pending ≤ count (λ o. q (ticket_of o)) h.taken
answered_at_most_once cs q =
    (calls-IsFair beginning cs (record { keyed = tt; fair = λ p. omega arith })).fair q

prune_live :
    (room : PendingOffer → Bool) (now : ℕ) (m : Pending)
    → All (λ p. now - p.1.offered_at < 120_000) (prune room now m).0
unfolding prune
prune_live room now [] = tt
prune_live room now ((id, o) ∷ m) = ground (arith, prune_live room now m)

lookup_live :
    (id : List ℕ) (o : PendingOffer) (now : ℕ) (m : Pending)
    → All (λ p. now - p.1.offered_at < 120_000) m
    → lookup id m ≡ some o
    → now - o.offered_at < 120_000
unfolding lookup
lookup_live id o now [] h e = absurd cc
lookup_live id o now ((k, p) ∷ m) h e = ground (arith, lookup_live id o now m h.1)

-- An answer of the panel: when an offer with the id is waiting and has not expired, it no longer waits, and
-- the call reports whether the channel of its session took the answer, which is then the last thing sent;
-- otherwise the call reports failure and sends no more than the denials of what has expired.
pub answer_routes :
    (room : PendingOffer → Bool) (now : ℕ) (id : List ℕ) (accept : Bool) (m : Pending)
    → let (left, denied) = prune room now m in
      let (m', sent, done) = answer room now id accept m in
      ((o : PendingOffer) × (lookup id left ≡ some o)
        × (lookup id m' ≡ none)
        × (done ≡ room o)
        × (now - o.offered_at < 120_000)
        × (sent ≡ denied ++ try_send room o.id accept o))
      ⊎ ((lookup id left ≡ none) × (m' ≡ left) × (sent ≡ denied) × (done ≡ false))
unfolding answer
answer_routes room now id accept m = cases (lookup id (prune room now m).0) refl
  where
    cases :
        (found : Option PendingOffer)
        → lookup id (prune room now m).0 ≡ found
        → let (left, denied) = prune room now m in
          let (m', sent, done) = answer_in room id accept (prune room now m) found in
          ((o : PendingOffer) × (lookup id left ≡ some o)
            × (lookup id m' ≡ none)
            × (done ≡ room o)
            × (now - o.offered_at < 120_000)
            × (sent ≡ denied ++ try_send room o.id accept o))
          ⊎ ((lookup id left ≡ none) × (m' ≡ left) × (sent ≡ denied) × (done ≡ false))
    cases none e = inr (unfold answer_in in (e, refl, refl, refl))
    cases (some o) e = inl (
        unfold answer_in in
        (
          o,
          e,
          lookup-remove_self id (prune room now m).0,
          refl,
          lookup_live id o now (prune room now m).0 (prune_live room now m) e,
          refl,
        ))
