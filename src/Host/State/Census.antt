-- ===== src/Host/State/Census.antt =====
-- Calls that follow one another: the number of clients that is shown, and the cursor policy, are those of the
-- live clients.
use nebula_display.Prelude.{
  ℕ, suc, ◌+◌, ◌-◌, ◌%◌, ◌^◌, ◌<◌, ◌≡◌, refl, sym, ap, ◌∙◌, subst, ◌≢◌, Bool, true, false, not,
  Option, none, some, List, [], ◌∷◌, arith, inl, inr, Bool-cases, ◌==◌, ==_iff, All, length, nat_eq,
  lookup, insert, remove,
}
use nebula_display.Host.Trust.{TrustStore}
use nebula_display.Host.State.{
  ClientHandle, Clients, LiveState, all_support, cursor_channel_active, published,
  refresh_cursor_policy, register_client, unregister_found, unregister_client,
}

-- The ids in use are below a number, and no id is used twice.
abbrev pub Below : ℕ → Clients → Type 0
Below n cs = All (λ p. p.0 < n) cs

abbrev pub Once : Clients → Type 0
Once [] = Unit
Once ((id, c) ∷ cs) = All (λ p. id ≢ p.0) cs × Once cs

record IsCounted (s : LiveState) : Type 0 where
  shown : s.shown_clients ≡ length s.clients
  below : Below s.next_client_id s.clients
  once : Once s.clients
  policy : s.composited ≡ not (all_support s.clients)

pub length-insert :
    (n : ℕ) (c : ClientHandle) (cs : Clients)
    → Below n cs
    → length (insert n c cs) ≡ suc (length cs)
unfolding insert
length-insert n c [] h = refl
length-insert n c ((id, d) ∷ cs) h = ground (arith, length-insert n c cs h.1)

pub insert-Below :
    (n : ℕ) (c : ClientHandle) (cs : Clients) → Below n cs → Below (n + 1) (insert n c cs)
unfolding insert
insert-Below n c [] h = (omega arith, tt)
insert-Below n c ((id, d) ∷ cs) h = ground (arith, insert-Below n c cs h.1)

-- What all the entries satisfy, and the new one, all satisfy afterwards.
insert-All :
    (P : ℕ × ClientHandle → Type 0) (n : ℕ) (c : ClientHandle) (cs : Clients)
    → P (n, c)
    → All P cs
    → All P (insert n c cs)
unfolding insert
insert-All P n c [] p h = (p, tt)
insert-All P n c ((id, d) ∷ cs) p h = ground (arith, insert-All P n c cs p h.1)

pub insert-Once :
    (n : ℕ) (c : ClientHandle) (cs : Clients) → Below n cs → Once cs → Once (insert n c cs)
unfolding insert
insert-Once n c [] b h = (tt, tt)
insert-Once n c ((id, d) ∷ cs) b h =
    let ih = insert-Once n c cs b.1 h.1 in
    let other = insert-All (λ p. id ≢ p.0) n c cs (λ e. omega (arith, e, b.0)) h.0 in
    ground (arith, ih, other, b.0)

pub remove-All :
    (P : ℕ × ClientHandle → Type 0) (n : ℕ) (cs : Clients) → All P cs → All P (remove n cs)
unfolding remove
remove-All P n [] h = tt
remove-All P n ((id, d) ∷ cs) h = ground (arith, remove-All P n cs h.1)

pub remove-Once : (n : ℕ) (cs : Clients) → Once cs → Once (remove n cs)
unfolding remove
remove-Once n [] h = tt
remove-Once n ((id, d) ∷ cs) h =
    ground (arith, remove-Once n cs h.1, remove-All (λ p. id ≢ p.0) n cs h.0)

remove_absent : (n : ℕ) (cs : Clients) → All (λ p. n ≢ p.0) cs → length (remove n cs) ≡ length cs
unfolding remove
remove_absent n [] h = refl
remove_absent n ((id, d) ∷ cs) h = ground (arith, remove_absent n cs h.1, h.0)

pub length-remove :
    (n : ℕ) (c : ClientHandle) (cs : Clients)
    → Once cs
    → lookup n cs ≡ some c
    → suc (length (remove n cs)) ≡ length cs
unfolding remove lookup
length-remove n c [] h e = absurd cc
length-remove n c ((id, d) ∷ cs) h e = elim (Bool-cases (id == n)) [
  | inl t ↦
      let same : id ≡ n = (==_iff id n).0 t in
      rw (t, remove) (ap suc (remove_absent n cs (subst (λ x. All (λ p. x ≢ p.0) cs) same h.0)))
  | inr f ↦ rw (f, remove) (ap suc (length-remove n c cs h.1 (ground (arith, e, f))))
]

published-policy :
    (b old : Bool) (s : LiveState) → s.composited ≡ old → (published b old s).composited ≡ b
unfolding published
published-policy true true s e = e
published-policy true false s e = refl
published-policy false true s e = refl
published-policy false false s e = e

pub published-rest :
    (b old : Bool) (s : LiveState)
    → ((published b old s).clients ≡ s.clients)
      × ((published b old s).shown_clients ≡ s.shown_clients)
      × ((published b old s).next_client_id ≡ s.next_client_id)
unfolding published
published-rest true true s = (refl, refl, refl)
published-rest true false s = (refl, refl, refl)
published-rest false true s = (refl, refl, refl)
published-rest false false s = (refl, refl, refl)

pub refreshed-policy :
    (s : LiveState)
    → (refresh_cursor_policy s).composited ≡ not (all_support (refresh_cursor_policy s).clients)
unfolding refresh_cursor_policy cursor_channel_active
refreshed-policy s =
    let want = not (all_support s.clients) in
    published-policy want s.composited s refl
    ∙ ap (λ x. not (all_support x)) (sym (published-rest want s.composited s).0)

refresh-IsCounted :
    (s : LiveState)
    → s.shown_clients ≡ length s.clients
    → Below s.next_client_id s.clients
    → Once s.clients
    → IsCounted (refresh_cursor_policy s)
unfolding refresh_cursor_policy cursor_channel_active
refresh-IsCounted s e b o =
    let want = not (all_support s.clients) in
    let (cs, shown, next) = published-rest want s.composited s in
    record {
      shown = shown ∙ (e ∙ ap length (sym cs));
      below = rw (cs, next) b;
      once = rw cs o;
      policy = refreshed-policy s;
    }

pub data ClientEvent : Type 0 where
  joins : ClientHandle → ClientEvent
  leaves : ℕ → ClientEvent

unfoldable pub on_client_event : LiveState → ClientEvent → LiveState
on_client_event s (joins handle) = (register_client s handle).0
on_client_event s (leaves id) = unregister_client s id

unfoldable pub on_client_events : LiveState → List ClientEvent → LiveState
on_client_events s [] = s
on_client_events s (e ∷ es) = on_client_events (on_client_event s e) es

abbrev pub no_clients : TrustStore → LiveState
no_clients trust = record {
  trust = trust;
  clients = [];
  next_client_id = 1;
  shown_clients = 0;
  composited = false;
  cursor_seq = 0;
}

-- Invariant for fewer than 2^32 registrations, with `n` of them still to come.
record IsWithin (n : ℕ) (s : LiveState) : Type 0 where
  counted : IsCounted s
  clients_left : length s.clients + n < 2 ^ 32
  ids_left : s.next_client_id + n < 2 ^ 32

-- The registrations among some events.
abbrev pub joining : List ClientEvent → ℕ
joining [] = 0
joining (joins handle ∷ es) = suc (joining es)
joining (leaves id ∷ es) = joining es

refresh-rest :
    (s : LiveState)
    → ((refresh_cursor_policy s).clients ≡ s.clients)
      × ((refresh_cursor_policy s).next_client_id ≡ s.next_client_id)
unfolding refresh_cursor_policy
refresh-rest s = let r = published-rest (not (cursor_channel_active s)) s.composited s in (r.0, r.2)

refresh-IsWithin :
    (n : ℕ) (s : LiveState)
    → s.shown_clients ≡ length s.clients
    → Below s.next_client_id s.clients
    → Once s.clients
    → length s.clients + n < 2 ^ 32
    → s.next_client_id + n < 2 ^ 32
    → IsWithin n (refresh_cursor_policy s)
refresh-IsWithin n s e b o cl il =
    let (cs, next) = refresh-rest s in
    record { counted = refresh-IsCounted s e b o; clients_left = rw cs cl; ids_left = rw next il }

join-IsWithin :
    (n : ℕ) (s : LiveState) (c : ClientHandle)
    → IsWithin (suc n) s
    → IsWithin n (register_client s c).0
unfolding register_client
join-IsWithin n s c h =
    let k = h.counted in
    let id = s.next_client_id in
    let l : length (insert id c s.clients) ≡ suc (length s.clients) =
      length-insert id c s.clients k.below in
    let next : (id + 1) % 2 ^ 64 ≡ id + 1 = omega (arith, h.ids_left) in
    let s1 : LiveState = record s {
      clients = insert id c s.clients;
      next_client_id = (id + 1) % 2 ^ 64;
      shown_clients = (s.shown_clients + 1) % 2 ^ 32;
    } in
    refresh-IsWithin n s1 (omega (arith, k.shown, l, h.clients_left))
      (rw next (insert-Below id c s.clients k.below)) (insert-Once id c s.clients k.below k.once)
      (omega (arith, l, h.clients_left)) (omega (arith, next, h.ids_left))

leave-IsWithin :
    (n : ℕ) (s : LiveState) (id : ℕ) → IsWithin n s → IsWithin n (unregister_client s id)
unfolding unregister_client
leave-IsWithin n s id h = found (lookup id s.clients) refl
  where
    found :
        (o : Option ClientHandle) → lookup id s.clients ≡ o → IsWithin n (unregister_found s id o)
    found none e = unfold unregister_found in h
    found (some c) e =
        let k = h.counted in
        let l : suc (length (remove id s.clients)) ≡ length s.clients =
          length-remove id c s.clients k.once e in
        unfold unregister_found in
        refresh-IsWithin n
          (record s { clients = remove id s.clients; shown_clients = s.shown_clients - 1 })
          (omega (arith, l, k.shown))
          (remove-All (λ p. p.0 < s.next_client_id) id s.clients k.below)
          (remove-Once id s.clients k.once) (omega (arith, l, h.clients_left)) h.ids_left

events-IsCounted :
    (s : LiveState) (es : List ClientEvent)
    → IsWithin (joining es) s
    → IsCounted (on_client_events s es)
unfolding on_client_events on_client_event
events-IsCounted s [] h = h.counted
events-IsCounted s (joins c ∷ es) h =
    events-IsCounted (on_client_event s (joins c)) es (join-IsWithin (joining es) s c h)
events-IsCounted s (leaves id ∷ es) h =
    events-IsCounted (on_client_event s (leaves id)) es (leave-IsWithin (joining es) s id h)

-- After calls that follow one another, the number and the policy are right.
pub in_turn :
    (trust : TrustStore) (es : List ClientEvent)
    → joining es < 2 ^ 31
    → let s = on_client_events (no_clients trust) es in
      (s.shown_clients ≡ length s.clients) × (s.composited ≡ not (cursor_channel_active s))
unfolding cursor_channel_active
in_turn trust es few =
    let k = events-IsCounted (no_clients trust) es (record {
      counted = record { shown = refl; below = tt; once = tt; policy = refl };
      clients_left = omega arith;
      ids_left = omega arith;
    }) in
    (k.shown, k.policy)
