-- ===== src/Host/Session/Outbound/Spool.antt =====
-- The files of the outbox: no spooled file outlives its transfer. host/service/src/panel.rs writes a file to
-- the outbox and then queues `SendFile` for the session, which takes the commands one by one.
use nebula_display.Prelude.{
  ℕ, ◌≡◌, refl, sym, ap, ◌∙◌, subst, ◌≢◌, inl, inr, Bool, true, false, Option, none, some, List, [],
  ◌∷◌, ◌++◌, arith, Bool-cases, All, list_eq, list_eq_refl, text_eq, lookup, insert, lookup-remove,
  lookup-insert_ne,
}
use nebula_display.Viewer.Receive.{Files}
use nebula_display.Viewer.Receive.Consistency.{if_both}
use nebula_display.Host.Transfers.{drop_for_device}
use nebula_display.Host.Session.Inbound.{drop_transfer}
use nebula_display.Host.Session.Commands.{teardown}
use nebula_display.Host.Session.{ActiveTransfer, OutboundTransfer, Session, Env, Flow}
use nebula_display.Host.Session.Outbound.{
  remove_spool, abort_task, drop_outbound, on_send_file, start_sending, end_outbound, answered,
  on_file_answer, ended, on_file_done, failed_slot, Outcome, send_failed, on_sender_end,
}

-- A `SendFile` command.
pub record Offer : Type 0 where
  pub id : List ℕ
  pub path : List ℕ
  pub name : List ℕ
  pub size_bytes : ℕ
  pub sha256_hex : List ℕ

-- A session with the sends that it has not taken yet.
pub record Outgoing (R : Type 0) : Type 0 where
  pub session : Session R
  pub queued : List Offer

-- No queued send has this file.
abbrev pub Unqueued : List Offer → List ℕ → Type 0
Unqueued qs name = All (λ (q : Offer). q.path ≢ name) qs

-- The outbox has no file but the queued ones and the one of the transfer in the slot.
abbrev pub OnlySpool : List Offer → Option OutboundTransfer → Files → Type 0
OnlySpool qs none files = (name : List ℕ) → Unqueued qs name → lookup name files ≡ none
OnlySpool qs (some t) files =
    (name : List ℕ) → Unqueued qs name → t.path ≢ name → lookup name files ≡ none

abbrev pub has_outbound : Option OutboundTransfer → Bool
has_outbound none = false
has_outbound (some t) = true

-- The busy flag of the panel tells whether the slot is taken.
pub record IsTidy {R : Type 0} (qs : List Offer) (s : Session R) : Type 0 where
  pub spool : OnlySpool qs s.outbound s.outbox
  pub busy : s.sending_file ≡ has_outbound s.outbound

module _ (qs : List Offer) (env : Env) (removed : env.spool_removed ≡ true) where
  remove-empties :
      (t : OutboundTransfer) (files : Files)
      → OnlySpool qs (some t) files
      → (name : List ℕ) → Unqueued qs name
      → lookup name (remove_spool env t files) ≡ none
  remove-empties t files h name u = elim (Bool-cases (list_eq t.path name)) [
    | inl e ↦ rw (removed, lookup-remove t.path name files, e) refl
    | inr e ↦
        rw (removed, lookup-remove t.path name files, e)
          (h name u (λ q. ground (arith, q, list_eq_refl t.path)))
  ]

  module _ {R : Type 0} where
    drop-empties :
        (o : Option OutboundTransfer) (s : Session R)
        → OnlySpool qs o s.outbox
        → (name : List ℕ) → Unqueued qs name
        → lookup name (drop_outbound env o s).outbox ≡ none
    unfolding drop_outbound
    drop-empties none s h = h
    drop-empties (some t) s h = remove-empties t s.outbox h

    drop-slot :
        (o : Option OutboundTransfer) (s : Session R)
        → s.outbound ≡ o
        → (drop_outbound env o s).outbound ≡ none
    unfolding drop_outbound
    drop-slot none s e = e
    drop-slot (some t) s e = refl

    emptied-IsTidy :
        (s : Session R) (o : Option OutboundTransfer)
        → o ≡ none
        → ((n : List ℕ) → Unqueued qs n → lookup n s.outbox ≡ none)
        → OnlySpool qs o s.outbox × (has_outbound o ≡ false)
    emptied-IsTidy s none e h = (h, refl)
    emptied-IsTidy s (some t) e h = absurd cc

    end-IsTidy : (s : Session R) → IsTidy qs s → IsTidy qs (end_outbound env s)
    unfolding end_outbound
    end-IsTidy s h =
        let d = drop_outbound env s.outbound s in
        let r =
          emptied-IsTidy d d.outbound (drop-slot s.outbound s refl)
            (drop-empties s.outbound s h.spool) in
        record { spool = r.0; busy = sym r.1 }

    start-IsTidy :
        (s : Session R) (t : OutboundTransfer)
        → s.outbound ≡ some t
        → IsTidy qs s
        → IsTidy qs (start_sending s t)
    unfolding start_sending
    start-IsTidy s t e h =
        let spool : OnlySpool qs (some t) s.outbox =
          subst (λ o. OnlySpool qs o s.outbox) e h.spool in
        record { spool = spool; busy = h.busy ∙ ap has_outbound e }

    answered-IsTidy :
        (s : Session R) (o : Option OutboundTransfer) (id : List ℕ) (accept : Bool)
        → s.outbound ≡ o
        → IsTidy qs s
        → IsTidy qs (answered env s o id accept)
    unfolding answered
    answered-IsTidy s none id accept e h = h
    answered-IsTidy s (some t) id true e h =
        if_both (IsTidy qs) (list_eq t.id id) _ _ (λ _. start-IsTidy s t e h) (λ _. h)
    answered-IsTidy s (some t) id false e h =
        if_both (IsTidy qs) (list_eq t.id id) _ _ (λ _. end-IsTidy s h) (λ _. h)

    ended-IsTidy :
        (s : Session R) (o : Option OutboundTransfer) (id : List ℕ)
        → IsTidy qs s
        → IsTidy qs (ended env s o id)
    unfolding ended
    ended-IsTidy s none id h = h
    ended-IsTidy s (some t) id h =
        if_both (IsTidy qs) (list_eq t.id id) _ _ (λ _. end-IsTidy s h) (λ _. h)

    failed-IsTidy :
        (s : Session R) (n : ℕ) → IsTidy qs s → IsTidy qs (on_sender_end env s n send_failed)
    unfolding on_sender_end
    failed-IsTidy s n h = slot s.outbound refl h.spool
      where
        slot :
            (o : Option OutboundTransfer)
            → s.outbound ≡ o
            → OnlySpool qs o s.outbox
            → IsTidy qs (record (failed_slot env s o) {
              sending_file = false;
              senders = abort_task (some n) s.senders;
            })
        slot none e k =
            unfold failed_slot in
            record {
              spool = subst (λ x. OnlySpool qs x s.outbox) (sym e) k;
              busy = sym (ap has_outbound e);
            }
        slot (some t) e k =
            unfold failed_slot in record { spool = remove-empties t s.outbox k; busy = refl }

-- What happens to the sends, besides the end of the session. `spooled`: the panel has written the file and
-- has queued its `SendFile`. `taken`: the session takes the first queued one.
pub data SlotEvent : Type 0 where
  spooled : Offer → (content : List ℕ) → SlotEvent
  taken : Env → SlotEvent
  answer : Env → (id : List ℕ) → (accept : Bool) → SlotEvent
  done : Env → (id : List ℕ) → SlotEvent
  sender_end : Env → ℕ → Outcome → SlotEvent

abbrev pub offer_first : {R : Type 0} → Env → Session R → List Offer → Outgoing R
offer_first env s [] = record { session = s; queued = [] }
offer_first env s (q ∷ qs) = record {
  session = (on_send_file env s q.id q.path q.name q.size_bytes q.sha256_hex).0;
  queued = qs;
}

unfoldable pub on_slot_event : {R : Type 0} → Outgoing R → SlotEvent → Outgoing R
on_slot_event w (spooled q content) = record {
  session = record w.session { outbox = insert q.path content w.session.outbox };
  queued = w.queued ++ (q ∷ []);
}
on_slot_event w (taken env) = offer_first env w.session w.queued
on_slot_event w (answer env id accept) = record w {
  session = on_file_answer env w.session id accept;
}
on_slot_event w (done env id) = record w { session = on_file_done env w.session id }
on_slot_event w (sender_end env n outcome) = record w {
  session = on_sender_end env w.session n outcome;
}

unfoldable pub on_slot_events : {R : Type 0} → Outgoing R → List SlotEvent → Outgoing R
on_slot_events w [] = w
on_slot_events w (e ∷ es) = on_slot_events (on_slot_event w e) es

-- The file system removes every spooled file that the session asks it to.
abbrev pub Removes : SlotEvent → Type 0
Removes (spooled q content) = Unit
Removes (taken env) = env.spool_removed ≡ true
Removes (answer env id accept) = env.spool_removed ≡ true
Removes (done env id) = env.spool_removed ≡ true
Removes (sender_end env n outcome) = env.spool_removed ≡ true

-- A name that no send of a longer queue has.
Unqueued-split :
    (qs : List Offer) (q : Offer) (name : List ℕ)
    → Unqueued (qs ++ (q ∷ [])) name
    → Unqueued qs name × (q.path ≢ name)
Unqueued-split [] q name u = (tt, u.0)
Unqueued-split (p ∷ qs) q name u = let r = Unqueued-split qs q name u.1 in ((u.0, r.0), r.1)

spooled-OnlySpool :
    (qs : List Offer) (q : Offer) (content : List ℕ) (o : Option OutboundTransfer) (files : Files)
    → OnlySpool qs o files
    → OnlySpool (qs ++ (q ∷ [])) o (insert q.path content files)
spooled-OnlySpool qs q content none files h = λ name u.
    let (others, ne) = Unqueued-split qs q name u in
    lookup-insert_ne q.path name content files ne ∙ h name others
spooled-OnlySpool qs q content (some t) files h = λ name u free.
    let (others, ne) = Unqueued-split qs q name u in
    lookup-insert_ne q.path name content files ne ∙ h name others free

module _ {R : Type 0} where
  offer-IsTidy :
      (env : Env) (s : Session R) (qs : List Offer)
      → env.spool_removed ≡ true
      → IsTidy qs s
      → IsTidy (offer_first env s qs).queued (offer_first env s qs).session
  unfolding on_send_file
  offer-IsTidy env s [] removed h = h
  offer-IsTidy env s (q ∷ qs) removed h =
      let only : (name : List ℕ)
          → Unqueued qs name
          → q.path ≢ name
          → lookup name (drop_outbound env s.outbound s).outbox ≡ none =
        λ name u free. drop-empties (q ∷ qs) env removed s.outbound s h.spool name (free, u) in
      if_both (λ (x : Session R × Flow). IsTidy qs x.0) env.writer_alive _ _
        (λ _. record { spool = only; busy = refl }) (λ _. record { spool = only; busy = refl })

  event-IsTidy :
      (w : Outgoing R) (e : SlotEvent)
      → Removes e
      → IsTidy w.queued w.session
      → IsTidy (on_slot_event w e).queued (on_slot_event w e).session
  unfolding on_slot_event on_file_answer on_file_done on_sender_end
  event-IsTidy w (spooled q content) r h = record {
    spool = spooled-OnlySpool w.queued q content w.session.outbound w.session.outbox h.spool;
    busy = h.busy;
  }
  event-IsTidy w (taken env) r h = offer-IsTidy env w.session w.queued r h
  event-IsTidy w (answer env id accept) r h =
      answered-IsTidy w.queued env r w.session w.session.outbound id accept refl h
  event-IsTidy w (done env id) r h = ended-IsTidy w.queued env r w.session w.session.outbound id h
  event-IsTidy w (sender_end env n send_failed) r h = failed-IsTidy w.queued env r w.session n h
  event-IsTidy w (sender_end env n outcome) r h = record { spool = h.spool; busy = h.busy }

  events-IsTidy :
      (w : Outgoing R) (es : List SlotEvent)
      → All Removes es
      → IsTidy w.queued w.session
      → IsTidy (on_slot_events w es).queued (on_slot_events w es).session
  unfolding on_slot_events
  events-IsTidy w [] r h = h
  events-IsTidy w (e ∷ es) r h = events-IsTidy (on_slot_event w e) es r.1 (event-IsTidy w e r.0 h)

  transfer-slot :
      (env : Env) (o : Option ActiveTransfer) (s : Session R)
      → ((drop_transfer env o s).outbound ≡ s.outbound)
        × ((drop_transfer env o s).outbox ≡ s.outbox)
  unfolding drop_transfer
  transfer-slot env none s = (refl, refl)
  transfer-slot env (some t) s = (refl, refl)

  -- Whatever is queued, offered, replaced, answered, reported done, aborted or failed before a session ends:
  -- if the file system removes the files that it is asked to remove, the end of the session leaves no file in
  -- the outbox but those of sends that the panel has queued and the session has not taken; and until then the
  -- panel's busy flag is right. The session starts with nothing but queued files in the outbox.
  pub outbox_emptied :
      (s : Session R) (queued : List Offer) (es : List SlotEvent) (env : Env)
      → IsTidy queued s
      → All Removes es
      → env.spool_removed ≡ true
      → let w = on_slot_events (record { session = s; queued = queued }) es in
        ((name : List ℕ)
          → Unqueued w.queued name
          → lookup name (teardown env w.session).outbox ≡ none)
        × (w.session.sending_file ≡ has_outbound w.session.outbound)
  unfolding teardown
  outbox_emptied s queued es env h removes removed =
      let w = on_slot_events (record { session = s; queued = queued }) es in
      let s' = w.session in
      let tidy = events-IsTidy (record { session = s; queued = queued }) es removes h in
      let s1 : Session R = record s' { pending = drop_for_device s'.device_id s'.pending } in
      let (slot, box) = transfer-slot env s1.transfer s1 in
      let only : OnlySpool w.queued (drop_transfer env s1.transfer s1).outbound
          (drop_transfer env s1.transfer s1).outbox =
        rw (slot, box) tidy.spool in
      (drop-empties w.queued env removed _ (drop_transfer env s1.transfer s1) only, tidy.busy)
