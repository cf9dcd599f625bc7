-- ===== src/Events/Slots.antt =====
-- The events that `ldap_sync_search_entry` sends, and its calls on the limit of concurrent events.
use bind_dyndb_ldap_pagure_i.Prelude.{
  ℕ, ◌≡◌, refl, ◌∙◌, ap, inl, inr, ◌⊎◌, Bool, Bool-cases, true, false, not, Option, none, some,
  List, [], ◌∷◌, ◌++◌, arith,
}
use bind_dyndb_ldap_pagure_i.Isc.{
  IscResult, is_success, Result, ok, err, returns, require, Ensures, Ensures-after,
}
use bind_dyndb_ldap_pagure_i.LdapEntry.Class.{any_class}
use bind_dyndb_ldap_pagure_i.Sync.{sync_event_send}
use bind_dyndb_ldap_pagure_i.Events.{
  Entry, Phase, Action, SyncreplEvent, Outside, Sender, action_of, is_record, zone_of, task_of,
  send_event, to_task, syncrepl_update,
}

append_assoc : {A : Type 0} (xs ys zs : List A) → (xs ++ ys) ++ zs ≡ xs ++ (ys ++ zs)
append_assoc [] ys zs = refl
append_assoc (x ∷ xs) ys zs = ap (◌∷◌ x) (append_assoc xs ys zs)

abbrev pub Events : Type 0 → Type 0
Events Name = List (SyncreplEvent Name)

module _ {Name : Type 0} where
  -- The limit is not called, and on success events with a property are added behind the others.
  abbrev pub Adds : (Events Name → Type 0) → Outside Name → IscResult × Outside Name → Type 0
  Adds P before (r, o) =
      (o.waits ≡ before.waits)
      × (o.signals ≡ before.signals)
      × ((is_success r ≡ false)
          ⊎ ((added : Events Name) × (o.events ≡ before.events ++ added) × P added))

  -- One event for an entry, with a type of change.
  abbrev pub One : Entry Name → Phase → Events Name → Type 0
  One e chgtype added =
      (ev : SyncreplEvent Name) × (added ≡ ev ∷ []) × (ev.chgtype ≡ chgtype) × (ev.entry ≡ e)

  pub Adds-quiet :
      (P : Events Name → Type 0) (before : Outside Name) (p q : IscResult × Outside Name)
      → Adds P before p
      → is_success p.0 ≡ true
      → q.1 ≡ p.1
      → Adds P before q
  Adds-quiet P before p q (w, s, inl f) e h = absurd (ground (arith, e, f))
  Adds-quiet P before p q (w, s, inr (xs, is, px)) e h =
      (ap (λ o. o.waits) h ∙ w, ap (λ o. o.signals) h ∙ s, inr (xs, ap (λ o. o.events) h ∙ is, px))

  pub Adds-then :
      (P Q R : Events Name → Type 0) (before middle : Outside Name) (r : IscResult)
      (p : IscResult × Outside Name)
      → Adds P before (r, middle)
      → is_success r ≡ true
      → Adds Q middle p
      → ((xs ys : Events Name) → P xs → Q ys → R (xs ++ ys))
      → Adds R before p
  Adds-then P Q R before middle r p (w, s, inl f) e h join = absurd (ground (arith, e, f))
  Adds-then P Q R before middle r p (w, s, inr (xs, is, px)) e (w', s', inl f) join =
      (w' ∙ w, s' ∙ s, inl f)
  Adds-then P Q R before middle r p (w, s, inr (xs, is, px)) e (w', s', inr (ys, is', qy)) join = (
    w' ∙ w,
    s' ∙ s,
    inr (xs ++ ys, is' ∙ ap (λ l. l ++ ys) is ∙ append_assoc before.events xs ys, join xs ys px qy),
  )

module _ {Name : Type 0} (sender : Sender Name) where
  send_event-Adds :
      (o : Outside Name) (e : Entry Name) (chgtype : Phase) (looks : List (ℕ × Bool)) (task : ℕ)
      (action : Option Action)
      → Ensures (Adds (One e chgtype) o) (send_event sender o e chgtype looks task action)
  send_event-Adds o e chgtype looks task none = (refl, refl, inl refl)
  send_event-Adds o e chgtype looks task (some action) =
      let (ctx, seqid, wait) = sync_event_send o.ctx (not (is_record e.class)) looks in
      let ev : SyncreplEvent Name = record {
        action = action;
        task = task;
        seqid = seqid;
        chgtype = chgtype;
        entry = e;
      } in
      elim (Bool-cases sender.event_memory) [
        | inr f ↦ rw f (refl, refl, inl refl)
        | inl f ↦ rw f (
            Ensures-after (Adds (One e chgtype) o) wait
              (λ r. returns (r, record o { ctx = ctx; events = o.events ++ ev ∷ [] }))
              (λ r. (refl, refl, inr (ev ∷ [], refl, (ev, refl, refl, refl)))))
      ]

  to_task-Adds :
      (o : Outside Name) (e : Entry Name) (chgtype : Phase) (looks : List (ℕ × Bool))
      (task : Result ℕ)
      → ((r : IscResult) → task ≡ err r → is_success r ≡ false)
      → Ensures (Adds (One e chgtype) o) (to_task sender o e chgtype looks task)
  to_task-Adds o e chgtype looks (err r) h = (refl, refl, inl (h r refl))
  to_task-Adds o e chgtype looks (ok task) h =
      send_event-Adds o e chgtype looks task (action_of e.class)

  task_of_failed :
      (e : Entry Name) (r : IscResult) → task_of sender e ≡ err r → is_success r ≡ false
  task_of_failed e r h = elim (Bool-cases (is_record e.class)) [
    | inr b ↦ absurd (ground (arith, h, b))
    | inl b ↦ sender.zone_task_failed (zone_of sender e) r (ground (arith, h, b))
  ]

  pub syncrepl_update-Adds :
      (o : Outside Name) (e : Entry Name) (chgtype : Phase) (looks : List (ℕ × Bool))
      → Ensures (Adds (One e chgtype) o) (syncrepl_update sender o e chgtype looks)
  unfolding syncrepl_update
  syncrepl_update-Adds o e chgtype looks =
      Ensures-after (Adds (One e chgtype) o) (require (any_class e.class))
        (λ u. to_task sender o e chgtype looks (task_of sender e))
        (λ u. to_task-Adds o e chgtype looks (task_of sender e) (task_of_failed e))
