-- ===== src/Events/Phases.antt =====
-- What `ldap_sync_search_entry` sends by phase, and the slot that it takes.
use bind_dyndb_ldap_pagure_i.Prelude.{
  ◌+◌, ◌≡◌, refl, ◌∙◌, ap, inl, inr, ◌⊎◌, Bool, Bool-cases, true, false, ◌++◌,
}
use bind_dyndb_ldap_pagure_i.Isc.{IscResult, is_success, Run, Ensures, Ensures-mono}
use bind_dyndb_ldap_pagure_i.Metadata.{Database}
use bind_dyndb_ldap_pagure_i.Events.{
  Entry, Phase, phase_add, phase_modify, phase_delete, phase_other, Outside, Sender,
}
use bind_dyndb_ldap_pagure_i.Events.Entries.{
  ldap_entry_reconstruct, Call, remove_old, store_new, renamed, change_entry, with_entry, parse_new,
  in_phase,
}
use bind_dyndb_ldap_pagure_i.Events.Taken.{one_more}
use bind_dyndb_ldap_pagure_i.Events.Steps.{W, check-Ensures, with_entry-Ensures}
use bind_dyndb_ldap_pagure_i.Events.Slots.{Events, One, Adds-then}
use bind_dyndb_ldap_pagure_i.Events.Found.{
  InMessage, InMetadata, parse_new-InMessage, reconstruct-InMetadata, renamed-Renamed,
  renamed-NotRenamed,
}
use bind_dyndb_ldap_pagure_i.Events.Sent.{
  AddsHere as adds_at, Two-of, Sent as sent_at, remove_old-Adds, store_new-Adds,
}

module _ {Uuid Name : Type 0} (db : Database Uuid Name) (sender : Sender Name)
    (name_equal : Name → Name → Bool) (empty_name : Name) where
  abbrev pub Here :
      (Events Name → Type 0)
      → W db sender name_equal empty_name
      → IscResult × W db sender name_equal empty_name
      → Type 0
  Here = adds_at db sender name_equal empty_name

  abbrev pub Sent :
      Call db sender name_equal empty_name → Uuid → db.Version → Phase → Events Name → Type 0
  Sent = sent_at db sender name_equal empty_name

  Here-weaken :
      (P Q : Events Name → Type 0) (w : W db sender name_equal empty_name)
      (m : Run (IscResult × W db sender name_equal empty_name))
      → ((l : Events Name) → P l → Q l)
      → Ensures (Here P w) m
      → Ensures (Here Q w) m
  Here-weaken P Q w m h e = Ensures-mono (Here P w) (Here Q w) m e (λ p a. weaken_of p a)
    where
      weaken_of : (p : IscResult × W db sender name_equal empty_name) → Here P w p → Here Q w p
      weaken_of (r, w') (a, b, inl f) = (a, b, inl f)
      weaken_of (r, w') (a, b, inr (l, is, pl)) = (a, b, inr (l, is, h l pl))

  Here-then :
      (P Q R : Events Name → Type 0) (w : W db sender name_equal empty_name)
      (p q : IscResult × W db sender name_equal empty_name)
      → Here P w p
      → is_success p.0 ≡ true
      → Here Q p.1 q
      → ((xs ys : Events Name) → P xs → Q ys → R (xs ++ ys))
      → Here R w q
  Here-then P Q R w p q a f b join =
      Adds-then P Q R w.outside p.1.outside p.0 (q.0, q.1.outside) a f b join

  Here-failed :
      (P Q : Events Name → Type 0) (w : W db sender name_equal empty_name)
      (p : IscResult × W db sender name_equal empty_name)
      → Here P w p
      → is_success p.0 ≡ false
      → Here Q w p
  Here-failed P Q w (r, w') (a, b, c) f = (a, b, inl f)

  change_entry-Sent :
      (call : Call db sender name_equal empty_name) (uuid : Uuid) (v : db.Version)
      (old new : Entry Name) (w : W db sender name_equal empty_name)
      → InMetadata db sender name_equal empty_name v uuid old
      → InMessage db sender name_equal empty_name call new
      → Ensures
          (Here (Sent call uuid v phase_modify) w)
          (change_entry db sender name_equal empty_name call uuid old new w)
  change_entry-Sent call uuid v old new w there said =
      elim (Bool-cases (renamed db sender name_equal empty_name old new)) [
        | inr e ↦ rw e (
            Here-weaken (One new phase_modify) (Sent call uuid v phase_modify) w
              (store_new db sender name_equal empty_name call uuid new phase_modify w)
              (λ l one. (
                old,
                new,
                there,
                said,
                inl (renamed-NotRenamed db sender name_equal empty_name old new e, one),
              ))
              (store_new-Adds db sender name_equal empty_name call uuid new phase_modify w))
        | inl e ↦ rw e (
            check-Ensures db sender name_equal empty_name (Here (One old phase_delete) w)
              (Here (Sent call uuid v phase_modify) w)
              (remove_old db sender name_equal empty_name call uuid old w)
              (λ w'. store_new db sender name_equal empty_name call uuid new phase_add w')
              (remove_old-Adds db sender name_equal empty_name call uuid old w)
              (λ p a f.
                Ensures-mono (Here (One new phase_add) p.1) (Here (Sent call uuid v phase_modify) w)
                  (store_new db sender name_equal empty_name call uuid new phase_add p.1)
                  (store_new-Adds db sender name_equal empty_name call uuid new phase_add p.1)
                  (λ q b.
                    Here-then (One old phase_delete) (One new phase_add)
                      (Sent call uuid v phase_modify) w p q a f b
                      (λ xs ys x y. (
                        old,
                        new,
                        there,
                        said,
                        inr (
                          renamed-Renamed db sender name_equal empty_name old new e,
                          Two-of db sender name_equal empty_name old new xs ys x y,
                        ),
                      ))))
              (λ p a f. Here-failed (One old phase_delete) (Sent call uuid v phase_modify) w p a f))
      ]

  pub in_phase-Sent :
      (call : Call db sender name_equal empty_name) (uuid : Uuid) (phase : Phase)
      (w : W db sender name_equal empty_name)
      → Ensures
          (Here (Sent call uuid w.mldap.mdb.current phase) w)
          (in_phase db sender name_equal empty_name call uuid phase w)
  in_phase-Sent call uuid phase_add w =
      let said = Sent call uuid w.mldap.mdb.current phase_add in
      with_entry-Ensures db sender name_equal empty_name (Here said w)
        (parse_new db sender name_equal empty_name call) w
        (λ new w'. store_new db sender name_equal empty_name call uuid new phase_add w')
        (λ r f. (refl, refl, inl f))
        (λ new h.
          Here-weaken (One new phase_add) said w
            (store_new db sender name_equal empty_name call uuid new phase_add w)
            (λ l one. (new, parse_new-InMessage db sender name_equal empty_name call new h, one))
            (store_new-Adds db sender name_equal empty_name call uuid new phase_add w))
  in_phase-Sent call uuid phase_delete w =
      let said = Sent call uuid w.mldap.mdb.current phase_delete in
      with_entry-Ensures db sender name_equal empty_name (Here said w)
        (ldap_entry_reconstruct db sender name_equal empty_name call.memory w.mldap uuid) w
        (λ old w'. remove_old db sender name_equal empty_name call uuid old w')
        (λ r f. (refl, refl, inl f))
        (λ old h.
          Here-weaken (One old phase_delete) said w
            (remove_old db sender name_equal empty_name call uuid old w)
            (λ l one. (
              old,
              reconstruct-InMetadata db sender name_equal empty_name call.memory w.mldap uuid old h,
              one,
            ))
            (remove_old-Adds db sender name_equal empty_name call uuid old w))
  in_phase-Sent call uuid phase_modify w =
      let said = Sent call uuid w.mldap.mdb.current phase_modify in
      with_entry-Ensures db sender name_equal empty_name (Here said w)
        (ldap_entry_reconstruct db sender name_equal empty_name call.memory w.mldap uuid) w
        (λ old w'.
          with_entry db sender name_equal empty_name
            (parse_new db sender name_equal empty_name call) w'
            (λ new w''. change_entry db sender name_equal empty_name call uuid old new w''))
        (λ r f. (refl, refl, inl f))
        (λ old h.
          with_entry-Ensures db sender name_equal empty_name (Here said w)
            (parse_new db sender name_equal empty_name call) w
            (λ new w''. change_entry db sender name_equal empty_name call uuid old new w'')
            (λ r f. (refl, refl, inl f))
            (λ new g.
              change_entry-Sent call uuid w.mldap.mdb.current old new w
                (reconstruct-InMetadata db sender name_equal empty_name call.memory w.mldap uuid old
                  h)
                (parse_new-InMessage db sender name_equal empty_name call new g)))
  in_phase-Sent call uuid (phase_other n) w = (refl, refl, inl refl)

  -- On success one slot is taken and the events of the phase are sent; on failure no slot is given back
  -- before the cleanup.
  abbrev pub Tally :
      (Events Name → Type 0) → Outside Name → IscResult × W db sender name_equal empty_name → Type 0
  Tally P o (r, w) =
      ((is_success r ≡ true)
        × (w.outside.waits ≡ o.waits + 1)
        × (w.outside.signals ≡ o.signals)
        × (added : Events Name) × (w.outside.events ≡ o.events ++ added)
        × P added)
      ⊎ ((is_success r ≡ false) × (w.outside.signals ≡ o.signals))

  pub Tally-of :
      (P : Events Name → Type 0) (o : Outside Name) (w : W db sender name_equal empty_name)
      (p : IscResult × W db sender name_equal empty_name)
      → w.outside ≡ one_more o
      → Here P w p
      → Tally P o p
  Tally-of P o w (r, w') e (a, b, inl f) = inr (f, b ∙ ap (λ x. x.signals) e)
  Tally-of P o w (r, w') e (a, b, inr (l, is, sent)) = elim (Bool-cases (is_success r)) [
    | inl g ↦ inl (
      g,
      a ∙ ap (λ x. x.waits) e,
      b ∙ ap (λ x. x.signals) e,
      l,
      is ∙ ap (λ x. x.events ++ l) e,
      sent,
    )
    | inr g ↦ inr (g, b ∙ ap (λ x. x.signals) e)
  ]
