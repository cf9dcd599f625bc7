-- ===== src/Events/Closed.antt =====
-- The metadata database after `ldap_sync_search_entry`.
use bind_dyndb_ldap_pagure_i.Prelude.{
  ◌≡◌, refl, inl, inr, ◌⊎◌, Bool, Bool-cases, true, false, if◌then◌else◌, arith,
}
use bind_dyndb_ldap_pagure_i.Isc.{
  IscResult, success, is_success, err, returns, Ensures, Ensures-bind, Ensures-mono,
  Ensures-returns,
}
use bind_dyndb_ldap_pagure_i.Metadata.{Database}
use bind_dyndb_ldap_pagure_i.Metadata.Mldap.{Mldap}
use bind_dyndb_ldap_pagure_i.Events.{
  Phase, phase_add, phase_modify, phase_delete, phase_other, Outside, Sender,
}
use bind_dyndb_ldap_pagure_i.Events.Steps.{W, check-Ensures, with_entry-Ensures}
use bind_dyndb_ldap_pagure_i.Events.Entries.{
  check, ldap_entry_reconstruct, Call, open_meta, close_meta, take_slot, remove_old, store_new,
  change_entry, with_entry, parse_new, in_phase, signal, cleanup, ldap_sync_search_entry,
}
use bind_dyndb_ldap_pagure_i.Events.Version.{IsClosed}
use bind_dyndb_ldap_pagure_i.Events.Kept.{
  AllKept as kept_at, Opened as opened_at, Shut as shut_at, open_meta-Kept, take_slot-Opened,
  store_new-Kept, change_entry-Kept, remove_old-Opened, close_meta-Shut,
}

module _ {Uuid Name : Type 0} (db : Database Uuid Name) (sender : Sender Name)
    (name_equal : Name → Name → Bool) (empty_name : Name) where
  abbrev AllKept : IscResult × W db sender name_equal empty_name → Type 0
  AllKept = kept_at db sender name_equal empty_name

  abbrev Opened : IscResult × W db sender name_equal empty_name → Type 0
  Opened = opened_at db sender name_equal empty_name

  abbrev Shut : W db sender name_equal empty_name → Type 0
  Shut = shut_at db sender name_equal empty_name

  in_phase-Kept :
      (call : Call db sender name_equal empty_name) (uuid : Uuid) (phase : Phase)
      (w : W db sender name_equal empty_name)
      → Opened (success, w)
      → Ensures AllKept (in_phase db sender name_equal empty_name call uuid phase w)
  in_phase-Kept call uuid phase_add w h =
      with_entry-Ensures db sender name_equal empty_name AllKept
        (parse_new db sender name_equal empty_name call) w
        (λ new w'. store_new db sender name_equal empty_name call uuid new phase_add w')
        (λ r f. inl h)
        (λ new g. store_new-Kept db sender name_equal empty_name call uuid new phase_add w h)
  in_phase-Kept call uuid phase_delete w h =
      with_entry-Ensures db sender name_equal empty_name AllKept
        (ldap_entry_reconstruct db sender name_equal empty_name call.memory w.mldap uuid) w
        (λ old w'. remove_old db sender name_equal empty_name call uuid old w') (λ r f. inl h)
        (λ old g.
          Ensures-mono Opened AllKept (remove_old db sender name_equal empty_name call uuid old w)
            (remove_old-Opened db sender name_equal empty_name call uuid old w h) (λ p o. inl o))
  in_phase-Kept call uuid phase_modify w h =
      with_entry-Ensures db sender name_equal empty_name AllKept
        (ldap_entry_reconstruct db sender name_equal empty_name call.memory w.mldap uuid) w
        (λ old w'.
          with_entry db sender name_equal empty_name
            (parse_new db sender name_equal empty_name call) w'
            (λ new w''. change_entry db sender name_equal empty_name call uuid old new w''))
        (λ r f. inl h)
        (λ old g.
          with_entry-Ensures db sender name_equal empty_name AllKept
            (parse_new db sender name_equal empty_name call) w
            (λ new w''. change_entry db sender name_equal empty_name call uuid old new w'')
            (λ r f. inl h)
            (λ new f. change_entry-Kept db sender name_equal empty_name call uuid old new w h))
  in_phase-Kept call uuid (phase_other n) w h = inl h

  cleanup-Shut :
      (p : IscResult × W db sender name_equal empty_name)
      → AllKept p
      → Ensures (λ q. Shut q.1) (cleanup db sender name_equal empty_name p)
  cleanup-Shut (r, w) (inl (o, m)) = rw o (
      Ensures-bind Shut (λ q. Shut q.1)
        (close_meta db sender name_equal empty_name (is_success r) w)
        (λ w'. returns (r, if is_success r then w' else signal db sender name_equal empty_name w'))
        (close_meta-Shut db sender name_equal empty_name (is_success r) w m)
        (λ w' s. elim (Bool-cases (is_success r)) [ inl e ↦ rw e s | inr e ↦ rw e s ]))
  cleanup-Shut (r, w) (inr (o, m)) =
      rw o (elim (Bool-cases (is_success r)) [ inl e ↦ rw e (refl, m) | inr e ↦ rw e (refl, m) ])

  Opened-of :
      (p : IscResult × W db sender name_equal empty_name)
      → ((is_success p.0 ≡ true) × Opened p) ⊎ ((is_success p.0 ≡ false) × AllKept p)
      → is_success p.0 ≡ true
      → Opened p
  Opened-of p (inl (e, o)) f = o
  Opened-of p (inr (e, k)) f = absurd (ground (arith, e, f))

  kept_of :
      (p : IscResult × W db sender name_equal empty_name)
      → ((is_success p.0 ≡ true) × Opened p) ⊎ ((is_success p.0 ≡ false) × AllKept p)
      → AllKept p
  kept_of p (inl (e, o)) = inl o
  kept_of p (inr (e, k)) = k

  slotted-Kept :
      (call : Call db sender name_equal empty_name) (uuid : Uuid) (phase : Phase)
      (w : W db sender name_equal empty_name)
      → Opened (success, w)
      → Ensures AllKept (
          check db sender name_equal empty_name
            (take_slot db sender name_equal empty_name call w)
            (λ w2. in_phase db sender name_equal empty_name call uuid phase w2))
  slotted-Kept call uuid phase w h =
      check-Ensures db sender name_equal empty_name Opened AllKept
        (take_slot db sender name_equal empty_name call w)
        (λ w2. in_phase db sender name_equal empty_name call uuid phase w2)
        (take_slot-Opened db sender name_equal empty_name call w h)
        (λ p o f. in_phase-Kept call uuid phase p.1 o) (λ p o f. inl o)

  search_entry-IsClosed :
      (call : Call db sender name_equal empty_name) (uuid : Uuid) (phase : Phase)
      (outside : Outside Name) (mldap : Mldap db)
      → ((v : db.Version) (e : IscResult) → db.newversion v ≡ err e → is_success e ≡ false)
      → IsClosed db mldap
      → Ensures
          (λ q. IsClosed db q.1.mldap)
          (ldap_sync_search_entry db sender name_equal empty_name call uuid phase outside mldap)
  unfolding ldap_sync_search_entry
  search_entry-IsClosed call uuid phase outside mldap law closed =
      let start : W db sender name_equal empty_name = record {
        outside = outside;
        mldap = mldap;
        open_version = false;
      } in
      let body =
        check db sender name_equal empty_name (open_meta db sender name_equal empty_name start)
          (λ w1.
            check db sender name_equal empty_name
              (take_slot db sender name_equal empty_name call w1)
              (λ w2. in_phase db sender name_equal empty_name call uuid phase w2)) in
      let kept : Ensures AllKept body =
        check-Ensures db sender name_equal empty_name
          (λ p. ((is_success p.0 ≡ true) × Opened p) ⊎ ((is_success p.0 ≡ false) × AllKept p))
          AllKept (open_meta db sender name_equal empty_name start)
          (λ w1.
            check db sender name_equal empty_name
              (take_slot db sender name_equal empty_name call w1)
              (λ w2. in_phase db sender name_equal empty_name call uuid phase w2))
          (open_meta-Kept db sender name_equal empty_name start law closed)
          (λ p s f. slotted-Kept call uuid phase p.1 (Opened-of p s f)) (λ p s f. kept_of p s) in
      elim (Bool-cases call.exiting) [
        | inl e ↦ rw e closed
        | inr e ↦ rw e (
            Ensures-bind AllKept (λ q. IsClosed db q.1.mldap) body
              (λ p. cleanup db sender name_equal empty_name p) kept
              (λ p k.
                Ensures-mono (λ q. Shut q.1) (λ q. IsClosed db q.1.mldap)
                  (cleanup db sender name_equal empty_name p) (cleanup-Shut p k) (λ q s. s.1)))
      ]

  -- Whenever `ldap_sync_search_entry` returns, on every path and for every phase, the metadata database
  -- is closed again and its lock is free, if that was so before, so that the next call can start. It is
  -- assumed that an error of `dns_db_newversion` is not ISC_R_SUCCESS.
  pub ldap_sync_search_entry-IsClosed :
      (call : Call db sender name_equal empty_name) (uuid : Uuid) (phase : Phase)
      (outside : Outside Name) (mldap : Mldap db) (r : IscResult)
      (w : W db sender name_equal empty_name)
      → ((v : db.Version) (e : IscResult) → db.newversion v ≡ err e → is_success e ≡ false)
      → IsClosed db mldap
      → ldap_sync_search_entry db sender name_equal empty_name call uuid phase outside mldap
        ≡ returns (r, w)
      → IsClosed db w.mldap
  ldap_sync_search_entry-IsClosed call uuid phase outside mldap r w law closed done =
      Ensures-returns (λ q. IsClosed db q.1.mldap)
        (ldap_sync_search_entry db sender name_equal empty_name call uuid phase outside mldap)
        (r, w) done (search_entry-IsClosed call uuid phase outside mldap law closed)
