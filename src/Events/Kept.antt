-- ===== src/Events/Kept.antt =====
-- What the steps of `ldap_sync_search_entry` keep of the metadata database.
use bind_dyndb_ldap_pagure_i.Prelude.{
  ℕ, ◌+◌, ◌≡◌, refl, sym, ◌∙◌, subst, inl, inr, ◌⊎◌, Bool, Bool-cases, true, false, none, List,
  if◌then◌else◌,
}
use bind_dyndb_ldap_pagure_i.Isc.{
  IscResult, success, is_success, Result, Result-cases, ok, err, returns, ◌>>=◌, unlocked, Ensures,
  Ensures-bind, Ensures-after, Ensures-mono,
}
use bind_dyndb_ldap_pagure_i.Metadata.{
  Database, metadb_newversion, metadb_closeversion, write_version,
}
use bind_dyndb_ldap_pagure_i.Metadata.Mldap.{Mldap, mldap_entry_create, mldap_entry_delete}
use bind_dyndb_ldap_pagure_i.Semaphore.{sync_concurr_limit_wait}
use bind_dyndb_ldap_pagure_i.Events.{
  Entry, Phase, phase_add, phase_modify, phase_delete, Sender, is_config, syncrepl_update,
}
use bind_dyndb_ldap_pagure_i.Events.Steps.{W, check-Ensures}
use bind_dyndb_ldap_pagure_i.Events.Entries.{
  Call, open_meta, close_meta, take_slot, update_with, delete_meta, remove_old, store_names,
  named_node, create_meta, store_new, renamed, change_entry,
}
use bind_dyndb_ldap_pagure_i.Events.Version.{
  IsClosed, IsOpen, closeversion-IsClosed, create-IsOpen, delete-IsOpen,
}

module _ {Uuid Name : Type 0} (db : Database Uuid Name) (sender : Sender Name)
    (name_equal : Name → Name → Bool) (empty_name : Name) where
  abbrev pub Kept : W db sender name_equal empty_name → Type 0
  Kept w =
      ((w.open_version ≡ true) × IsOpen db w.mldap)
      ⊎ ((w.open_version ≡ false) × IsClosed db w.mldap)

  abbrev pub AllKept : IscResult × W db sender name_equal empty_name → Type 0
  AllKept p = Kept p.1

  -- Of a step that starts and ends with an open version.
  abbrev pub Opened : IscResult × W db sender name_equal empty_name → Type 0
  Opened p = (p.1.open_version ≡ true) × IsOpen db p.1.mldap

  pub open_meta-Kept :
      (w : W db sender name_equal empty_name)
      → ((v : db.Version) (r : IscResult) → db.newversion v ≡ err r → is_success r ≡ false)
      → IsClosed db w.mldap
      → Ensures
          (λ p. ((is_success p.0 ≡ true) × Opened p) ⊎ ((is_success p.0 ≡ false) × AllKept p))
          (open_meta db sender name_equal empty_name w)
  unfolding metadb_newversion
  open_meta-Kept w law (l, n) = elim (Result-cases (db.newversion w.mldap.mdb.current)) [
    | inl (v, e) ↦ rw (l, e) (inl (refl, (refl, (refl, v, refl))))
    | inr (r, e) ↦ let f = law w.mldap.mdb.current r e in rw (l, e) (inr (f, inr (f, (refl, n))))
  ]

  pub take_slot-Opened :
      (call : Call db sender name_equal empty_name) (w : W db sender name_equal empty_name)
      → Opened (success, w)
      → Ensures Opened (take_slot db sender name_equal empty_name call w)
  take_slot-Opened call w h =
      Ensures-after Opened (sync_concurr_limit_wait call.rounds)
        (λ r. returns (
          r,
          if is_success r
              then record w { outside = record w.outside { waits = w.outside.waits + 1 } }
              else w,
        ))
        λ r. elim (Bool-cases (is_success r)) [ inl e ↦ rw e h | inr e ↦ rw e h ]

  pub update_with-same :
      (looks : List (ℕ × Bool)) (e : Entry Name) (chgtype : Phase)
      (w : W db sender name_equal empty_name)
      → Ensures
          (λ p. (p.1.open_version ≡ w.open_version) × (p.1.mldap ≡ w.mldap))
          (update_with db sender name_equal empty_name looks e chgtype w)
  update_with-same looks e chgtype w =
      Ensures-after (λ p. (p.1.open_version ≡ w.open_version) × (p.1.mldap ≡ w.mldap))
        (syncrepl_update sender w.outside e chgtype looks)
        (λ r. returns (r.0, record w { outside = r.1 })) (λ r. (refl, refl))

  pub delete_meta-Opened :
      (uuid : Uuid) (w : W db sender name_equal empty_name)
      → Opened (success, w)
      → Ensures Opened (delete_meta db sender name_equal empty_name uuid w)
  delete_meta-Opened uuid w h =
      Ensures-bind (λ done. IsOpen db done.1) Opened (mldap_entry_delete db w.mldap uuid)
        (λ done. returns (done.0, record w { mldap = done.1 })) (delete-IsOpen db uuid w.mldap h.1)
        (λ done o. (h.0, o))

  pub named_node-Opened :
      (e : Entry Name) (w : W db sender name_equal empty_name) (made : Result Name × Mldap db)
      → w.open_version ≡ true
      → IsOpen db made.1
      → Ensures Opened (named_node db sender name_equal empty_name e w made)
  named_node-Opened e w (err r, mldap) h o = (h, o)
  named_node-Opened e w (ok node, mldap) h o =
      Ensures-after Opened (write_version db mldap.mdb)
        (λ v. returns (
          (store_names db sender name_equal empty_name e mldap node v).0,
          record w { mldap = (store_names db sender name_equal empty_name e mldap node v).1 },
        ))
        λ v. elim (Bool-cases (is_config e.class)) [
          | inl c ↦ rw c (h, o)
          | inr c ↦ rw c (h, (o.0, _, refl))
        ]

  pub create_meta-Opened :
      (uuid : Uuid) (e : Entry Name) (w : W db sender name_equal empty_name)
      → Opened (success, w)
      → Ensures Opened (create_meta db sender name_equal empty_name uuid e w)
  create_meta-Opened uuid e w h =
      Ensures-bind (λ made. IsOpen db made.1) Opened (mldap_entry_create db uuid e.class w.mldap)
        (λ made. named_node db sender name_equal empty_name e w made)
        (create-IsOpen db uuid e.class w.mldap h.1) (λ made o. named_node-Opened e w made h.0 o)

  abbrev pub Shut : W db sender name_equal empty_name → Type 0
  Shut w = (w.open_version ≡ false) × IsClosed db w.mldap

  pub close_meta-Shut :
      (commit : Bool) (w : W db sender name_equal empty_name)
      → IsOpen db w.mldap
      → Ensures Shut (close_meta db sender name_equal empty_name commit w)
  close_meta-Shut commit w h =
      Ensures-bind (λ mdb. (mdb.newversion_lock ≡ unlocked) × (mdb.newversion ≡ none)) Shut
        (metadb_closeversion db w.mldap.mdb commit)
        (λ mdb. returns (record w { mldap = record w.mldap { mdb = mdb }; open_version = false }))
        (closeversion-IsClosed db w.mldap commit h) (λ mdb c. (refl, c))

  pub remove_old-Opened :
      (call : Call db sender name_equal empty_name) (uuid : Uuid) (old : Entry Name)
      (w : W db sender name_equal empty_name)
      → Opened (success, w)
      → Ensures Opened (remove_old db sender name_equal empty_name call uuid old w)
  remove_old-Opened call uuid old w h =
      check-Ensures db sender name_equal empty_name
        (λ p. (p.1.open_version ≡ w.open_version) × (p.1.mldap ≡ w.mldap)) Opened
        (update_with db sender name_equal empty_name call.looks_old old phase_delete w)
        (λ w'. delete_meta db sender name_equal empty_name uuid w')
        (update_with-same call.looks_old old phase_delete w)
        (λ p s f. delete_meta-Opened uuid p.1 (s.0 ∙ h.0, subst (IsOpen db) (sym s.1) h.1))
        (λ p s f. (s.0 ∙ h.0, subst (IsOpen db) (sym s.1) h.1))

  pub store_new-Kept :
      (call : Call db sender name_equal empty_name) (uuid : Uuid) (new : Entry Name)
      (chgtype : Phase) (w : W db sender name_equal empty_name)
      → Opened (success, w)
      → Ensures AllKept (store_new db sender name_equal empty_name call uuid new chgtype w)
  store_new-Kept call uuid new chgtype w h =
      check-Ensures db sender name_equal empty_name Opened AllKept
        (create_meta db sender name_equal empty_name uuid new w)
        (λ w'. close_meta db sender name_equal empty_name true w' >>= λ w''.
          update_with db sender name_equal empty_name call.looks_new new chgtype w'')
        (create_meta-Opened uuid new w h)
        (λ p o f.
          Ensures-bind Shut AllKept (close_meta db sender name_equal empty_name true p.1)
            (λ w''. update_with db sender name_equal empty_name call.looks_new new chgtype w'')
            (close_meta-Shut true p.1 o.1)
            (λ w'' shut.
              Ensures-mono (λ q. (q.1.open_version ≡ w''.open_version) × (q.1.mldap ≡ w''.mldap))
                AllKept (update_with db sender name_equal empty_name call.looks_new new chgtype w'')
                (update_with-same call.looks_new new chgtype w'')
                (λ q s. inr (s.0 ∙ shut.0, subst (IsClosed db) (sym s.1) shut.1))))
        (λ p o f. inl o)

  pub change_entry-Kept :
      (call : Call db sender name_equal empty_name) (uuid : Uuid) (old new : Entry Name)
      (w : W db sender name_equal empty_name)
      → Opened (success, w)
      → Ensures AllKept (change_entry db sender name_equal empty_name call uuid old new w)
  change_entry-Kept call uuid old new w h =
      elim (Bool-cases (renamed db sender name_equal empty_name old new)) [
        | inr e ↦ rw e (store_new-Kept call uuid new phase_modify w h)
        | inl e ↦ rw e (
            check-Ensures db sender name_equal empty_name Opened AllKept
              (remove_old db sender name_equal empty_name call uuid old w)
              (λ w'. store_new db sender name_equal empty_name call uuid new phase_add w')
              (remove_old-Opened call uuid old w h)
              (λ p o f. store_new-Kept call uuid new phase_add p.1 o) (λ p o f. inl o))
      ]
