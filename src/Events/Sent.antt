-- ===== src/Events/Sent.antt =====
-- What a whole call of `ldap_sync_search_entry` sends.
use bind_dyndb_ldap_pagure_i.Prelude.{
  ℕ, ◌≡◌, refl, ◌∙◌, ap, subst, inl, ◌⊎◌, Bool, true, false, List, [], ◌∷◌, ◌++◌,
}
use bind_dyndb_ldap_pagure_i.Isc.{
  IscResult, Result, ok, err, returns, ◌>>=◌, Ensures, Ensures-bind, Ensures-after, Ensures-mono,
}
use bind_dyndb_ldap_pagure_i.Metadata.{Database, metadb_closeversion, write_version}
use bind_dyndb_ldap_pagure_i.Metadata.Mldap.{Mldap, mldap_entry_create, mldap_entry_delete}
use bind_dyndb_ldap_pagure_i.Events.{
  Entry, Phase, phase_add, phase_modify, phase_delete, phase_other, SyncreplEvent, Outside, Sender,
  syncrepl_update,
}
use bind_dyndb_ldap_pagure_i.Events.Entries.{
  Call, close_meta, update_with, delete_meta, remove_old, store_names, named_node, create_meta,
  store_new,
}
use bind_dyndb_ldap_pagure_i.Events.Steps.{W, check-Ensures}
use bind_dyndb_ldap_pagure_i.Events.Found.{InMessage, InMetadata, Renamed, NotRenamed}
use bind_dyndb_ldap_pagure_i.Events.Slots.{Events, Adds, One, Adds-quiet, syncrepl_update-Adds}

module _ {Uuid Name : Type 0} (db : Database Uuid Name) (sender : Sender Name)
    (name_equal : Name → Name → Bool) (empty_name : Name) where
  -- Nothing is sent, and the limit is not called.
  abbrev Quiet : W db sender name_equal empty_name → W db sender name_equal empty_name → Type 0
  Quiet w w' = w'.outside ≡ w.outside

  abbrev outside_of : IscResult × W db sender name_equal empty_name → IscResult × Outside Name
  outside_of (r, w) = (r, w.outside)

  abbrev pub AddsHere :
      (Events Name → Type 0)
      → W db sender name_equal empty_name
      → IscResult × W db sender name_equal empty_name
      → Type 0
  AddsHere P w p = Adds P w.outside (outside_of p)

  delete_meta-Quiet :
      (uuid : Uuid) (w : W db sender name_equal empty_name)
      → Ensures (λ p. Quiet w p.1) (delete_meta db sender name_equal empty_name uuid w)
  delete_meta-Quiet uuid w =
      Ensures-after (λ p. Quiet w p.1) (mldap_entry_delete db w.mldap uuid)
        (λ done. returns (done.0, record w { mldap = done.1 })) (λ done. refl)

  named_node-Quiet :
      (e : Entry Name) (w : W db sender name_equal empty_name) (made : Result Name × Mldap db)
      → Ensures (λ p. Quiet w p.1) (named_node db sender name_equal empty_name e w made)
  named_node-Quiet e w (err r, mldap) = refl
  named_node-Quiet e w (ok node, mldap) =
      Ensures-after (λ p. Quiet w p.1) (write_version db mldap.mdb)
        (λ v. returns (
          (store_names db sender name_equal empty_name e mldap node v).0,
          record w { mldap = (store_names db sender name_equal empty_name e mldap node v).1 },
        ))
        (λ v. refl)

  create_meta-Quiet :
      (uuid : Uuid) (e : Entry Name) (w : W db sender name_equal empty_name)
      → Ensures (λ p. Quiet w p.1) (create_meta db sender name_equal empty_name uuid e w)
  create_meta-Quiet uuid e w =
      Ensures-after (λ p. Quiet w p.1) (mldap_entry_create db uuid e.class w.mldap)
        (λ made. named_node db sender name_equal empty_name e w made)
        (λ made. named_node-Quiet e w made)

  pub close_meta-Quiet :
      (commit : Bool) (w : W db sender name_equal empty_name)
      → Ensures (λ w'. Quiet w w') (close_meta db sender name_equal empty_name commit w)
  close_meta-Quiet commit w =
      Ensures-after (λ w'. Quiet w w') (metadb_closeversion db w.mldap.mdb commit)
        (λ mdb. returns (record w { mldap = record w.mldap { mdb = mdb }; open_version = false }))
        (λ mdb. refl)

  update_with-Adds :
      (looks : List (ℕ × Bool)) (e : Entry Name) (chgtype : Phase)
      (w : W db sender name_equal empty_name)
      → Ensures
          (AddsHere (One e chgtype) w)
          (update_with db sender name_equal empty_name looks e chgtype w)
  update_with-Adds looks e chgtype w =
      Ensures-bind (Adds (One e chgtype) w.outside) (AddsHere (One e chgtype) w)
        (syncrepl_update sender w.outside e chgtype looks)
        (λ r. returns (r.0, record w { outside = r.1 }))
        (syncrepl_update-Adds sender w.outside e chgtype looks) (λ r a. a)

  pub remove_old-Adds :
      (call : Call db sender name_equal empty_name) (uuid : Uuid) (old : Entry Name)
      (w : W db sender name_equal empty_name)
      → Ensures
          (AddsHere (One old phase_delete) w)
          (remove_old db sender name_equal empty_name call uuid old w)
  remove_old-Adds call uuid old w =
      check-Ensures db sender name_equal empty_name (AddsHere (One old phase_delete) w)
        (AddsHere (One old phase_delete) w)
        (update_with db sender name_equal empty_name call.looks_old old phase_delete w)
        (λ w'. delete_meta db sender name_equal empty_name uuid w')
        (update_with-Adds call.looks_old old phase_delete w)
        (λ p a f.
          Ensures-mono (λ q. Quiet p.1 q.1) (AddsHere (One old phase_delete) w)
            (delete_meta db sender name_equal empty_name uuid p.1) (delete_meta-Quiet uuid p.1)
            (λ q h.
              Adds-quiet (One old phase_delete) w.outside (outside_of p) (outside_of q) a f h))
        (λ p a f. a)

  pub store_new-Adds :
      (call : Call db sender name_equal empty_name) (uuid : Uuid) (new : Entry Name)
      (chgtype : Phase) (w : W db sender name_equal empty_name)
      → Ensures
          (AddsHere (One new chgtype) w)
          (store_new db sender name_equal empty_name call uuid new chgtype w)
  store_new-Adds call uuid new chgtype w =
      check-Ensures db sender name_equal empty_name (λ p. Quiet w p.1)
        (AddsHere (One new chgtype) w) (create_meta db sender name_equal empty_name uuid new w)
        (λ w'. close_meta db sender name_equal empty_name true w' >>= λ w''.
          update_with db sender name_equal empty_name call.looks_new new chgtype w'')
        (create_meta-Quiet uuid new w)
        (λ p h f.
          Ensures-bind (λ w''. Quiet p.1 w'') (AddsHere (One new chgtype) w)
            (close_meta db sender name_equal empty_name true p.1)
            (λ w''. update_with db sender name_equal empty_name call.looks_new new chgtype w'')
            (close_meta-Quiet true p.1)
            (λ w'' g.
              subst
                (λ o.
                  Ensures (λ q. Adds (One new chgtype) o (outside_of q))
                    (update_with db sender name_equal empty_name call.looks_new new chgtype w''))
                (g ∙ h) (update_with-Adds call.looks_new new chgtype w'')))
        (λ p h f. (ap (λ o. o.waits) h, ap (λ o. o.signals) h, inl f))

  -- The deletion of an old entry and then the addition of a new one.
  abbrev pub Two : Entry Name → Entry Name → Events Name → Type 0
  Two old new added =
      (first : SyncreplEvent Name) × (second : SyncreplEvent Name) × (added ≡ first ∷ second ∷ [])
      × (first.chgtype ≡ phase_delete)
      × (first.entry ≡ old)
      × (second.chgtype ≡ phase_add)
      × (second.entry ≡ new)

  pub Two-of :
      (old new : Entry Name) (xs ys : Events Name)
      → One old phase_delete xs
      → One new phase_add ys
      → Two old new (xs ++ ys)
  Two-of old new xs ys (e, is, c, t) (e', is', c', t') =
      (e, e', ap (λ l. l ++ ys) is ∙ ap (λ l. e ∷ l) is', c, t, c', t')

  -- By phase: one event for the entry of the message or of the metadata, with the same type of change;
  -- or after a rename two.
  abbrev pub Sent :
      Call db sender name_equal empty_name → Uuid → db.Version → Phase → Events Name → Type 0
  Sent call uuid v phase_add added =
      (new : Entry Name) × InMessage db sender name_equal empty_name call new
      × One new phase_add added
  Sent call uuid v phase_delete added =
      (old : Entry Name) × InMetadata db sender name_equal empty_name v uuid old
      × One old phase_delete added
  Sent call uuid v phase_modify added =
      (old : Entry Name) × (new : Entry Name) × InMetadata db sender name_equal empty_name v uuid
        old
      × InMessage db sender name_equal empty_name call new
      × ((NotRenamed db sender name_equal empty_name old new × One new phase_modify added)
          ⊎ (Renamed db sender name_equal empty_name old new × Two old new added))
  Sent call uuid v (phase_other n) added = ⊥
