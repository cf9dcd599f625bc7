-- ===== src/Events/Entries.antt =====
-- `ldap_entry_reconstruct` of src/ldap_entry.c and `ldap_sync_search_entry` of src/ldap_helper.c.
use bind_dyndb_ldap_pagure_i.Prelude.{
  ℕ, ◌+◌, Bool, true, false, ◌&&◌, not, Option, none, some, List, if◌then◌else◌,
}
use bind_dyndb_ldap_pagure_i.Isc.{
  IscResult, success, notimplemented, is_success, Result, ok, err, Run, returns, undefined, ◌>>=◌,
}
use bind_dyndb_ldap_pagure_i.LdapEntry.Class.{EntryClass}
use bind_dyndb_ldap_pagure_i.LdapEntry.Parse.{ParsedEntry}
use bind_dyndb_ldap_pagure_i.Metadata.{
  Database, metadb_newversion, metadb_closeversion, write_version,
}
use bind_dyndb_ldap_pagure_i.Metadata.Mldap.{
  Mldap, mldap_class_get, mldap_dnsname_store, mldap_dnsname_get, mldap_entry_create,
  mldap_entry_read, mldap_entry_delete, written_to,
}
use bind_dyndb_ldap_pagure_i.Semaphore.{Round, sync_concurr_limit_wait}
use bind_dyndb_ldap_pagure_i.Events.{
  Entry, Phase, phase_add, phase_modify, phase_delete, phase_other, Outside, Sender, is_config,
  syncrepl_update,
}

module _ {Uuid Name : Type 0} (db : Database Uuid Name) (sender : Sender Name)
    (name_equal : Name → Name → Bool) (empty_name : Name) where
  -- What a call works on; `open_version` is `mldap_open`.
  pub record Work : Type 0 where
    pub outside : Outside Name
    pub mldap : Mldap db
    pub open_version : Bool

  -- CHECK
  abbrev pub check :
      Run (IscResult × Work) → (Work → Run (IscResult × Work)) → Run (IscResult × Work)
  check m k = do (r, w) ← m; if is_success r then k w else returns (r, w)

  abbrev pub named_entry : EntryClass → Result (Name × Name) → Result (Entry Name)
  named_entry class (err r) = err r
  named_entry class (ok (fqdn, zone)) = ok (record { class = class; fqdn = fqdn; zone_name = zone })

  -- The names of configuration are not read and stay empty.
  abbrev pub with_names : Run (Result (Name × Name)) → EntryClass → Run (Result (Entry Name))
  with_names names class =
      if is_config class
      then returns (ok (record { class = class; fqdn = empty_name; zone_name = empty_name }))
      else (do found ← names; returns (named_entry class found))

  abbrev pub class_read : Run (Result (Name × Name)) → Result EntryClass → Run (Result (Entry Name))
  class_read names (err r) = returns (err r)
  class_read names (ok class) = with_names names class

  -- The node is read in the committed version.
  abbrev pub read_node : IscResult → Mldap db → Result Name → Run (Result (Entry Name))
  read_node entry_memory mldap (err r) = returns (err r)
  read_node entry_memory mldap (ok node) =
      if is_success entry_memory
      then (do
        class ← mldap_class_get db mldap.mdb.current node
        class_read (mldap_dnsname_get db mldap.mdb.current node) class)
      else returns (err entry_memory)

  -- `memory` has the result of `str_new` and that of the allocations for the entry.
  unfoldable pub ldap_entry_reconstruct :
      IscResult × IscResult → Mldap db → Uuid → Run (Result (Entry Name))
  ldap_entry_reconstruct memory mldap uuid =
      if is_success memory.0
      then read_node memory.1 mldap (mldap_entry_read db mldap uuid)
      else returns (err memory.0)

  abbrev pub names_of : Option (Name × Option Name) → Name × Name
  names_of none = (empty_name, empty_name)
  names_of (some (fqdn, none)) = (fqdn, empty_name)
  names_of (some (fqdn, some zone)) = (fqdn, zone)

  abbrev pub entry_of : ParsedEntry Name → Entry Name
  entry_of p =
      let (fqdn, zone) = names_of p.names in
      record { class = p.class; fqdn = fqdn; zone_name = zone }

  -- What a call is given: the instance is exiting; the rounds of `sync_concurr_limit_wait`; the memory
  -- for a reconstructed entry; the entry that `ldap_entry_parse` returns; and what a synchronous sender
  -- sees, for the deletion of the old entry and for the new one.
  pub record Call : Type 0 where
    pub exiting : Bool
    pub rounds : List Round
    pub memory : IscResult × IscResult
    pub parsed : Run (Result (ParsedEntry Name))
    pub looks_old : List (ℕ × Bool)
    pub looks_new : List (ℕ × Bool)

  abbrev pub open_meta : Work → Run (IscResult × Work)
  open_meta w = do
    (r, mdb) ← metadb_newversion db w.mldap.mdb
    returns (r, record w { mldap = record w.mldap { mdb = mdb }; open_version = is_success r })

  abbrev pub close_meta : Bool → Work → Run Work
  close_meta commit w = do
    mdb ← metadb_closeversion db w.mldap.mdb commit
    returns (record w { mldap = record w.mldap { mdb = mdb }; open_version = false })

  abbrev pub take_slot : Call → Work → Run (IscResult × Work)
  take_slot call w = do
    r ← sync_concurr_limit_wait call.rounds
    returns (
      r,
      if is_success r
          then record w { outside = record w.outside { waits = w.outside.waits + 1 } }
          else w,
    )

  abbrev pub update_with : List (ℕ × Bool) → Entry Name → Phase → Work → Run (IscResult × Work)
  update_with looks e chgtype w = do
    (r, o) ← syncrepl_update sender w.outside e chgtype looks
    returns (r, record w { outside = o })

  abbrev pub delete_meta : Uuid → Work → Run (IscResult × Work)
  delete_meta uuid w = do
    (r, mldap) ← mldap_entry_delete db w.mldap uuid
    returns (r, record w { mldap = mldap })

  -- The old entry is deleted from its zone and from the metadata.
  abbrev pub remove_old : Call → Uuid → Entry Name → Work → Run (IscResult × Work)
  remove_old call uuid old w =
      check (update_with call.looks_old old phase_delete w) (λ w'. delete_meta uuid w')

  abbrev pub store_names : Entry Name → Mldap db → Name → db.Version → IscResult × Mldap db
  store_names e mldap node v =
      let (r, v') = mldap_dnsname_store db e.fqdn e.zone_name v node in
      if is_config e.class then (success, mldap) else (r, written_to db mldap v')

  abbrev pub named_node : Entry Name → Work → Result Name × Mldap db → Run (IscResult × Work)
  named_node e w (err r, mldap) = returns (r, record w { mldap = mldap })
  named_node e w (ok node, mldap) = do
    v ← write_version db mldap.mdb
    let (r, mldap') = store_names e mldap node v
    returns (r, record w { mldap = mldap' })

  abbrev pub create_meta : Uuid → Entry Name → Work → Run (IscResult × Work)
  create_meta uuid e w = do made ← mldap_entry_create db uuid e.class w.mldap; named_node e w made

  -- The new entry is stored and committed before its event is sent.
  abbrev pub store_new : Call → Uuid → Entry Name → Phase → Work → Run (IscResult × Work)
  store_new call uuid new chgtype w =
      check (create_meta uuid new w)
        (λ w'. close_meta true w' >>= λ w''. update_with call.looks_new new chgtype w'')

  abbrev pub renamed : Entry Name → Entry Name → Bool
  renamed old new =
      not (is_config old.class)
      && not (name_equal old.zone_name new.zone_name && name_equal old.fqdn new.fqdn)

  abbrev pub change_entry : Call → Uuid → Entry Name → Entry Name → Work → Run (IscResult × Work)
  change_entry call uuid old new w =
      if renamed old new
      then check (remove_old call uuid old w) (λ w'. store_new call uuid new phase_add w')
      else store_new call uuid new phase_modify w

  -- An entry that was not set although the result is ISC_R_SUCCESS would be a NULL pointer.
  abbrev pub unset : IscResult → Work → Run (IscResult × Work)
  unset r w = if is_success r then undefined else returns (r, w)

  abbrev pub with_entry :
      Run (Result (Entry Name))
      → Work
      → (Entry Name → Work → Run (IscResult × Work))
      → Run (IscResult × Work)
  with_entry m w k = do found ← m; elim found [ err r ↦ unset r w | ok e ↦ k e w ]

  abbrev pub parse_new : Call → Run (Result (Entry Name))
  parse_new call = do
    found ← call.parsed
    returns (elim found [ err r ↦ err r | ok p ↦ ok (entry_of p) ])

  abbrev pub in_phase : Call → Uuid → Phase → Work → Run (IscResult × Work)
  in_phase call uuid phase_add w =
      with_entry (parse_new call) w (λ new w'. store_new call uuid new phase_add w')
  in_phase call uuid phase_delete w =
      with_entry (ldap_entry_reconstruct call.memory w.mldap uuid) w
        (λ old w'. remove_old call uuid old w')
  in_phase call uuid phase_modify w =
      with_entry (ldap_entry_reconstruct call.memory w.mldap uuid) w
        (λ old w'. with_entry (parse_new call) w' (λ new w''. change_entry call uuid old new w''))
  in_phase call uuid (phase_other n) w = returns (notimplemented, w)

  abbrev pub signal : Work → Work
  signal w = record w { outside = record w.outside { signals = w.outside.signals + 1 } }

  abbrev pub cleanup : IscResult × Work → Run (IscResult × Work)
  cleanup (r, w) = do
    w' ← if w.open_version then close_meta (is_success r) w else returns w
    returns (r, if is_success r then w' else signal w')

  -- The result is that of the label `cleanup`; LDAP gets LDAP_SUCCESS whatever it is.
  unfoldable pub ldap_sync_search_entry :
      Call → Uuid → Phase → Outside Name → Mldap db → Run (IscResult × Work)
  unfolding ldap_entry_reconstruct
  ldap_sync_search_entry call uuid phase outside mldap =
      let w : Work = record { outside = outside; mldap = mldap; open_version = false } in
      if call.exiting then returns (success, w) else (do
        done ←
            check (open_meta w)
              (λ w1. check (take_slot call w1) (λ w2. in_phase call uuid phase w2))
        cleanup done)
