-- ===== src/Events/Tests.antt =====
-- The rename of a record: `ldap_sync_search_entry` at a concrete metadata database.
use bind_dyndb_ldap_pagure_i.Prelude.{
  ℕ, ◌≡◌, ◌==◌, refl, Bool, true, false, none, some, [], ◌∷◌, arith,
}
use bind_dyndb_ldap_pagure_i.Isc.{IscResult, success, ok, err, returns, unlocked}
use bind_dyndb_ldap_pagure_i.LdapEntry.Class.{EntryClass, no_class}
use bind_dyndb_ldap_pagure_i.LdapEntry.Parse.{ParsedEntry}
use bind_dyndb_ldap_pagure_i.Metadata.{
  rd_a, rd_aaaa, rd_rp, metadb_newversion, metadb_closeversion, metadb_readnode_open,
  metadb_writenode, metadb_rdata_store, metadb_rdataset_get, delete_types, metadb_node_delete,
}
use bind_dyndb_ldap_pagure_i.Metadata.Functions.{Data, add, functions, nothing}
use bind_dyndb_ldap_pagure_i.Metadata.Mldap.{
  class_bits, bits_class, bytes_class, word_bytes, Mldap, mldap_class_store, mldap_class_get,
  mldap_generation_store, mldap_dnsname_store, mldap_dnsname_get, store_entry, mldap_entry_create,
  mldap_entry_read, mldap_entry_delete,
}
use bind_dyndb_ldap_pagure_i.Semaphore.{timed_loop, semaphore_wait_timed, sync_concurr_limit_wait}
use bind_dyndb_ldap_pagure_i.Sync.{SyncCtx, sync_finished, next_seqid, sync_event_send}
use bind_dyndb_ldap_pagure_i.Events.{
  phase_add, phase_modify, phase_delete, act_record, SyncreplEvent, Outside, Sender, action_of,
  syncrepl_update,
}
use bind_dyndb_ldap_pagure_i.Events.Entries.{
  Work, Call, ldap_entry_reconstruct, ldap_sync_search_entry,
}
use bind_dyndb_ldap_pagure_i.Events.Version.{IsClosed}
use bind_dyndb_ldap_pagure_i.Events.Closed.{ldap_sync_search_entry-IsClosed}
use bind_dyndb_ldap_pagure_i.Events.Calls.{Accounts, Sent, ldap_sync_search_entry-Accounts}

ok_ne_err : {A : Type 0} {a : A} {r : IscResult} → ok a ≡ err r → ⊥
ok_ne_err h = ground (arith, h)

abbrev sender : Sender ℕ
sender = record {
  inst_task = 0;
  event_memory = true;
  zone_task = λ n. ok n;
  zone_task_failed = λ n r h. absurd (ok_ne_err h);
}

abbrev same : ℕ → ℕ → Bool
same a b = a == b

abbrev rr_class : EntryClass
rr_class = record no_class { rr = true }

-- The entry 5 has the name 9 in the zone 2.
abbrev old_data : Data
old_data = add (add nothing 6 rd_aaaa (1 ∷ 0 ∷ [])) 6 rd_rp (9 ∷ 2 ∷ [])

abbrev before : Mldap functions
before = record {
  mdb = record { newversion_lock = unlocked; current = old_data; newversion = none };
  generation = 258;
}

-- Now its name is 8.
abbrev parsed : ParsedEntry ℕ
parsed = record {
  attrs = record { attrs = [] };
  dn = "idnsName=eight,idnsName=two";
  class = rr_class;
  names = some (8, some 2);
}

abbrev call : Call functions sender same 0
call = record {
  exiting = false;
  rounds =
      record { exiting = false; deadline = success; time = success; value = 5; waits = [] } ∷ [];
  memory = (success, success);
  parsed = returns (ok parsed);
  looks_old = [];
  looks_new = [];
}

abbrev context : ℕ → SyncCtx
context n = record { state = sync_finished; tasks = []; task_cnt = 0; next_id = n; last_id = 0 }

abbrev outside : Outside ℕ
outside = record { ctx = context 0; events = []; waits = 0; signals = 0 }

abbrev deletion : SyncreplEvent ℕ
deletion = record {
  action = act_record;
  task = 2;
  seqid = 1;
  chgtype = phase_delete;
  entry = record { class = rr_class; fqdn = 9; zone_name = 2 };
}

abbrev addition : SyncreplEvent ℕ
addition = record {
  action = act_record;
  task = 2;
  seqid = 2;
  chgtype = phase_add;
  entry = record { class = rr_class; fqdn = 8; zone_name = 2 };
}

abbrev new_data : Data
new_data =
    add
      (add
        (add old_data 6 rd_aaaa
          (1 ∷ 0 ∷ 0 ∷ 0 ∷ 0 ∷ 0 ∷ 0 ∷ 0 ∷ 0 ∷ 0 ∷ 0 ∷ 0 ∷ 0 ∷ 0 ∷ 0 ∷ 0 ∷ []))
        6 rd_a (2 ∷ 1 ∷ 0 ∷ 0 ∷ []))
      6 rd_rp (8 ∷ 2 ∷ [])

abbrev work : Work functions sender same 0
work = record {
  outside = record { ctx = context 2; events = deletion ∷ addition ∷ []; waits = 1; signals = 0 };
  mldap = record {
    mdb = record { newversion_lock = unlocked; current = new_data; newversion = none };
    generation = 258;
  };
  open_version = false;
}

rename :
    ldap_sync_search_entry functions sender same 0 call 5 phase_modify outside before
    ≡ returns (success, work)
unfolding ldap_sync_search_entry ldap_entry_reconstruct syncrepl_update action_of sync_event_send
    next_seqid metadb_newversion metadb_closeversion metadb_readnode_open metadb_writenode
    metadb_rdata_store metadb_rdataset_get delete_types metadb_node_delete class_bits bits_class
    bytes_class word_bytes mldap_class_store mldap_class_get mldap_generation_store
    mldap_dnsname_store mldap_dnsname_get store_entry mldap_entry_create mldap_entry_read
    mldap_entry_delete timed_loop semaphore_wait_timed sync_concurr_limit_wait
rename = refl

ldap_sync_search_entry-IsClosed_example : IsClosed functions work.mldap
ldap_sync_search_entry-IsClosed_example =
    ldap_sync_search_entry-IsClosed functions sender same 0 call 5 phase_modify outside before
      success work (λ v e h. absurd (ok_ne_err h)) (refl, refl) rename

ldap_sync_search_entry-Accounts_example :
    Accounts functions sender same 0
      (Sent functions sender same 0 call 5 before.mdb.current phase_modify)
      outside
      (success, work)
ldap_sync_search_entry-Accounts_example =
    ldap_sync_search_entry-Accounts functions sender same 0 call 5 phase_modify outside before
      success work refl rename
