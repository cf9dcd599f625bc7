-- ===== src/Events/Update/Tests.antt =====
-- The theorem about `update_record` at a concrete entry: the zone has to be loaded, and then the
-- record 9 is replaced by the record 7.
use bind_dyndb_ldap_pagure_i.Prelude.{ℕ, ◌≡◌, refl, true, false, none, some, List, [], ◌∷◌}
use bind_dyndb_ldap_pagure_i.Isc.{IscResult, success, nomore, notloaded, uptodate, ok, returns}
use bind_dyndb_ldap_pagure_i.Sync.{sync_finished}
use bind_dyndb_ldap_pagure_i.Zone.{
  Rdataset, op_add, op_del, zone_journal_adddiff, zone_soaserial_updatetuple,
  zone_soaserial_addtuple, rdataset_loop, rdataset_to_diff, rdatalist_loop, rdatalist_to_diff,
}
use bind_dyndb_ldap_pagure_i.Records.{delete_loop, add_loop, diff_ldap_rbtdb}
use bind_dyndb_ldap_pagure_i.SyncPtr.Functions.{Data, functions, ok_ne_err}
use bind_dyndb_ldap_pagure_i.Events.{phase_modify}
use bind_dyndb_ldap_pagure_i.Events.Update.{
  Stored, Pass, Handling, finished, update_pass, update_record,
}
use bind_dyndb_ldap_pagure_i.Events.Update.Handled.{Handled, update_record_lem}

abbrev sets : Data → List (Rdataset ℕ)
sets (serial, none) = []
sets (serial, some p) = record { ttl = 60; rdatas = p ∷ [] } ∷ []

abbrev pass : IscResult → Pass functions
pass dbs = record {
  dbs = dbs;
  node = success;
  allrdatasets = λ v. ok (record { sets = sets v; ends = nomore });
  settings = success;
  parsed = ok (record { ttl = 60; rdatas = 7 ∷ [] } ∷ []);
  ctx = record { state = sync_finished; tasks = []; task_cnt = 0; next_id = 0; last_id = 0 };
  loaded = success;
  allrdatasets_failed = λ v r h. absurd (ok_ne_err h);
  parsed_failed = λ r h. absurd (ok_ne_err h);
}

abbrev handling : Handling functions
handling = record {
  zone_ptr = success;
  first = pass notloaded;
  load_zone = λ z. (uptodate, z);
  serial = success;
  second = pass success;
}

abbrev before : Stored functions
before = record { current = (4, some 9); journal = []; dirty = false; serials = 0 }

replaced :
    update_record functions phase_modify 3 handling 0 before
    ≡ returns (
      success,
      record {
        current = (5, some 7);
        journal =
            (op_del, false, 9) ∷ (op_add, false, 7) ∷ (op_del, true, 4) ∷ (op_add, true, 5) ∷ [];
        dirty = true;
        serials = 1;
      },
      1,
    )
unfolding update_record update_pass finished diff_ldap_rbtdb delete_loop add_loop
    zone_journal_adddiff zone_soaserial_updatetuple zone_soaserial_addtuple rdataset_to_diff
    rdataset_loop rdatalist_to_diff rdatalist_loop
replaced = refl

update_record_lem_example :
    (r : IscResult) × (z' : Stored functions) × (update_record functions phase_modify 3 handling 0
        before
      ≡ returns (r, z', 1))
    × Handled functions phase_modify 3 handling before (r, z')
update_record_lem_example =
    update_record_lem functions phase_modify 3 handling 0 before (λ v e h. absurd (ok_ne_err h))
