-- ===== src/SyncPtr/Tests.antt =====
-- The theorem about the handler at concrete events.
use bind_dyndb_ldap_pagure_i.Prelude.{ℕ, ◌≡◌, refl, ◌⊎◌, true, false, none, some, [], ◌∷◌}
use bind_dyndb_ldap_pagure_i.Isc.{returns}
use bind_dyndb_ldap_pagure_i.Zone.{
  op_add, op_del, zone_journal_adddiff, zone_soaserial_updatetuple, zone_soaserial_addtuple,
  rdataset_loop, rdataset_to_diff,
}
use bind_dyndb_ldap_pagure_i.SyncPtr.{
  mod_add, mod_delete, SyncPtrev, sync_ptr_validate, ZoneState, delete_old, add_ptr, publish,
  sync_ptr_handler,
}
use bind_dyndb_ldap_pagure_i.SyncPtr.Handler.{Synchronised, sync_ptr_handler_lem}
use bind_dyndb_ldap_pagure_i.SyncPtr.Functions.{Data, functions}

abbrev added : SyncPtrev ℕ
added = record { a_name = 7; ptr_name = 1; mod_op = mod_add; ttl = 60 }

abbrev deleted : SyncPtrev ℕ
deleted = record { a_name = 7; ptr_name = 1; mod_op = mod_delete; ttl = 60 }

abbrev zone : Data → ZoneState functions
zone v = record { current = v; journal = [] }

-- An addition to a zone without the record, the deletion of what was added, and the deletion of a
-- record with another name, which changes nothing.
added_to_none :
    sync_ptr_handler functions added (zone (4, none))
    ≡ returns (record {
      current = (5, some 7);
      journal = (op_add, false, 7) ∷ (op_del, true, 4) ∷ (op_add, true, 5) ∷ [];
    })
unfolding sync_ptr_handler sync_ptr_validate delete_old add_ptr publish zone_journal_adddiff
    zone_soaserial_updatetuple zone_soaserial_addtuple rdataset_to_diff rdataset_loop
added_to_none = refl

deleted_again :
    sync_ptr_handler functions deleted (zone (5, some 7))
    ≡ returns (record {
      current = (6, none);
      journal = (op_del, false, 7) ∷ (op_del, true, 5) ∷ (op_add, true, 6) ∷ [];
    })
unfolding sync_ptr_handler sync_ptr_validate delete_old add_ptr publish zone_journal_adddiff
    zone_soaserial_updatetuple zone_soaserial_addtuple rdataset_to_diff rdataset_loop
deleted_again = refl

deleted_other : sync_ptr_handler functions deleted (zone (5, some 8)) ≡ returns (zone (5, some 8))
unfolding sync_ptr_handler sync_ptr_validate
deleted_other = refl

sync_ptr_handler_lem_example :
    (after : ZoneState functions) × (sync_ptr_handler functions added (zone (4, none))
      ≡ returns after)
    × ((after.current ≡ (4, none)) ⊎ Synchronised functions added (4, none) after.current)
sync_ptr_handler_lem_example = sync_ptr_handler_lem functions added (zone (4, none))
