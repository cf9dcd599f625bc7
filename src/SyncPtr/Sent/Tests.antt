-- ===== src/SyncPtr/Sent/Tests.antt =====
-- `sync_ptr_init` at a concrete register, with a zone that allows dynamic updates.
use bind_dyndb_ldap_pagure_i.Prelude.{
  ℕ, String, ◌≡◌, refl, Bool, true, Option, none, some, List, [], ◌∷◌,
}
use bind_dyndb_ldap_pagure_i.Isc.{success, partialmatch, Result, ok, returns, unlocked}
use bind_dyndb_ldap_pagure_i.Settings.{
  find_in, SettingsSet, default_boolean, setting_find, setting_get, setting_get_bool,
}
use bind_dyndb_ldap_pagure_i.Registers.Trees.{lists, find}
use bind_dyndb_ldap_pagure_i.Registers.Zones.{ZoneInfo, getzinfo, zr_get_zone_settings}
use bind_dyndb_ldap_pagure_i.SyncPtr.{mod_add, SyncPtrev}
use bind_dyndb_ldap_pagure_i.SyncPtr.Init.{Reverse, af_inet, sync_ptr_find, sync_ptr_init, Register}
use bind_dyndb_ldap_pagure_i.SyncPtr.Sent.{Managed, sync_ptr_init-Managed}

-- Addresses and names are numbers; zone 2 covers the name 9 of the one address.
abbrev reverse : Reverse ℕ ℕ
reverse = record {
  Address = ℕ;
  inet_pton = λ af ip_str. some 5;
  createptrname = λ ip. ok 9;
  zt_find = λ n. (partialmatch, some 2);
  event_allocate = true;
  name_copy = success;
  text_length = λ n. 12;
  format_size = 1024;
}

abbrev Info : Type 0
Info = ZoneInfo ℕ (List SettingsSet) ℕ

abbrev settings : List SettingsSet
settings =
    record {
      name = "zone";
      lock = unlocked;
      first_setting = default_boolean "dyn_update" true ∷ [];
    }
    ∷ []

abbrev info : ℕ → Info
info raw = record { raw = raw; secure = none; dn = "idnsname=two"; settings = settings; ldapdb = 0 }

abbrev absolute : ℕ → Bool
absolute n = true

abbrev origin : ℕ → ℕ
origin z = z

abbrev create : ℕ → Option ℕ → String → Option ℕ → Result Info
create raw secure dn ldapdb = ok (info raw)

abbrev rbtdb : ℕ → ℕ
rbtdb d = d

abbrev register : Register reverse lists absolute origin create rbtdb
register = record { rwlock = unlocked; rbt = (2, info 2) ∷ [] }

abbrev event : SyncPtrev ℕ
event = record { a_name = 7; ptr_name = 9; mod_op = mod_add; ttl = 60 }

event_sent :
    sync_ptr_init reverse lists absolute origin create rbtdb register 7 af_inet "192.0.2.1" 60
      mod_add
    ≡ returns (ok (event, 2), register)
unfolding sync_ptr_init sync_ptr_find zr_get_zone_settings getzinfo find setting_get_bool
    setting_get setting_find find_in
event_sent = refl

sync_ptr_init-Managed_example :
    (event.a_name ≡ 7)
    × (event.mod_op ≡ mod_add)
    × (event.ttl ≡ 60)
    × (found : List SettingsSet) × Managed reverse lists absolute origin create rbtdb register
        af_inet "192.0.2.1" 9 found 2 register
    × (setting_get_bool "dyn_update" found ≡ ok true)
sync_ptr_init-Managed_example =
    sync_ptr_init-Managed reverse lists absolute origin create rbtdb register register 7 af_inet
      "192.0.2.1" 60 mod_add event 2 event_sent
