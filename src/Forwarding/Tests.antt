-- ===== src/Forwarding/Tests.antt =====
-- Runs of src/fwd.c, and the theorems about it at concrete arguments.
use bind_dyndb_ldap_pagure_i.Prelude.{
  ℕ, ◌≡◌, refl, String, true, Option, none, some, List, [], ◌∷◌, arith, ◌=ₛ◌, if◌then◌else◌,
}
use bind_dyndb_ldap_pagure_i.Isc.{
  success, ignore, notfound, Result, ok, err, returns, Isc, number, unlocked,
}
use bind_dyndb_ldap_pagure_i.Text.{◌=ᵢ◌, lower, to_lower, bytes_eq}
use bind_dyndb_ldap_pagure_i.LdapEntry.{LdapEntry, ldap_entry_getvalues, find_attribute}
use bind_dyndb_ldap_pagure_i.Settings.{
  SettingsSet, default_string, no_default_string, find_in, setting_find, setting_get,
  setting_get_str, set_value, setting_set, setting_unset, convert, store, clear, type,
}
use bind_dyndb_ldap_pagure_i.Settings.Sources.{get_enum_value, setting_update_from_ldap_entry}
use bind_dyndb_ldap_pagure_i.Registers.Trees.{
  find, remove, remove_from, find-remove, find-remove_from_ne, find-here, find-add_ne,
}
use bind_dyndb_ldap_pagure_i.EmptyZones.{
  Zones, reln_none, empty_zone_handle_conflicts, handle_loop, empty_zone_search_init,
  empty_zone_search_next, search_from,
}
use bind_dyndb_ldap_pagure_i.Forwarding.{
  fwd_setting_isexplicit, fwd_setting_find_explicit, configured_set, read_config, FwdTable, View,
  fwd_delete_table, update_table, fwd_configure_zone,
}
use bind_dyndb_ldap_pagure_i.Forwarding.Choice.{wanted}
use bind_dyndb_ldap_pagure_i.Forwarding.Table.{Forwards, fwd_configure_zone_lem}
use bind_dyndb_ldap_pagure_i.Forwarding.Ldap.{
  buffer_append_str, append_values, fwd_print_bracketed_values_buf, update_forwarders,
  fwd_parse_ldap,
}
use bind_dyndb_ldap_pagure_i.Forwarding.Policy.{Filled, fwd_parse_ldap-Filled}

abbrev Config : Type 0
Config = List String × ℕ

delete_gone_lem :
    (t : List (ℕ × Config)) (n : ℕ) (o : Option Config)
    → find t n ≡ o
    → find (remove_from t n o).1 n ≡ none
delete_gone_lem t n none e = e
delete_gone_lem t n (some c) e = find-remove t n

-- A forwarding table that is an association list.
abbrev table : FwdTable ℕ String
table = record {
  Table = List (ℕ × Config);
  entry = find;
  delete = λ t n. remove_from t n (find t n);
  addfwd = λ t n l p. (success, (n, (l, p)) ∷ t);
  delete_gone = λ t n h. delete_gone_lem t n (find t n) refl;
  delete_others = λ t n m h. find-remove_from_ne t n m (find t n) h;
  addfwd_there = λ t n l p h. find-here t n (l, p);
  addfwd_others = λ t n m l p h. find-add_ne t n m (l, p) none h;
}

-- No empty zone is related to any name.
abbrev zones : Zones ℕ ℕ ℕ
zones = record {
  fromtext = λ s. ok 0;
  fullcompare = λ a b. reln_none;
  isabsolute = λ n. true;
  zt_find = λ t n. err notfound;
  getdbtype = λ z. ok [];
  zt_unmount = λ t z. (success, t);
  fromtext_fails = λ s r h. cc;
  zt_find_fails = λ t n r h. ground (arith, h);
}

-- One forwarder, or none.
abbrev parse : String → Result (List String)
parse s = if s =ₛ "{ }" then ok [] else ok (s ∷ [])

abbrev root_set : SettingsSet
root_set = record {
  name = "root";
  lock = unlocked;
  first_setting = no_default_string "forward_policy" ∷ no_default_string "forwarders" ∷ [];
}

abbrev server_set : SettingsSet
server_set = record {
  name = "server";
  lock = unlocked;
  first_setting =
      default_string "forward_policy" "only" ∷ default_string "forwarders" "{ 192.0.2.1; }" ∷ [];
}

abbrev view : View parse table zones
view = record { fwdtable = (7, (("x" ∷ []), 1)) ∷ []; zonetable = 0 }

abbrev view_after : View parse table zones
view_after = record {
  fwdtable = (0, (("{ 192.0.2.1; }" ∷ []), 2)) ∷ (7, (("x" ∷ []), 1)) ∷ [];
  zonetable = 0;
}

configure_run :
    fwd_configure_zone parse table zones root_set (server_set ∷ []) view true 0
    ≡ returns (success, view_after)
unfolding fwd_configure_zone update_table fwd_delete_table configured_set fwd_setting_isexplicit
    fwd_setting_find_explicit read_config setting_find find_in setting_get_str setting_get type
    get_enum_value ◌=ᵢ◌ lower to_lower bytes_eq find remove empty_zone_handle_conflicts handle_loop
    empty_zone_search_init empty_zone_search_next search_from
configure_run = refl

fwd_configure_zone_lem_example :
    Forwards parse table zones view view_after 0 7
      (λ e. cc)
      (wanted parse true root_set (server_set ∷ []))
fwd_configure_zone_lem_example =
    fwd_configure_zone_lem parse table zones view view_after 0 7 (λ e. cc) root_set
      (server_set ∷ []) true configure_run

abbrev isc : Isc
isc = record { parse_uint32 = λ s. number 0; alloc = λ n. true; buffer_allocate = success }

abbrev entry : LdapEntry
entry = record { attrs = [] }

-- The default policy is stored, and the result says that nothing was changed.
abbrev root_first : SettingsSet
root_first = record root_set {
  first_setting =
      record (default_string "forward_policy" "first") { is_dynamic = true }
      ∷ no_default_string "forwarders"
      ∷ [];
}

parse_run :
    fwd_parse_ldap isc (λ n. true) success parse entry root_set ≡ returns (ignore, root_first)
unfolding fwd_parse_ldap update_forwarders setting_update_from_ldap_entry ldap_entry_getvalues
    find_attribute setting_find find_in setting_set setting_unset set_value convert store clear type
parse_run = refl

fwd_parse_ldap-Filled_example : Filled "forward_policy" root_first
fwd_parse_ldap-Filled_example =
    fwd_parse_ldap-Filled isc (λ n. true) success parse entry root_set root_first ignore refl
      parse_run

print_run :
    fwd_print_bracketed_values_buf (λ n. true) success ("192.0.2.1" ∷ "192.0.2.2" ∷ [])
    ≡ returns (ok "{ 192.0.2.1; 192.0.2.2; }")
unfolding fwd_print_bracketed_values_buf append_values buffer_append_str
print_run = refl
