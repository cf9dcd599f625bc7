-- ===== src/Forwarding/Ldap.antt =====
-- src/fwd.c: forwarding as an LDAP entry says, and its way into the settings.
use Prim.Native.String.{len, ◌++◌}
use bind_dyndb_ldap_pagure_i.Prelude.{
  ℕ, ◌+◌, String, Bool, true, false, Option, none, some, List, [], ◌∷◌, if◌then◌else◌,
}
use bind_dyndb_ldap_pagure_i.Isc.{
  IscResult, success, ignore, unexpectedtoken, notfound, is_success, is_ignore, Result, ok, err,
  Run, returns, aborts, ◌>>=◌, ◌>>◌, require, Isc,
}
use bind_dyndb_ldap_pagure_i.LdapEntry.{LdapEntry, ldap_entry_getvalues}
use bind_dyndb_ldap_pagure_i.Settings.{
  Setting, SettingsSet, setting_find, setting_set, setting_unset, setting_get_bool,
}
use bind_dyndb_ldap_pagure_i.Settings.Sources.{setting_update_from_ldap_entry, get_enum_value}
use bind_dyndb_ldap_pagure_i.Forwarding.{
  forwarder_policy_txts, has_any, View, FwdTable, fwd_configure_zone,
}
use bind_dyndb_ldap_pagure_i.EmptyZones.{Zones}

-- The text in the buffer without its NUL, and the size of the buffer.
pub record TextBuffer : Type 0 where
  pub text : String
  pub size : ℕ

-- A new buffer is allocated within RUNTIME_CHECK; `textlen` is what the caller says.
unfoldable pub buffer_append_str : (ℕ → Bool) → TextBuffer → String → ℕ → Run TextBuffer
buffer_append_str alloc old text textlen = do
  require (alloc (old.size + textlen + 1))
  returns (record { text = old.text ++ text; size = old.size + textlen + 1 })

unfoldable pub append_values : (ℕ → Bool) → TextBuffer → List String → Run TextBuffer
unfolding buffer_append_str
append_values alloc old [] = returns old
append_values alloc old (v ∷ values) = do
  with_value ← buffer_append_str alloc old v (len v)
  with_end ← buffer_append_str alloc with_value "; " 2
  append_values alloc with_end values

-- `allocated` is the result of `isc_buffer_allocate` for the output.
unfoldable pub fwd_print_bracketed_values_buf :
    (ℕ → Bool) → IscResult → List String → Run (Result String)
unfolding append_values
fwd_print_bracketed_values_buf alloc allocated values = do
  opened ← buffer_append_str alloc (record { text = ""; size = 0 }) "{ " 2
  listed ← append_values alloc opened values
  closed ← buffer_append_str alloc listed "}" 2
  returns (if is_success allocated then ok closed.text else err allocated)

abbrev pub fine : IscResult → Bool
fine success = true
fine ignore = true
fine _ = false

-- A first value that is no policy.
abbrev pub bad_policy : Result (List String) → Bool
bad_policy (ok (v ∷ values)) = elim (get_enum_value forwarder_policy_txts v) [
  | ok p ↦ false
  | err r ↦ true
]
bad_policy _ = false

module _ {Forwarder : Type 0} (isc : Isc) (alloc : ℕ → Bool) (allocated : IscResult)
    (parse : String → Result (List Forwarder)) where
  -- The result that is returned if all went well.
  abbrev pub or_first : IscResult → IscResult × SettingsSet → IscResult × SettingsSet
  or_first first (r, set) = (if is_ignore r then first else r, set)

  abbrev pub store_forwarders :
      IscResult → SettingsSet → String → Result (List Forwarder) → Run (IscResult × SettingsSet)
  store_forwarders first set text (err r) = returns (r, set)
  store_forwarders first set text (ok fwdrs) =
      (if has_any parse fwdrs
        then setting_set isc "forwarders" set text
        else setting_unset "forwarders" set)
      >>= λ stored. returns (or_first first stored)

  abbrev pub print_forwarders :
      IscResult → SettingsSet → Result String → Run (IscResult × SettingsSet)
  print_forwarders first set (err r) = returns (r, set)
  print_forwarders first set (ok text) = store_forwarders first set text (parse text)

  unfoldable pub update_forwarders :
      IscResult → SettingsSet → Result (List String) → Run (IscResult × SettingsSet)
  update_forwarders first set (ok (v ∷ values)) = do
    printed ← fwd_print_bracketed_values_buf alloc allocated (v ∷ values)
    print_forwarders first set printed
  update_forwarders first set _ =
      setting_unset "forwarders" set >>= λ stored. returns (or_first first stored)

  abbrev pub if_success :
      (SettingsSet → Run (IscResult × SettingsSet))
      → IscResult × SettingsSet
      → Run (IscResult × SettingsSet)
  if_success next (r, set) = if is_success r then next set else returns (r, set)

  -- The default policy, unless the set has one.
  abbrev pub with_default :
      Option (ℕ × Setting)
      → SettingsSet
      → (SettingsSet → Run (IscResult × SettingsSet))
      → Run (IscResult × SettingsSet)
  with_default (some found) set next = next set
  with_default none set next = setting_set isc "forward_policy" set "first" >>= if_success next

  abbrev pub after_policy : LdapEntry → IscResult × SettingsSet → Run (IscResult × SettingsSet)
  after_policy entry (first, set) =
      if fine first
      then with_default (setting_find "forward_policy" (set ∷ []) false true) set
          (λ set'. update_forwarders first set' (ldap_entry_getvalues entry "idnsForwarders"))
      else returns (first, set)

  unfoldable pub fwd_parse_ldap : LdapEntry → SettingsSet → Run (IscResult × SettingsSet)
  unfolding update_forwarders
  fwd_parse_ldap entry set =
      if bad_policy (ldap_entry_getvalues entry "idnsForwardPolicy")
      then returns (unexpectedtoken, set)
      else setting_update_from_ldap_entry isc "forward_policy" set "idnsForwardPolicy" entry
        >>= after_policy entry

module _ {Name Forwarder Zone ZoneTable : Type 0} (parse : String → Result (List Forwarder))
    (fwd : FwdTable Name Forwarder) (lib : Zones Name Zone ZoneTable) where
  abbrev pub active_root :
      Result Bool → List SettingsSet → List SettingsSet → Result (List SettingsSet)
  active_root (err r) root server = err r
  active_root (ok active) root server = ok (if active then root else server)

  -- The sets of the root zone, if the register has it, or those of the server.
  abbrev pub toplevel : Result (List SettingsSet) → List SettingsSet → Result (List SettingsSet)
  toplevel (ok root) server = active_root (setting_get_bool "active" root) root server
  toplevel (err notfound) server = ok server
  toplevel (err r) server = err r

  -- `root_zone` is what `zr_get_zone_settings` finds for the root, with its parents; a chain of sets
  -- is not empty.
  unfoldable pub fwd_reconfig_global :
      Result (List SettingsSet)
      → List SettingsSet
      → View parse fwd lib
      → Name
      → Run (IscResult × View parse fwd lib)
  fwd_reconfig_global root_zone server view root = elim (toplevel root_zone server) [
    | err r ↦ returns (r, view)
    | ok [] ↦ aborts
    | ok (set ∷ parents) ↦ fwd_configure_zone parse fwd lib set parents view true root
  ]
