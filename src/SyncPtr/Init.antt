-- ===== src/SyncPtr/Init.antt =====
-- `sync_ptr_find` and `sync_ptr_init` in src/syncptr.c: the choice of the reverse zone, and the event
-- for it. The register of zones has lists of settings sets, a set with its parents behind it.
use bind_dyndb_ldap_pagure_i.Prelude.{
  ℕ, String, ◌+◌, Bool, true, false, ◌||◌, not, Option, none, some, List, ltb, if◌then◌else◌,
}
use bind_dyndb_ldap_pagure_i.Isc.{
  IscResult, nomemory, unexpected, partialmatch, notimplemented, notauthoritative, noperm,
  is_success, Result, ok, err, Run, returns, ◌>>=◌, ◌>>◌, require,
}
use bind_dyndb_ldap_pagure_i.Settings.{SettingsSet, setting_get_bool}
use bind_dyndb_ldap_pagure_i.Registers.Rbt.{Rbt}
use bind_dyndb_ldap_pagure_i.Registers.Zones.{ZoneInfo, ZoneRegister, zr_get_zone_settings}
use bind_dyndb_ldap_pagure_i.SyncPtr.{ModOp, SyncPtrev}

pub data Family : Type 0 where
  af_inet af_inet6 : Family
  af_other : ℕ → Family

-- What the system and the DNS library do: `inet_pton`, `dns_byaddr_createptrname2` and
-- `dns_zt_find`; whether memory for the event is there, `dns_name_copy` to it, and the length of
-- the text that `dns_name_format` writes to a buffer of `format_size` bytes.
pub record Reverse (Name Zone : Type 0) : Type 1 where
  pub Address : Type 0
  pub inet_pton : Family → String → Option Address
  pub createptrname : Address → Result Name
  pub zt_find : Name → IscResult × Option Zone
  pub event_allocate : Bool
  pub name_copy : IscResult
  pub text_length : Name → ℕ
  pub format_size : ℕ

abbrev pub is_supported : Family → Bool
is_supported af_inet = true
is_supported af_inet6 = true
is_supported (af_other n) = false

abbrev pub is_partialmatch : IscResult → Bool
is_partialmatch partialmatch = true
is_partialmatch _ = false

module _ {Name Zone Db Rbtdb : Type 0} (rev : Reverse Name Zone)
    (lib : Rbt Name (ZoneInfo Zone (List SettingsSet) Db)) (isabsolute : Name → Bool)
    (getorigin : Zone → Name)
    (create : Zone
      → Option Zone
      → String
      → Option Db
      → Result (ZoneInfo Zone (List SettingsSet) Db))
    (get_rbtdb : Db → Rbtdb) where
  abbrev pub Register : Type 0
  Register = ZoneRegister lib isabsolute getorigin create get_rbtdb

  -- The name of the PTR record, the settings of the zone, and the zone.
  abbrev pub Target : Type 0
  Target = Name × List SettingsSet × Zone

  abbrev pub managed :
      Name → Zone → IscResult × Option (List SettingsSet) × Register → Result Target × Register
  managed ptr_name zone (r, none, zr) = (err notauthoritative, zr)
  managed ptr_name zone (r, some zsettings, zr) =
      (if is_success r then ok (ptr_name, zsettings, zone) else err notauthoritative, zr)

  abbrev pub active : Name → Register → IscResult × Option Zone → Run (Result Target × Register)
  active ptr_name zr (result, none) = returns (err result, zr)
  active ptr_name zr (result, some zone) =
      if is_success result || is_partialmatch result
      then (do
        found ← zr_get_zone_settings lib isabsolute getorigin create get_rbtdb zr (getorigin zone)
        returns (managed ptr_name zone found))
      else returns (err result, zr)

  abbrev pub of_name : Register → Result Name → Run (Result Target × Register)
  of_name zr (err r) = returns (err r, zr)
  of_name zr (ok ptr_name) = active ptr_name zr (rev.zt_find ptr_name)

  unfoldable pub sync_ptr_find : Register → Family → String → Run (Result Target × Register)
  sync_ptr_find zr af ip_str = elim (rev.inet_pton af ip_str) [
    | none ↦ returns (err unexpected, zr)
    | some ip ↦
        if is_supported af
        then of_name zr (rev.createptrname ip)
        else returns (err notimplemented, zr)
  ]

  abbrev pub check_update : Name → ModOp → ℕ → Result Target → Result (SyncPtrev Name × Zone)
  check_update a_name mod_op ttl (err r) = err r
  check_update a_name mod_op ttl (ok (ptr_name, zone_settings, ptr_zone)) =
      elim (setting_get_bool "dyn_update" zone_settings) [
        | err r ↦ err r
        | ok zone_dyn_update ↦
            if zone_dyn_update
            then ok (
              record { a_name = a_name; ptr_name = ptr_name; mod_op = mod_op; ttl = ttl },
              ptr_zone,
            )
            else err noperm
      ]

  -- The event that is sent to the task of the zone. The REQUIRE is that of `append_trailing_dot`.
  unfoldable pub sync_ptr_init :
      Register
      → Name
      → Family
      → String
      → ℕ
      → ModOp
      → Run (Result (SyncPtrev Name × Zone) × Register)
  unfolding sync_ptr_find
  sync_ptr_init zr a_name af ip_str ttl mod_op =
      if not rev.event_allocate
      then returns (err nomemory, zr)
      else if not (is_success rev.name_copy)
      then returns (err rev.name_copy, zr)
      else do
        require (ltb (rev.text_length a_name + 1) rev.format_size)
        (target, zr') ← sync_ptr_find zr af ip_str
        returns (check_update a_name mod_op ttl target, zr')
