-- ===== src/Registers/Tests.antt =====
-- The theorems about the registers at concrete arguments.
use bind_dyndb_ldap_pagure_i.Prelude.{
  ℕ, ◌≡◌, refl, ◌⊎◌, String, Bool, true, Option, none, List, [], ◌∷◌, ◌+◌,
}
use bind_dyndb_ldap_pagure_i.Isc.{
  IscResult, success, nomemory, exists, Result, ok, err, Run, returns, unlocked,
}
use bind_dyndb_ldap_pagure_i.Registers.Forwards.{FwdRegister}
use bind_dyndb_ldap_pagure_i.Registers.Zones.{ZoneInfo, ZoneRegister, zr_add_zone, zr_del_zone}
use bind_dyndb_ldap_pagure_i.Registers.Zones.Laws.{
  Registered, Unregistered, zr_add_zone_lem, zr_del_zone_lem,
}
use bind_dyndb_ldap_pagure_i.Registers.Trees.{lists}

abbrev absolute : ℕ → Bool
absolute n = true

abbrev names : List (ℕ × Unit {0})
names = (1, tt) ∷ (2, tt) ∷ []

abbrev register : List (ℕ × Unit {0}) → FwdRegister lists absolute
register t = record { rwlock = unlocked; rbt = t }

-- A zone is its origin, and its settings and database are numbers.
abbrev Info : Type 0
Info = ZoneInfo ℕ ℕ ℕ

abbrev origin : ℕ → ℕ
origin z = z

abbrev create : ℕ → Option ℕ → String → Option ℕ → Result Info
create raw secure dn ldapdb =
    ok (record { raw = raw; secure = secure; dn = dn; settings = 0; ldapdb = 0 })

abbrev rbtdb : ℕ → ℕ
rbtdb d = d + 1

abbrev zones : List (ℕ × Info)
zones =
    (1, record { raw = 1; secure = none; dn = "idnsname=one,dc=test"; settings = 0; ldapdb = 0 })
    ∷ []

abbrev zone_register : List (ℕ × Info) → ZoneRegister lists absolute origin create rbtdb
zone_register t = record { rwlock = unlocked; rbt = t }

abbrev add_two : Run (IscResult × ZoneRegister lists absolute origin create rbtdb)
add_two = zr_add_zone lists absolute origin create rbtdb (zone_register zones) none 2 none "dc=two"

zr_add_zone_lem_example :
    ((z : Info) × Registered lists absolute origin create rbtdb zones 2 z
      × (add_two ≡ returns (exists, zone_register zones)))
    ⊎ (Unregistered lists absolute origin create rbtdb zones 2
        × (((r : IscResult) × (create 2 none "dc=two" none ≡ err r)
              × (add_two ≡ returns (r, zone_register zones)))
            ⊎ (add_two ≡ returns (nomemory, zone_register zones))
            ⊎ ((z : Info) × (t' : List (ℕ × Info)) × (create 2 none "dc=two" none ≡ ok z)
                × (add_two ≡ returns (success, zone_register t'))
                × Registered lists absolute origin create rbtdb t' 2 z)))
zr_add_zone_lem_example =
    zr_add_zone_lem lists absolute origin create rbtdb zones none 2 none "dc=two" refl

zr_del_zone_lem_example :
    (t' : List (ℕ × Info)) × (zr_del_zone lists absolute origin create rbtdb (zone_register zones) 1
      ≡ returns (success, zone_register t'))
    × Unregistered lists absolute origin create rbtdb t' 1
zr_del_zone_lem_example = zr_del_zone_lem lists absolute origin create rbtdb zones 1 refl
