-- ===== src/EmptyZones/Tests.antt =====
-- Names that are strings and a zone table that is a list of empty zones, and the theorems about
-- src/empty_zones.c at concrete arguments.
use bind_dyndb_ldap_pagure_i.Prelude.{
  ◌≡◌, refl, String, true, false, List, [], ◌∷◌, arith, ◌=ₛ◌, if◌then◌else◌,
}
use bind_dyndb_ldap_pagure_i.Isc.{
  IscResult, success, notfound, is_success, Result, ok, err, returns,
}
use bind_dyndb_ldap_pagure_i.EmptyZones.{
  reln_equal, reln_none, Zones, zone_isempty, delete_bind_zone, search_from, empty_zone_search_next,
  empty_zone_search_init, empty_zone_unload, handle_loop, empty_zone_handle_conflicts,
}
use bind_dyndb_ldap_pagure_i.EmptyZones.Ends.{empty_zone_handle_conflicts_ends}

abbrev find : List String → String → Result String
find [] n = err notfound
find (z ∷ rest) n = let later = find rest n in if z =ₛ n then ok z else later

abbrev remove : List String → String → List String
remove [] n = []
remove (z ∷ rest) n = let later = remove rest n in if z =ₛ n then later else z ∷ later

find_fails :
    (t : List String) (n : String) (r : IscResult) → find t n ≡ err r → is_success r ≡ false
find_fails [] n r h = ground (arith, h)
find_fails (z ∷ rest) n r h = ground (arith, h, find_fails rest n r)

never_fails : (s : String) (r : IscResult) → ok s ≡ err r → is_success r ≡ false
never_fails s r h = cc

abbrev zones : Zones String String (List String)
zones = record {
  fromtext = λ s. ok s;
  fullcompare = λ a b. if a =ₛ b then reln_equal else reln_none;
  isabsolute = λ n. true;
  zt_find = find;
  getdbtype = λ z. ok ("_builtin" ∷ "empty" ∷ []);
  zt_unmount = λ t z. (success, remove t z);
  fromtext_fails = never_fails;
  zt_find_fails = find_fails;
}

abbrev table : List String
table = "10.IN-ADDR.ARPA" ∷ "127.IN-ADDR.ARPA" ∷ []

shuts_down :
    empty_zone_handle_conflicts zones "127.IN-ADDR.ARPA" table false
    ≡ returns (success, "10.IN-ADDR.ARPA" ∷ [])
unfolding empty_zone_handle_conflicts handle_loop empty_zone_search_init empty_zone_search_next
    search_from empty_zone_unload delete_bind_zone zone_isempty
shuts_down = refl

empty_zone_handle_conflicts_ends_example :
    (r : IscResult × List String) × (empty_zone_handle_conflicts zones "127.IN-ADDR.ARPA" table
        false
      ≡ returns r)
empty_zone_handle_conflicts_ends_example =
    empty_zone_handle_conflicts_ends zones "127.IN-ADDR.ARPA" table false refl
