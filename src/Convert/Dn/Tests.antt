-- ===== src/Convert/Dn/Tests.antt =====
-- The conversions between names and DNs at concrete arguments.
use bind_dyndb_ldap_pagure_i.Prelude.{
  ℕ, ◌+◌, ◌^◌, ◌<◌, ◌≡◌, refl, Bool, true, false, Option, none, some, List, [], ◌∷◌, ◌++◌, String,
  length, All, arith,
}
use bind_dyndb_ldap_pagure_i.Isc.{Result, ok, returns}
use bind_dyndb_ldap_pagure_i.Text.{bytes, to_lower}
use bind_dyndb_ldap_pagure_i.Strings.{LdString}
use bind_dyndb_ldap_pagure_i.Strings.Memory.{NonZero}
use bind_dyndb_ldap_pagure_i.Strings.Alloc.{IsGet, Holds}
use bind_dyndb_ldap_pagure_i.Convert.Escape.{
  dns_to_ldap_dn_escape, escape_loop, is_nice, is_alnum, is_digit,
}
use bind_dyndb_ldap_pagure_i.EmptyZones.{reln_subdomain}
use bind_dyndb_ldap_pagure_i.Registers.Trees.{find, lists}
use bind_dyndb_ldap_pagure_i.Registers.Zones.{ZoneInfo}
use bind_dyndb_ldap_pagure_i.Convert.Dn.{
  Ava, Names, Labels, is_idns_name, strncasecmp_eq, dn_to_dnsname,
}
use bind_dyndb_ldap_pagure_i.Convert.Dn.FromDn.{dn_to_dnsname_lem, leading_values}
use bind_dyndb_ldap_pagure_i.Convert.Dn.Described.{Described}
use bind_dyndb_ldap_pagure_i.Convert.Dn.ToDn.{Prints, dnsname_to_dn_lem}

abbrev idns : String → List Ava
idns v = record { attr = bytes "idnsname"; value = bytes v; is_string = true } ∷ []

abbrev other : List Ava
other = record { attr = bytes "cn"; value = bytes "dns"; is_string = true } ∷ []

-- Names as text.
abbrev text_names : Names (List ℕ)
text_names = record {
  root = bytes ".";
  copy = λ n. ok n;
  fromtext = λ v o. ok (v ++ o);
  issubdomain = λ n o. true;
  equal = λ n o. false;
  dup = λ n. ok n;
}

abbrev three : List (List Ava)
three = idns "a" ∷ idns "b" ∷ idns "c" ∷ other ∷ []

abbrev parsed : List ℕ → Option (List (List Ava))
parsed s = some three

-- The type of the attribute may be any beginning of the word.
short_type : is_idns_name (record { attr = bytes "i"; value = []; is_string = true }) ≡ true
unfolding is_idns_name strncasecmp_eq bytes to_lower
short_type = refl

dn_to_dnsname_lem_example :
    (found : Option Bool × Result (List ℕ × Option (List ℕ))) × (dn_to_dnsname text_names parsed []
        false
      ≡ returns found)
    × Described text_names false (leading_values three) found
dn_to_dnsname_lem_example =
    dn_to_dnsname_lem text_names false parsed [] three refl (refl, (refl, (refl, (refl, tt))))

-- Names are numbers, zone 1 is registered.
abbrev labels : Labels ℕ
labels = record {
  fullcompare = λ n z. (reln_subdomain, 2);
  countlabels = λ n. 3;
  first_labels = λ n k. n;
  tostring = λ n. ok (bytes "a");
}

abbrev create : ℕ → Option ℕ → String → Option ℕ → Result (ZoneInfo ℕ ℕ ℕ)
create raw secure dn ldapdb =
    ok (record { raw = raw; secure = secure; dn = dn; settings = 0; ldapdb = 0 })

abbrev info : ZoneInfo ℕ ℕ ℕ
info = record { raw = 1; secure = none; dn = "cn"; settings = 0; ldapdb = 0 }

abbrev absolute : ℕ → Bool
absolute n = true

abbrev origin : ℕ → ℕ
origin z = z

abbrev nothing_left : ℕ → Option (List ℕ)
nothing_left n = none

nothing_left-IsGet : IsGet nothing_left
nothing_left-IsGet n b h = cc

abbrev empty : LdString
empty = record { buffer = none; allocated = 0 }

empty-Holds : Holds empty []
empty-Holds = (tt, (refl, refl))

escaped_run : dns_to_ldap_dn_escape (λ n. true) (bytes "a") ≡ returns (ok (bytes "a"))
unfolding dns_to_ldap_dn_escape escape_loop is_nice is_alnum is_digit bytes
escaped_run = refl

registered_run : find ((1, info) ∷ []) 1 ≡ some info
unfolding find
registered_run = refl

info-NonZero : All NonZero (bytes info.dn)
unfolding bytes
info-NonZero = (omega arith, (omega arith, tt))

short : length (bytes "idnsName=" ++ (bytes "a" ++ (bytes ", " ++ bytes info.dn))) + 1 < 2 ^ 63
unfolding bytes
short = omega arith

dnsname_to_dn_lem_example :
    Prints labels lists absolute origin create origin nothing_left nothing_left-IsGet
      (λ n. true)
      ((1, info) ∷ [])
      5
      1
      info
      empty
      []
      (bytes "idnsName=" ++ (bytes "a" ++ (bytes ", " ++ bytes info.dn)))
dnsname_to_dn_lem_example =
    dnsname_to_dn_lem labels lists absolute origin create origin nothing_left nothing_left-IsGet
      (λ n. true) ((1, info) ∷ []) 5 1 info empty [] (bytes "a") (bytes "a") empty-Holds refl
      registered_run info-NonZero refl refl refl escaped_run short
