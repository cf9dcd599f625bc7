-- ===== src/Convert/Dn.antt =====
-- src/ldap_convert.c: DNS names from LDAP DNs (`dn_to_dnsname`, `dn_want_zone`) and LDAP DNs for DNS
-- names (`dnsname_to_dn`). A text is the list of its bytes.
pub mod Described
pub mod FromDn
pub mod ToDn
mod Tests
use bind_dyndb_ldap_pagure_i.Prelude.{
  ℕ, zero, suc, ◌+◌, ◌-◌, ◌*◌, Bool, true, false, not, ◌&&◌, Option, none, some, List, [], ◌∷◌,
  ◌++◌, String, length, ltb, leb, ◌==◌, if◌then◌else◌,
}
use bind_dyndb_ldap_pagure_i.Isc.{
  IscResult, success, unexpected, unexpectedend, notimplemented, badownername, is_success, Result,
  ok, err, Run, returns, aborts, ◌>>=◌,
}
use bind_dyndb_ldap_pagure_i.Text.{to_lower, bytes}
use bind_dyndb_ldap_pagure_i.Strings.{LdString, str_clear}
use bind_dyndb_ldap_pagure_i.Strings.Chain.{cat_all}
use bind_dyndb_ldap_pagure_i.Convert.Escape.{dns_to_ldap_dn_escape}
use bind_dyndb_ldap_pagure_i.EmptyZones.{NameRelation, reln_equal}
use bind_dyndb_ldap_pagure_i.Registers.Rbt.{Rbt}
use bind_dyndb_ldap_pagure_i.Registers.Zones.{ZoneInfo, ZoneRegister, zr_get_zone_dn}

-- `LDAPAVA`: one `attribute=value`, with LDAP_AVA_STRING of its flags. An RDN is a list of them, a DN
-- a list of RDNs, each up to the terminating NULL pointer.
pub record Ava : Type 0 where
  pub attr : List ℕ
  pub value : List ℕ
  pub is_string : Bool

-- `strncasecmp(a, b, n) == 0`, where both texts end with a NUL.
unfoldable pub strncasecmp_eq : List ℕ → List ℕ → ℕ → Bool
strncasecmp_eq xs ys zero = true
strncasecmp_eq [] [] (suc n) = true
strncasecmp_eq (x ∷ xs) (y ∷ ys) (suc n) = to_lower x == to_lower y && strncasecmp_eq xs ys n
strncasecmp_eq _ _ (suc n) = false

abbrev pub idns_name : List ℕ
idns_name = bytes "idnsName"

unfoldable pub is_idns_name : Ava → Bool
is_idns_name a = strncasecmp_eq idns_name a.attr (length a.attr)

-- What the loop leaves behind: where it stopped, and the two buffers.
pub record Parts : Type 0 where
  pub idx : ℕ
  pub name_buf : List ℕ
  pub origin_buf : List ℕ

-- The loop over the RDNs, from number `idx` on.
unfoldable pub walk : Parts → List (List Ava) → Run (Result Parts)
walk p [] = returns (ok p)
walk p ([] ∷ rest) = aborts
walk p ((a ∷ b ∷ more) ∷ rest) = returns (err notimplemented)
walk p ((a ∷ []) ∷ rest) =
    let first = walk (record p { idx = p.idx + 1; name_buf = a.value }) rest in
    let second = walk (record p { idx = p.idx + 1; origin_buf = a.value }) rest in
    if not a.is_string
    then returns (err notimplemented)
    else if not (is_idns_name a)
    then returns (ok p)
    else if p.idx == 0
    then first
    else if p.idx == 1
    then second
    else returns (ok p)

-- The DNS library: the root name, `dns_name_copy` and `dns_name_fromtext` to a buffer,
-- `dns_name_issubdomain`, `dns_name_equal` and `dns_name_dupwithoffsets`.
pub record Names (Name : Type 0) : Type 0 where
  pub root : Name
  pub copy : Name → Result Name
  pub fromtext : List ℕ → Name → Result Name
  pub issubdomain : Name → Name → Bool
  pub equal : Name → Name → Bool
  pub dup : Name → Result Name

infixl 5 ◌>>?◌
abbrev pub ◌>>?◌ {ℓ κ} : {A : Type ℓ} {B : Type κ} → Result A → (A → Result B) → Result B
ok a >>? f = f a
err r >>? f = err r

module _ {Name : Type 0} (lib : Names Name) where
  -- The names of the two components, the owner and the origin.
  abbrev pub zone_names : List ℕ → Result (Name × Name)
  zone_names name_buf =
      lib.copy lib.root >>? λ origin. lib.fromtext name_buf lib.root >>? λ name. ok (name, origin)

  abbrev pub owner_names : List ℕ → List ℕ → Result (Name × Name)
  owner_names name_buf origin_buf = lib.fromtext origin_buf lib.root >>? λ origin.
      lib.fromtext name_buf origin >>? λ name.
      if not (lib.issubdomain name origin)
      then err badownername
      else if lib.equal name origin
      then err badownername
      else ok (name, origin)

  -- The copies for the caller, the second if `otarget` is not NULL.
  abbrev pub copies : Bool → Name × Name → Result (Name × Option Name)
  copies want_origin (name, origin) = lib.dup name >>? λ target.
      if want_origin
      then (lib.dup origin >>? λ otarget. ok (target, some otarget))
      else ok (target, none)

  -- What is written to `*iszone`, and the result.
  unfoldable pub from_parts : Bool → Parts → Option Bool × Result (Name × Option Name)
  from_parts want_origin p =
      if p.idx == 0
      then (none, err unexpectedend)
      else if p.idx == 1
      then (some true, zone_names p.name_buf >>? copies want_origin)
      else if p.idx == 2
      then (some false, owner_names p.name_buf p.origin_buf >>? copies want_origin)
      else (none, err notimplemented)

  abbrev pub of_walk : Bool → Result Parts → Option Bool × Result (Name × Option Name)
  of_walk want_origin (err r) = (none, err r)
  of_walk want_origin (ok p) = from_parts want_origin p

  -- `str2dn` is `ldap_str2dn`, which fails or gives the RDNs.
  unfoldable pub dn_to_dnsname :
      (List ℕ → Option (List (List Ava)))
      → List ℕ
      → Bool
      → Run (Option Bool × Result (Name × Option Name))
  dn_to_dnsname str2dn dn_str want_origin = elim (str2dn dn_str) [
    | none ↦ returns (none, err unexpected)
    | some dn ↦ do
      walked ← walk (record { idx = 0; name_buf = []; origin_buf = [] }) dn
      returns (of_walk want_origin walked)
  ]

unfoldable pub dn_want_zone : Bool → Bool → IscResult
dn_want_zone true true = success
dn_want_zone false false = success
dn_want_zone _ _ = unexpected

-- The DNS library for `dnsname_to_dn`: `dns_name_fullcompare` with the number of common labels,
-- `dns_name_countlabels`, `dns_name_getlabelsequence` from label 0 on and `dns_name_tostring`.
pub record Labels (Name : Type 0) : Type 0 where
  pub fullcompare : Name → Name → NameRelation × ℕ
  pub countlabels : Name → ℕ
  pub first_labels : Name → ℕ → Name
  pub tostring : Name → Result (List ℕ)

abbrev pub is_equal : NameRelation → Bool
is_equal reln_equal = true
is_equal _ = false

abbrev pub prefix : List ℕ
prefix = bytes "idnsName="

abbrev pub comma : List ℕ
comma = bytes ", "

module _ {Name Zone Set Db Rbtdb : Type 0} (lib : Labels Name)
    (rbt : Rbt Name (ZoneInfo Zone Set Db)) (isabsolute : Name → Bool) (getorigin : Zone → Name)
    (create : Zone → Option Zone → String → Option Db → Result (ZoneInfo Zone Set Db))
    (get_rbtdb : Db → Rbtdb) where
  -- `get` and `alloc` are `isc_mem_get` and `isc_mem_allocate`; the latter says whether so many
  -- bytes can be had.
  unfoldable pub print_dn :
      (ℕ → Option (List ℕ))
      → (ℕ → Bool)
      → Name
      → Name
      → LdString
      → IscResult × Option String
      → Run (IscResult × LdString)
  print_dn get alloc name zone target (success, some zone_dn) =
      let (namereln, common_labels) = lib.fullcompare name zone in
      if is_equal namereln
      then cat_all get target (bytes zone_dn ∷ [])
      else elim (lib.tostring (lib.first_labels name (lib.countlabels name - common_labels))) [
        | err r ↦ returns (r, target)
        | ok dns_str ↦ do
          escaped ← dns_to_ldap_dn_escape alloc dns_str
          (elim escaped [
            | err r ↦ returns (r, target)
            | ok escaped_name ↦
                cat_all get target (prefix ∷ escaped_name ∷ comma ∷ bytes zone_dn ∷ [])
          ])
      ]
  print_dn get alloc name zone target (success, none) = returns (success, target)
  print_dn get alloc name zone target (r, _) = returns (r, target)

  unfoldable pub dnsname_to_dn :
      (ℕ → Option (List ℕ))
      → (ℕ → Bool)
      → ZoneRegister rbt isabsolute getorigin create get_rbtdb
      → Name
      → Name
      → LdString
      → Run ((IscResult × LdString) × ZoneRegister rbt isabsolute getorigin create get_rbtdb)
  dnsname_to_dn get alloc zr name zone target = do
    (_, cleared) ← str_clear target
    (result, zone_dn, zr') ← zr_get_zone_dn rbt isabsolute getorigin create get_rbtdb zr zone
    printed ← print_dn get alloc name zone cleared (result, zone_dn)
    returns (printed, zr')
