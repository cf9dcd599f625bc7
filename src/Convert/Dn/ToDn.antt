-- ===== src/Convert/Dn/ToDn.antt =====
-- The DN that `dnsname_to_dn` prints.
use bind_dyndb_ldap_pagure_i.Prelude.{
  ℕ, ◌+◌, ◌-◌, ◌*◌, ◌^◌, ◌<◌, ◌≡◌, refl, subst, ◌∙◌, ap, ◌⊎◌, inl, inr, Bool, true, false, Option,
  some, List, [], ◌∷◌, ◌++◌, String, length, All, arith,
}
use mathlib.Core.List.{append-nil}
use bind_dyndb_ldap_pagure_i.Isc.{IscResult, success, nomemory, Result, ok, Run, returns, ◌>>=◌}
use bind_dyndb_ldap_pagure_i.Text.{bytes}
use bind_dyndb_ldap_pagure_i.Strings.{LdString}
use bind_dyndb_ldap_pagure_i.Strings.Memory.{NonZero}
use bind_dyndb_ldap_pagure_i.Strings.Alloc.{IsGet, Holds}
use bind_dyndb_ldap_pagure_i.Strings.Chain.{cat_all, cat_all_lem, concat, Comes, str_clear_lem}
use bind_dyndb_ldap_pagure_i.Convert.Escape.{dns_to_ldap_dn_escape}
use bind_dyndb_ldap_pagure_i.Convert.Escape.Clean.{dns_to_ldap_dn_escape-NonZero}
use bind_dyndb_ldap_pagure_i.Convert.Dn.{Labels, is_equal, prefix, comma, print_dn, dnsname_to_dn}
use bind_dyndb_ldap_pagure_i.Registers.Rbt.{Rbt}
use bind_dyndb_ldap_pagure_i.Registers.Zones.{ZoneInfo, ZoneRegister}
use bind_dyndb_ldap_pagure_i.Registers.Zones.Laws.{free, registered}

prefix-NonZero : All NonZero prefix
unfolding bytes
prefix-NonZero = (
  omega arith,
  (
    omega arith,
    (
      omega arith,
      (omega arith, (omega arith, (omega arith, (omega arith, (omega arith, (omega arith, tt)))))),
    ),
  ),
)

comma-NonZero : All NonZero comma
unfolding bytes
comma-NonZero = (omega arith, (omega arith, tt))

concat_four : (a b c d : List ℕ) → concat (a ∷ b ∷ c ∷ d ∷ []) ≡ a ++ (b ++ (c ++ d))
unfolding concat
concat_four a b c d = ap (λ l. a ++ (b ++ (c ++ l))) (append-nil d)

module _ {Name Zone Set Db Rbtdb : Type 0} (lib : Labels Name)
    (rbt : Rbt Name (ZoneInfo Zone Set Db)) (isabsolute : Name → Bool) (getorigin : Zone → Name)
    (create : Zone → Option Zone → String → Option Db → Result (ZoneInfo Zone Set Db))
    (get_rbtdb : Db → Rbtdb) (get : ℕ → Option (List ℕ)) (good : IsGet get) (alloc : ℕ → Bool)
    (t : rbt.Tree) (name zone : Name) (z : ZoneInfo Zone Set Db) (target : LdString)
    (text : List ℕ) where
  abbrev run : Run ((IscResult × LdString) × ZoneRegister rbt isabsolute getorigin create get_rbtdb)
  run =
      dnsname_to_dn lib rbt isabsolute getorigin create get_rbtdb get alloc
        (free rbt isabsolute getorigin create get_rbtdb t) name zone target

  -- The register is as before, and memory ran out or the string holds the DN.
  abbrev pub Prints : List ℕ → Type 0
  Prints dn =
      ((str' : LdString) × (run
          ≡ returns ((nomemory, str'), free rbt isabsolute getorigin create get_rbtdb t)))
      ⊎ ((str' : LdString) × (run
            ≡ returns ((success, str'), free rbt isabsolute getorigin create get_rbtdb t))
          × Holds str' dn)

  -- What a successful look-up leaves to be done.
  look_up :
      (cleared : LdString) (dn : List ℕ)
      → run ≡ (
          print_dn lib rbt isabsolute getorigin create get_rbtdb get alloc name zone cleared
            (success, some z.dn)
          >>= λ printed. returns (printed, free rbt isabsolute getorigin create get_rbtdb t))
      → Comes
          (print_dn lib rbt isabsolute getorigin create get_rbtdb get alloc name zone cleared
            (success, some z.dn))
          dn
      → Prints dn
  look_up cleared dn e (inl (str', p, _, _)) = inl (str', e ∙ rw p refl)
  look_up cleared dn e (inr (str', p, h)) = inr (str', e ∙ rw p refl, h)

  abbrev pub dn_of : List ℕ → List ℕ
  dn_of out = prefix ++ (out ++ (comma ++ bytes z.dn))

  chain :
      (dns_str out : List ℕ) (cleared : LdString)
      → Holds cleared []
      → All NonZero (bytes z.dn)
      → is_equal ((lib.fullcompare name zone).0) ≡ false
      → lib.tostring (lib.first_labels name (lib.countlabels name - (lib.fullcompare name zone).1))
        ≡ ok dns_str
      → alloc (3 * length dns_str + 1) ≡ true
      → dns_to_ldap_dn_escape alloc dns_str ≡ returns (ok out)
      → length (dn_of out) + 1 < 2 ^ 63
      → Comes
          (print_dn lib rbt isabsolute getorigin create get_rbtdb get alloc name zone cleared
            (success, some z.dn))
          (dn_of out)
  unfolding print_dn
  chain dns_str out cleared empty clean ne printed room escaped bound =
      let parts : List (List ℕ) = prefix ∷ out ∷ comma ∷ bytes z.dn ∷ [] in
      let out_clean = dns_to_ldap_dn_escape-NonZero alloc dns_str out room escaped in
      let whole : concat parts ≡ dn_of out = concat_four prefix out comma (bytes z.dn) in
      let come =
        cat_all_lem get good parts cleared [] empty
          (prefix-NonZero, (out_clean, (comma-NonZero, (clean, tt))))
          (omega (arith, bound, ap length whole)) in
      rw (ne, printed, escaped) (subst (Comes (cat_all get cleared parts)) whole come)

  -- For a name in a registered zone that is not the zone's own, whose first labels print as a text
  -- that can be escaped, `dnsname_to_dn` leaves the register as it was and puts "idnsName=", the
  -- escaped text, a comma and the zone's DN in the place of what the string held, unless memory runs
  -- out. The lengths together stay below 2^63.
  pub dnsname_to_dn_lem :
      (dns_str out : List ℕ)
      → Holds target text
      → isabsolute zone ≡ true
      → rbt.entry t zone ≡ some z
      → All NonZero (bytes z.dn)
      → is_equal ((lib.fullcompare name zone).0) ≡ false
      → lib.tostring (lib.first_labels name (lib.countlabels name - (lib.fullcompare name zone).1))
        ≡ ok dns_str
      → alloc (3 * length dns_str + 1) ≡ true
      → dns_to_ldap_dn_escape alloc dns_str ≡ returns (ok out)
      → length (dn_of out) + 1 < 2 ^ 63
      → Prints (dn_of out)
  unfolding dnsname_to_dn
  dnsname_to_dn_lem dns_str out held abs entry clean ne printed room escaped bound =
      let (cleared, done, empty) = str_clear_lem target text held in
      let (_, found, _, _) =
        registered rbt isabsolute getorigin create get_rbtdb t zone z abs entry in
      look_up cleared (dn_of out) (rw (done, found) refl)
        (chain dns_str out cleared empty clean ne printed room escaped bound)
