-- ===== src/Records/Tests.antt =====
-- A diff over numbers, which shows that what is taken of the DNS library can hold, and the theorem
-- about the diff at concrete lists.
use bind_dyndb_ldap_pagure_i.Prelude.{
  ℕ, ◌≡◌, ◌≢◌, refl, sym, ◌∙◌, ap, inl, inr, Bool-cases, true, Option, Option-cases, none, some,
  List, [], ◌∷◌, ◌==◌, if◌then◌else◌, arith,
}
use bind_dyndb_ldap_pagure_i.Isc.{IscResult, success, nxdomain, nomore, ok, err}
use bind_dyndb_ldap_pagure_i.Zone.{
  Dns, Rdataset, DiffOp, op_add, op_del, rdataset_loop, rdatalist_loop, rdataset_to_diff,
  rdatalist_to_diff,
}
use bind_dyndb_ldap_pagure_i.Records.{RdatasetIter, delete_loop, add_loop, diff_ldap_rbtdb}
use bind_dyndb_ldap_pagure_i.Records.Minimal.{Contents, after, change, IsMinimal, AppendsMinimal}
use bind_dyndb_ldap_pagure_i.Records.Diff.{all_of}
use bind_dyndb_ldap_pagure_i.Records.Wanted.{
  has, Distinct, wanted, SeenOrHidden, diff_ldap_rbtdb_lem,
}

abbrev Change : Type 0
Change = DiffOp × ℕ

abbrev change_at : ℕ → List Change → Option DiffOp
change_at d [] = none
change_at d (t ∷ rest) = let later = change_at d rest in if d == t.1 then some t.0 else later

abbrev without : ℕ → List Change → List Change
without d [] = []
without d (t ∷ rest) = let later = without d rest in if d == t.1 then later else t ∷ later

abbrev with_tuple : Option DiffOp → ℕ → List Change → List Change
with_tuple none d diff = diff
with_tuple (some o) d diff = (o, d) ∷ diff

abbrev append : List Change → Change → List Change
append diff t = with_tuple (after (change_at t.1 diff) t.0) t.1 (without t.1 diff)

change_at-without :
    (d e : ℕ) (diff : List Change)
    → change_at d (without e diff) ≡ (if d == e then none else change_at d diff)
change_at-without d e [] = ground arith
change_at-without d e (t ∷ rest) = ground (arith, change_at-without d e rest)

change_at-append :
    (d : ℕ) (diff : List Change) (t : Change)
    → change_at d (append diff t)
      ≡ (if d == t.1 then after (change_at d diff) t.0 else change_at d diff)
change_at-append d diff t = elim (Option-cases (after (change_at t.1 diff) t.0)) [
  | inl e ↦ ground (arith, e, change_at-without d t.1 diff)
  | inr (o, e) ↦ ground (arith, e, change_at-without d t.1 diff)
]

ok_ne_err : {A : Type 0} {a : A} {r : IscResult} → ok a ≡ err r → ⊥
ok_ne_err h = ground (arith, h)

soatuple_lem : (o : DiffOp) (t : Change) → ok (o, 0) ≡ ok t → (t.0 ≡ o) × (true ≡ true)
soatuple_lem o t h = ground (arith, h)

abbrev search_none : ℕ → IscResult × ℕ × Option (Rdataset ℕ)
search_none n = (nxdomain, n, none)

missing_ne_success :
    (n m : ℕ) (b : Option (Rdataset ℕ))
    → search_none n ≡ (success, m, b)
    → ((m == n) ≡ true) × (s : Rdataset ℕ) × (b ≡ some s) × (s.rdatas ≢ [])
missing_ne_success n m b h = absurd (ground (arith, h))

abbrev functions : Dns ℕ
functions = record {
  Rdata = ℕ;
  Tuple = Change;
  Version = Unit {0};
  Journal = Unit {0};
  equal = λ a b. a == b;
  isabsolute = λ n. true;
  getdb = success;
  newversion = λ v. ok v;
  find = λ v n. search_none n;
  tostruct = λ d. ok d;
  fromstruct = λ n. ok n;
  difftuple_create = λ o n ttl d. ok (o, d);
  appendminimal = append;
  createsoatuple = λ v o. ok (o, 0);
  op = λ t. t.0;
  is_soa = λ t. true;
  getserial = λ t. t.1;
  setserial = λ n t. (t.0, n);
  update_soaserial = λ n. n;
  journal_open = λ j. (success, j);
  journal_write = λ j d. (success, j);
  diff_apply = λ v d. (success, v);
  find_success = λ v n m b h. missing_ne_success n m b h;
  soatuple = λ v o t h. soatuple_lem o t h;
  tostruct_failed = λ d r h. absurd (ok_ne_err h);
  fromstruct_failed = λ n r h. absurd (ok_ne_err h);
  createsoatuple_failed = λ v o r h. absurd (ok_ne_err h);
  difftuple_create_failed = λ o n ttl d r h. absurd (ok_ne_err h);
}

created_lem : (o : DiffOp) (d : ℕ) (t : Change) → ok (o, d) ≡ ok t → (t.0 ≡ o) × (t.1 ≡ d)
created_lem o d t h = ground (arith, h)

n_equal : (n : ℕ) → (n == n) ≡ true
n_equal n = ground arith

n_eq : (n m : ℕ) → (n == m) ≡ true → n ≡ m
n_eq n m h = ground (arith, h)

abbrev numbers : Contents functions
numbers = record {
  Datum = ℕ;
  same = λ a b. a == b;
  datum = λ t. t.1;
  content = λ n ttl d. d;
  same_refl = n_equal;
  same_eq = n_eq;
  created = λ o n ttl d t h. created_lem o d t h;
}

change_same : (d : ℕ) (diff : List Change) → change numbers d diff ≡ change_at d diff
unfolding change
change_same d [] = refl
change_same d (t ∷ rest) = ground (arith, change_same d rest)

without-IsMinimal :
    (d : ℕ) (diff : List Change) → IsMinimal numbers diff → IsMinimal numbers (without d diff)
without-IsMinimal d [] h = tt
without-IsMinimal d (t ∷ rest) h =
    let later = without-IsMinimal d rest h.1 in
    elim (Bool-cases (d == t.1)) [
      | inl e ↦ rw e later
      | inr e ↦ rw e (
        ground (
          arith,
          e,
          h.0,
          change_same t.1 rest,
          change_same t.1 (without d rest),
          change_at-without t.1 d rest,
        ),
        later,
      )
    ]

append-IsMinimal :
    (diff : List Change) (t : Change) → IsMinimal numbers diff → IsMinimal numbers (append diff t)
append-IsMinimal diff t h =
    let rest = without-IsMinimal t.1 diff h in
    let absent : change numbers t.1 (without t.1 diff) ≡ none =
      change_same t.1 (without t.1 diff)
      ∙ change_at-without t.1 t.1 diff
      ∙ ap (λ b. if b then none else change_at t.1 diff) (n_equal t.1) in
    elim (Option-cases (after (change_at t.1 diff) t.0)) [
      | inl e ↦ rw e rest
      | inr (o, e) ↦ rw e (absent, rest)
    ]

append_changed :
    (diff : List Change) (t : Change) (d : ℕ)
    → change numbers d (append diff t)
      ≡ (if d == t.1 then after (change numbers d diff) t.0 else change numbers d diff)
append_changed diff t d =
    change_same d (append diff t)
    ∙ change_at-append d diff t
    ∙ ap (λ x. if d == t.1 then after x t.0 else x) (sym (change_same d diff))

appends : AppendsMinimal numbers
appends = record { minimal = append-IsMinimal; changed = λ diff t d h. append_changed diff t d }

abbrev in_db : RdatasetIter ℕ
in_db = record {
  sets = record { ttl = 60; rdatas = 1 ∷ 2 ∷ [] } ∷ record { ttl = 60; rdatas = 3 ∷ [] } ∷ [];
  ends = nomore;
}

abbrev in_ldap : List (Rdataset ℕ)
in_ldap = record { ttl = 60; rdatas = 2 ∷ 4 ∷ [] } ∷ []

abbrev result : List Change
result = (op_add, 4) ∷ (op_del, 3) ∷ (op_del, 1) ∷ []

diff_run : diff_ldap_rbtdb functions 9 in_ldap in_db [] ≡ (success, result)
unfolding diff_ldap_rbtdb delete_loop add_loop rdataset_to_diff rdatalist_to_diff rdataset_loop
    rdatalist_loop
diff_run = refl

in_db-Distinct : Distinct numbers appends (all_of numbers appends 9 in_db.sets)
unfolding has
in_db-Distinct = (refl, (refl, (refl, tt)))

in_ldap-Distinct : Distinct numbers appends (all_of numbers appends 9 in_ldap)
unfolding has
in_ldap-Distinct = (refl, (refl, tt))

diff_ldap_rbtdb_lem_example :
    IsMinimal numbers result
    × (change numbers 3 result
        ≡ wanted numbers appends
            (has numbers appends 3 (all_of numbers appends 9 in_db.sets))
            (has numbers appends 3 (all_of numbers appends 9 in_ldap)))
    × SeenOrHidden numbers appends in_db in_ldap
diff_ldap_rbtdb_lem_example =
    diff_ldap_rbtdb_lem numbers appends 9 in_ldap in_db result 3 diff_run in_db-Distinct
      in_ldap-Distinct
