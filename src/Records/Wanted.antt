-- ===== src/Records/Wanted.antt =====
-- What `diff_ldap_rbtdb` computes.
use bind_dyndb_ldap_pagure_i.Prelude.{
  ◌≡◌, ◌≢◌, ◌⊎◌, refl, sym, ◌∙◌, ap, subst, inl, inr, Bool, Bool-cases, Option-cases, true, false,
  ◌||◌, Option, none, some, List, [], ◌∷◌, if◌then◌else◌, arith,
}
use bind_dyndb_ldap_pagure_i.Isc.{IscResult, success, is_success}
use bind_dyndb_ldap_pagure_i.Zone.{
  Dns, Rdataset, DiffOp, op_add, op_del, end_is_fine, rdataset_to_diff,
}
use bind_dyndb_ldap_pagure_i.Records.{
  RdatasetIter, delete_loop, add_loop, add_after, diff_ldap_rbtdb,
}
use bind_dyndb_ldap_pagure_i.Records.Minimal.{
  Contents, after, change, IsMinimal, AppendsMinimal, folded, Becomes,
}
use bind_dyndb_ldap_pagure_i.Records.Diff.{all_of, delete_loop-Becomes, add_loop-Becomes}

module _ {Name : Type 0} {lib : Dns Name} (c : Contents lib) (laws : AppendsMinimal c) where
  unfoldable pub has : c.Datum → List c.Datum → Bool
  has d [] = false
  has d (e ∷ rest) = c.same d e || has d rest

  -- No datum comes twice.
  abbrev pub Distinct : List c.Datum → Type 0
  Distinct [] = Unit
  Distinct (e ∷ rest) = (has e rest ≡ false) × Distinct rest

  folded-has :
      (o : DiffOp) (d : c.Datum) (xs : List c.Datum) (old : Option DiffOp)
      → Distinct xs
      → folded c laws o d xs old ≡ (if has d xs then after old o else old)
  unfolding folded has
  folded-has o d [] old h = refl
  folded-has o d (e ∷ xs) old h = elim (Bool-cases (c.same d e)) [
    | inl same ↦
        let absent : has d xs ≡ false =
          subst (λ x. has x xs ≡ false) (sym (c.same_eq d e same)) h.0 in
        ground (arith, same, absent, folded-has o d xs (after old o) h.1)
    | inr differs ↦ ground (arith, differs, folded-has o d xs old h.1)
  ]

  -- The change that brings a datum from the database to what LDAP has.
  abbrev pub wanted : Bool → Bool → Option DiffOp
  wanted true true = none
  wanted true false = some op_del
  wanted false true = some op_add
  wanted false false = none

  after_wanted :
      (in_db in_ldap : Bool)
      → (if in_ldap
          then after (if in_db then after none op_del else none) op_add
          else (if in_db then after none op_del else none))
        ≡ wanted in_db in_ldap
  after_wanted true true = refl
  after_wanted true false = refl
  after_wanted false true = refl
  after_wanted false false = refl

  delete_loop_failed :
      (name : Name) (sets : List (Rdataset lib.Rdata)) (diff : List lib.Tuple) (r : IscResult)
      → (delete_loop lib name sets diff).0 ≡ some r
      → is_success r ≡ false
  unfolding delete_loop
  delete_loop_failed name [] diff r h = cc
  delete_loop_failed name (s ∷ rest) diff r h =
      let (result, diff') = rdataset_to_diff lib op_del name s diff in
      elim (Bool-cases (is_success result)) [
        | inl e ↦ delete_loop_failed name rest diff' r (ground (arith, h, e))
        | inr e ↦ ground (arith, h, e)
      ]

  first_passes :
      (name : Name) (ldap_rdatalist : List (Rdataset lib.Rdata)) (iter : RdatasetIter lib.Rdata)
      (diff : List lib.Tuple)
      → diff_ldap_rbtdb lib name ldap_rdatalist iter [] ≡ (success, diff)
      → (delete_loop lib name iter.sets []).0 ≡ none
  unfolding diff_ldap_rbtdb
  first_passes name ldap_rdatalist iter diff h =
      elim (Option-cases (delete_loop lib name iter.sets []).0) [
        | inl e ↦ e
        | inr (r, e) ↦ absurd (ground (arith, h, e, delete_loop_failed name iter.sets [] r e))
      ]

  -- The iterator has come to the end of the sets, unless LDAP has records, whose loop does not look at
  -- the result that has ended the iterator.
  abbrev pub SeenOrHidden : RdatasetIter lib.Rdata → List (Rdataset lib.Rdata) → Type 0
  SeenOrHidden iter ldap_rdatalist = (end_is_fine iter.ends ≡ success) ⊎ (ldap_rdatalist ≢ [])

  add_loop-SeenOrHidden :
      (name : Name) (ldap_rdatalist : List (Rdataset lib.Rdata)) (iter : RdatasetIter lib.Rdata)
      (before diff : List lib.Tuple)
      → add_loop lib name iter.ends ldap_rdatalist before ≡ (success, diff)
      → SeenOrHidden iter ldap_rdatalist
  unfolding add_loop
  add_loop-SeenOrHidden name [] iter before diff h = inl (ap (λ x. x.0) h)
  add_loop-SeenOrHidden name (l ∷ rest) iter before diff h = inr (λ e. cc)

  -- Where no datum comes twice in the sets that the iterator comes to, nor in LDAP, a diff that
  -- `diff_ldap_rbtdb` computes with success from an empty one is minimal: it deletes what only these
  -- sets have, adds what only LDAP has, and has nothing about any other datum, nor two tuples about
  -- one. The iterator has then ended without an error, so that these sets are all of the node, unless
  -- the list from LDAP has something in it.
  pub diff_ldap_rbtdb_lem :
      (name : Name) (ldap_rdatalist : List (Rdataset lib.Rdata)) (iter : RdatasetIter lib.Rdata)
      (diff : List lib.Tuple) (d : c.Datum)
      → diff_ldap_rbtdb lib name ldap_rdatalist iter [] ≡ (success, diff)
      → Distinct (all_of c laws name iter.sets)
      → Distinct (all_of c laws name ldap_rdatalist)
      → IsMinimal c diff
        × (change c d diff
            ≡ wanted
                (has d (all_of c laws name iter.sets))
                (has d (all_of c laws name ldap_rdatalist)))
        × SeenOrHidden iter ldap_rdatalist
  unfolding diff_ldap_rbtdb change
  diff_ldap_rbtdb_lem name ldap_rdatalist iter diff d h in_db in_ldap =
      let (failed, deleted) = delete_loop lib name iter.sets [] in
      let first : failed ≡ none = first_passes name ldap_rdatalist iter diff h in
      let second : add_loop lib name iter.ends ldap_rdatalist deleted ≡ (success, diff) =
        sym (ap (λ x. add_after lib name iter.ends ldap_rdatalist (x, deleted)) first) ∙ h in
      let start : Becomes c laws [] (λ d. none) = record {
        is_minimal = tt;
        value_of = λ d. refl;
      } in
      let middle = delete_loop-Becomes c laws name iter.sets [] (λ d. none) first start in
      let last =
        add_loop-Becomes c laws name iter.ends ldap_rdatalist deleted
          (λ d. folded c laws op_del d (all_of c laws name iter.sets) none)
          (ap (λ x. is_success x.0) second) middle in
      let same : (add_loop lib name iter.ends ldap_rdatalist deleted).1 ≡ diff =
        ap (λ x. x.1) second in
      (
        subst (IsMinimal c) same last.is_minimal,
        ap (change c d) (sym same)
            ∙ last.value_of d
            ∙ folded-has op_add d (all_of c laws name ldap_rdatalist)
                (folded c laws op_del d (all_of c laws name iter.sets) none) in_ldap
            ∙ ap (λ x. if has d (all_of c laws name ldap_rdatalist) then after x op_add else x)
                (folded-has op_del d (all_of c laws name iter.sets) none in_db)
            ∙ after_wanted (has d (all_of c laws name iter.sets))
                (has d (all_of c laws name ldap_rdatalist)),
        add_loop-SeenOrHidden name ldap_rdatalist iter deleted diff second,
      )
