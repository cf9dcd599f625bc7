-- ===== src/Records/Diff.antt =====
-- The loops of `diff_ldap_rbtdb`.
use bind_dyndb_ldap_pagure_i.Prelude.{
  ℕ, ◌≡◌, refl, sym, ap, subst, inl, inr, Bool-cases, true, Option, none, List, [], ◌∷◌, ◌++◌,
  arith,
}
use bind_dyndb_ldap_pagure_i.Isc.{IscResult, is_success, Result-cases}
use bind_dyndb_ldap_pagure_i.Zone.{
  Dns, Rdataset, DiffOp, op_add, op_del, end_is_fine, rdataset_loop, rdataset_to_diff,
  rdatalist_loop, rdatalist_to_diff,
}
use bind_dyndb_ldap_pagure_i.Records.{delete_loop, add_loop}
use bind_dyndb_ldap_pagure_i.Records.Minimal.{
  Contents, AppendsMinimal, folded, folded-append, contents_of, Becomes, rdataset_loop-Becomes,
  Becomes-ext,
}

-- The two loops of zone.c do the same.
rdatalist_to_diff_same :
    {Name : Type 0} (lib : Dns Name) (o : DiffOp) (name : Name) (ttl : ℕ) (rdatas : List lib.Rdata)
    (diff : List lib.Tuple)
    → rdatalist_loop lib o name ttl rdatas diff ≡ (
      end_is_fine (rdataset_loop lib o name ttl rdatas diff).0,
      (rdataset_loop lib o name ttl rdatas diff).1,
    )
unfolding rdatalist_loop rdataset_loop
rdatalist_to_diff_same lib o name ttl [] diff = refl
rdatalist_to_diff_same lib o name ttl (rdata ∷ rest) diff =
    elim (Result-cases (lib.difftuple_create o name ttl rdata)) [
      | inr (r, e) ↦ ground (arith, e, lib.difftuple_create_failed o name ttl rdata r e)
      | inl (tp, e) ↦
          rw (e, rdatalist_loop, rdataset_loop)
            (rdatalist_to_diff_same lib o name ttl rest (lib.appendminimal diff tp))
    ]

add_fine :
    (r s : IscResult)
    → r ≡ end_is_fine s
    → is_success (end_is_fine r) ≡ true
    → is_success (end_is_fine s) ≡ true
add_fine r s h e = ground (arith, h, e)

module _ {Name : Type 0} {lib : Dns Name} (c : Contents lib) (laws : AppendsMinimal c) where
  -- All that is in a list of sets under a name.
  abbrev pub all_of : Name → List (Rdataset lib.Rdata) → List c.Datum
  all_of name [] = []
  all_of name (s ∷ rest) = contents_of c laws name s.ttl s.rdatas ++ all_of name rest

  pub delete_loop-Becomes :
      (name : Name) (sets : List (Rdataset lib.Rdata)) (diff : List lib.Tuple)
      (value : c.Datum → Option DiffOp)
      → (delete_loop lib name sets diff).0 ≡ none
      → Becomes c laws diff value
      → Becomes c laws
          (delete_loop lib name sets diff).1
          (λ d. folded c laws op_del d (all_of name sets) (value d))
  unfolding delete_loop rdataset_to_diff folded
  delete_loop-Becomes name [] diff value fine b = b
  delete_loop-Becomes name (s ∷ rest) diff value fine b =
      let diff' = (rdataset_loop lib op_del name s.ttl s.rdatas diff).1 in
      elim (Bool-cases
        (is_success (end_is_fine (rdataset_loop lib op_del name s.ttl s.rdatas diff).0))) [
          | inr e ↦ absurd (ground (arith, fine, e))
          | inl e ↦
              let here = rdataset_loop-Becomes c laws op_del name s.ttl s.rdatas diff value e b in
              let more =
                delete_loop-Becomes name rest diff'
                  (λ d. folded c laws op_del d (contents_of c laws name s.ttl s.rdatas) (value d))
                  (ground (arith, fine, e)) here in
              let step : (delete_loop lib name (s ∷ rest) diff).1
                  ≡ (delete_loop lib name rest diff').1 =
                rw e refl in
              subst
                (λ x.
                  Becomes c laws x (λ d. folded c laws op_del d (all_of name (s ∷ rest)) (value d)))
                (sym step)
                (Becomes-ext c laws more (λ d. sym (
                  folded-append c laws op_del d (contents_of c laws name s.ttl s.rdatas)
                    (all_of name rest) (value d))))
        ]

  pub add_loop-Becomes :
      (name : Name) (result : IscResult) (lists : List (Rdataset lib.Rdata)) (diff : List lib.Tuple)
      (value : c.Datum → Option DiffOp)
      → is_success (add_loop lib name result lists diff).0 ≡ true
      → Becomes c laws diff value
      → Becomes c laws
          (add_loop lib name result lists diff).1
          (λ d. folded c laws op_add d (all_of name lists) (value d))
  unfolding add_loop rdatalist_to_diff folded
  add_loop-Becomes name result [] diff value fine b = b
  add_loop-Becomes name result (l ∷ rest) diff value fine b =
      let (result', diff') = rdatalist_loop lib op_add name l.ttl l.rdatas diff in
      let same = rdatalist_to_diff_same lib op_add name l.ttl l.rdatas diff in
      elim (Bool-cases (is_success (end_is_fine result'))) [
        | inr e ↦ absurd (ground (arith, fine, e))
        | inl e ↦
            let fine' : is_success
                  (end_is_fine (rdataset_loop lib op_add name l.ttl l.rdatas diff).0)
                ≡ true =
              add_fine result' (rdataset_loop lib op_add name l.ttl l.rdatas diff).0
                (ap (λ x. x.0) same) e in
            let here = rdataset_loop-Becomes c laws op_add name l.ttl l.rdatas diff value fine' b in
            let more =
              add_loop-Becomes name result' rest diff'
                (λ d. folded c laws op_add d (contents_of c laws name l.ttl l.rdatas) (value d))
                (ground (arith, fine, e))
                (subst
                  (λ x. Becomes c laws x (λ d.
                    folded c laws op_add d (contents_of c laws name l.ttl l.rdatas) (value d)))
                  (sym (ap (λ x. x.1) same)) here) in
            let step : (add_loop lib name result (l ∷ rest) diff).1
                ≡ (add_loop lib name result' rest diff').1 =
              rw e refl in
            subst
              (λ x.
                Becomes c laws x (λ d. folded c laws op_add d (all_of name (l ∷ rest)) (value d)))
              (sym step)
              (Becomes-ext c laws more (λ d. sym (
                folded-append c laws op_add d (contents_of c laws name l.ttl l.rdatas)
                  (all_of name rest) (value d))))
      ]
