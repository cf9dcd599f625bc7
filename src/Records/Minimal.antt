-- ===== src/Records/Minimal.antt =====
-- What is documented of `dns_diff_appendminimal`, with the loops of src/zone.c over it.
use bind_dyndb_ldap_pagure_i.Prelude.{
  ℕ, ◌≡◌, refl, sym, ◌∙◌, ap, subst, inl, inr, Bool, true, Option, none, some, List, [], ◌∷◌, ◌++◌,
  map, if◌then◌else◌, arith,
}
use bind_dyndb_ldap_pagure_i.Isc.{is_success, ok, Result-cases}
use bind_dyndb_ldap_pagure_i.Zone.{Dns, DiffOp, op_add, op_del, end_is_fine, rdataset_loop}

-- What a tuple changes: a name, a time to live and a record, with the equality that the library uses.
pub record Contents {Name : Type 0} (lib : Dns Name) : Type 1 where
  pub Datum : Type 0
  pub same : Datum → Datum → Bool
  pub datum : lib.Tuple → Datum
  pub content : Name → ℕ → lib.Rdata → Datum
  pub same_refl : (d : Datum) → same d d ≡ true
  pub same_eq : (d e : Datum) → same d e ≡ true → d ≡ e
  pub created :
      (o : DiffOp) (n : Name) (ttl : ℕ) (d : lib.Rdata) (t : lib.Tuple)
      → lib.difftuple_create o n ttl d ≡ ok t
      → (lib.op t ≡ o) × (datum t ≡ content n ttl d)

-- An addition and a deletion of the same cancel out; otherwise the later tuple counts.
abbrev pub after : Option DiffOp → DiffOp → Option DiffOp
after (some op_add) op_del = none
after (some op_del) op_add = none
after _ o = some o

module _ {Name : Type 0} {lib : Dns Name} (c : Contents lib) where
  -- What a list of tuples does to a datum.
  unfoldable pub change : c.Datum → List lib.Tuple → Option DiffOp
  change d [] = none
  change d (t ∷ rest) =
      let later = change d rest in if c.same d (c.datum t) then some (lib.op t) else later

  -- No datum has two tuples.
  abbrev pub IsMinimal : List lib.Tuple → Type 0
  IsMinimal [] = Unit
  IsMinimal (t ∷ rest) = (change (c.datum t) rest ≡ none) × IsMinimal rest

-- `dns_diff_appendminimal` on a minimal diff.
pub record AppendsMinimal {Name : Type 0} {lib : Dns Name} (c : Contents lib) : Type 0 where
  pub minimal :
      (diff : List lib.Tuple) (t : lib.Tuple)
      → IsMinimal c diff
      → IsMinimal c (lib.appendminimal diff t)
  pub changed :
      (diff : List lib.Tuple) (t : lib.Tuple) (d : c.Datum)
      → IsMinimal c diff
      → change c d (lib.appendminimal diff t)
        ≡ (if c.same d (c.datum t) then after (change c d diff) (lib.op t) else change c d diff)

module _ {Name : Type 0} {lib : Dns Name} (c : Contents lib) (laws : AppendsMinimal c) where
  -- What tuples with one operation for each of a list do to a datum, one after another.
  unfoldable pub folded : DiffOp → c.Datum → List c.Datum → Option DiffOp → Option DiffOp
  folded o d [] old = old
  folded o d (e ∷ rest) old = folded o d rest (if c.same d e then after old o else old)

  pub folded-append :
      (o : DiffOp) (d : c.Datum) (xs ys : List c.Datum) (old : Option DiffOp)
      → folded o d (xs ++ ys) old ≡ folded o d ys (folded o d xs old)
  unfolding folded
  folded-append o d [] ys old = refl
  folded-append o d (e ∷ xs) ys old =
      folded-append o d xs ys (if c.same d e then after old o else old)

  abbrev pub contents_of : Name → ℕ → List lib.Rdata → List c.Datum
  contents_of name ttl rdatas = map (λ r. c.content name ttl r) rdatas

  -- A minimal diff, and what it does to every datum.
  pub record Becomes (diff : List lib.Tuple) (value : c.Datum → Option DiffOp) : Type 0 where
    pub is_minimal : IsMinimal c diff
    pub value_of : (d : c.Datum) → change c d diff ≡ value d

  pub Becomes-ext :
      {diff : List lib.Tuple} {v w : c.Datum → Option DiffOp}
      → Becomes diff v
      → ((d : c.Datum) → v d ≡ w d)
      → Becomes diff w
  Becomes-ext b h = record { is_minimal = b.is_minimal; value_of = λ d. b.value_of d ∙ h d }

  append-Becomes :
      (o : DiffOp) (name : Name) (ttl : ℕ) (rdata : lib.Rdata) (tp : lib.Tuple)
      (diff : List lib.Tuple) (value : c.Datum → Option DiffOp)
      → lib.difftuple_create o name ttl rdata ≡ ok tp
      → Becomes diff value
      → Becomes
          (lib.appendminimal diff tp)
          (λ d. if c.same d (c.content name ttl rdata) then after (value d) o else value d)
  append-Becomes o name ttl rdata tp diff value e b =
      let (is_op, is_datum) = c.created o name ttl rdata tp e in
      record {
        is_minimal = laws.minimal diff tp b.is_minimal;
        value_of =
            λ d. ground (arith, laws.changed diff tp d b.is_minimal, is_op, is_datum, b.value_of d);
      }

  pub rdataset_loop-Becomes :
      (o : DiffOp) (name : Name) (ttl : ℕ) (rdatas : List lib.Rdata) (diff : List lib.Tuple)
      (value : c.Datum → Option DiffOp)
      → is_success (end_is_fine (rdataset_loop lib o name ttl rdatas diff).0) ≡ true
      → Becomes diff value
      → Becomes
          (rdataset_loop lib o name ttl rdatas diff).1
          (λ d. folded o d (contents_of name ttl rdatas) (value d))
  unfolding rdataset_loop folded
  rdataset_loop-Becomes o name ttl [] diff value fine b = b
  rdataset_loop-Becomes o name ttl (rdata ∷ rest) diff value fine b =
      elim (Result-cases (lib.difftuple_create o name ttl rdata)) [
        | inr (r, e) ↦
            absurd (ground (arith, fine, e, lib.difftuple_create_failed o name ttl rdata r e))
        | inl (tp, e) ↦
            let step : rdataset_loop lib o name ttl (rdata ∷ rest) diff
                ≡ rdataset_loop lib o name ttl rest (lib.appendminimal diff tp) =
              rw (e, rdataset_loop) refl in
            subst
              (λ x. Becomes x.1 (λ d. folded o d (contents_of name ttl (rdata ∷ rest)) (value d)))
              (sym step)
              (rdataset_loop-Becomes o name ttl rest (lib.appendminimal diff tp)
                (λ d. if c.same d (c.content name ttl rdata) then after (value d) o else value d)
                (sym (ap (λ x. is_success (end_is_fine x.0)) step) ∙ fine)
                (append-Becomes o name ttl rdata tp diff value e b))
      ]
