-- ===== src/Metadata/Stored.antt =====
-- What can be read of an entry after `mldap_entry_create`.
use bind_dyndb_ldap_pagure_i.Prelude.{
  ℕ, ◌+◌, ◌*◌, ◌/◌, ◌%◌, ◌^◌, ◌<◌, ◌≤◌, ◌≡◌, ◌≢◌, ◌∙◌, ap, inl, inr, Bool, true, false, some, List,
  [], ◌∷◌, ◌==◌, arith, Bool-cases, Option-cases,
}
use bind_dyndb_ldap_pagure_i.Isc.{◌>>=◌, is_success, ok, returns}
use bind_dyndb_ldap_pagure_i.LdapEntry.Class.{EntryClass}
use bind_dyndb_ldap_pagure_i.Metadata.{
  RdType, rd_a, rd_aaaa, Database, metadb_writenode, metadb_rdata_store, metadb_rdataset_get,
  only_rdata,
}
use bind_dyndb_ldap_pagure_i.Metadata.Mldap.{
  bit, class_bits, bits_class, word_bytes, bytes_word, bytes_class, Mldap, mldap_class_store,
  mldap_class_get, mldap_generation_store, mldap_generation_get, read_ok, store_entry, written_to,
  mldap_entry_create,
}

unit : Bool → ℕ
unit b = bit b 1

unit_le : (b : Bool) → unit b ≤ 1
unfolding unit
unit_le true = omega arith
unit_le false = omega arith

bit-unit : (b : Bool) (v : ℕ) → bit b v ≡ v * unit b
unfolding unit
bit-unit true v = omega arith
bit-unit false v = omega arith

unit_eq : (b : Bool) (n : ℕ) → n ≡ unit b → (n == 1) ≡ b
unfolding unit
unit_eq true n e = ground (arith, e)
unit_eq false n e = ground (arith, e)

-- Each of six bits is found again in their sum.
sum_bits :
    (a b c d e f : ℕ)
    → a ≤ 1
    → b ≤ 1
    → c ≤ 1
    → d ≤ 1
    → e ≤ 1
    → f ≤ 1
    → (n : ℕ) → n ≡ a + 2 * b + 4 * c + 8 * d + 16 * e + 32 * f
    → (n / 1 % 2 ≡ a)
      × (n / 2 % 2 ≡ b)
      × (n / 4 % 2 ≡ c)
      × (n / 8 % 2 ≡ d)
      × (n / 16 % 2 ≡ e)
      × (n / 32 % 2 ≡ f)
sum_bits a b c d e f ha hb hc hd he hf n h = (
  omega (arith, h, ha, hb, hc, hd, he, hf),
  omega (arith, h, ha, hb, hc, hd, he, hf),
  omega (arith, h, ha, hb, hc, hd, he, hf),
  omega (arith, h, ha, hb, hc, hd, he, hf),
  omega (arith, h, ha, hb, hc, hd, he, hf),
  omega (arith, h, ha, hb, hc, hd, he, hf),
)

bits_class-class_bits : (c : EntryClass) → bits_class (class_bits c) ≡ c
unfolding bits_class class_bits unit
bits_class-class_bits c =
    let n = class_bits c in
    let (r, m, g, w, s, t) =
      sum_bits (unit c.rr) (unit c.master) (unit c.config) (unit c.forward) (unit c.serverconfig)
        (unit c.template) (unit_le c.rr) (unit_le c.master) (unit_le c.config) (unit_le c.forward)
        (unit_le c.serverconfig) (unit_le c.template) n
        (omega (
          arith,
          bit-unit c.rr 1,
          bit-unit c.master 2,
          bit-unit c.config 4,
          bit-unit c.forward 8,
          bit-unit c.serverconfig 16,
          bit-unit c.template 32,
        )) in
    λ i. record {
      rr = unit_eq c.rr (n / 1 % 2) r i;
      master = unit_eq c.master (n / 2 % 2) m i;
      config = unit_eq c.config (n / 4 % 2) g i;
      forward = unit_eq c.forward (n / 8 % 2) w i;
      serverconfig = unit_eq c.serverconfig (n / 16 % 2) s i;
      template = unit_eq c.template (n / 32 % 2) t i;
    }

bytes_word-word_bytes : (n : ℕ) → n < 2 ^ 32 → bytes_word (word_bytes n) ≡ returns n
unfolding bytes_word word_bytes
bytes_word-word_bytes n h = ap returns (omega (arith, h))

module _ {Uuid Name : Type 0} (db : Database Uuid Name) where
  stored :
      (v : db.Version) (node : Name) (t : RdType) (d : List ℕ)
      → is_success (metadb_rdata_store db v node t d).0 ≡ true
      → db.rdatas (metadb_rdata_store db v node t d).1 node t ≡ ok (d ∷ [])
  unfolding metadb_rdata_store
  stored v node t d h = db.add_there v node t d (ground (arith, h))

  stored_other :
      (v : db.Version) (node : Name) (t u : RdType) (d : List ℕ)
      → u ≢ t
      → db.rdatas (metadb_rdata_store db v node t d).1 node u ≡ db.rdatas v node u
  unfolding metadb_rdata_store
  stored_other v node t u d h = db.add_others v node node t u d (inr h)

  -- What can be read of an entry in the version that is written to.
  pub record Holds (mldap : Mldap db) (node : Name) (class : EntryClass) (generation : ℕ)
      : Type 0 where
    pub version : db.Version
    pub opened : mldap.mdb.newversion ≡ some version
    pub class_there : mldap_class_get db version node ≡ returns (ok class)
    pub generation_there : mldap_generation_get db version node ≡ returns (ok generation)

  abbrev class_data : EntryClass → List ℕ
  class_data c = class_bits c ∷ 0 ∷ 0 ∷ 0 ∷ 0 ∷ 0 ∷ 0 ∷ 0 ∷ 0 ∷ 0 ∷ 0 ∷ 0 ∷ 0 ∷ 0 ∷ 0 ∷ 0 ∷ []

  class_read :
      (v : db.Version) (node : Name) (c : EntryClass)
      → db.rdatas v node rd_aaaa ≡ ok (class_data c ∷ [])
      → mldap_class_get db v node ≡ returns (ok c)
  unfolding mldap_class_get bytes_class metadb_rdataset_get
  class_read v node c h =
      ap (λ x. only_rdata db x >>= λ d. read_ok db bytes_class d) h
      ∙ ap (λ k. returns (ok k)) (bits_class-class_bits c)

  generation_read :
      (v : db.Version) (node : Name) (g : ℕ)
      → g < 2 ^ 32
      → db.rdatas v node rd_a ≡ ok (word_bytes g ∷ [])
      → mldap_generation_get db v node ≡ returns (ok g)
  unfolding mldap_generation_get metadb_rdataset_get
  generation_read v node g b h =
      ap (λ x. only_rdata db x >>= λ d. read_ok db bytes_word d) h
      ∙ ap (λ m. m >>= λ n. returns (ok n)) (bytes_word-word_bytes g b)

  store_entry-Holds :
      (class : EntryClass) (mldap mldap' : Mldap db) (node node' : Name) (v : db.Version)
      → mldap.generation < 2 ^ 32
      → store_entry db class mldap node v ≡ (ok node', mldap')
      → (node' ≡ node) × Holds mldap' node class mldap.generation
  unfolding store_entry mldap_class_store mldap_generation_store
  store_entry-Holds class mldap mldap' node node' v bound h =
      let v1 = (metadb_rdata_store db v node rd_aaaa (class_data class)).1 in
      let word = word_bytes mldap.generation in
      let v2 = (metadb_rdata_store db v1 node rd_a word).1 in
      elim (Bool-cases (is_success (metadb_rdata_store db v node rd_aaaa (class_data class)).0)) [
        | inr e ↦ absurd (ground (arith, h, e))
        | inl e ↦ elim (Bool-cases (is_success (metadb_rdata_store db v1 node rd_a word).0)) [
          | inr f ↦ absurd (ground (arith, h, e, f))
          | inl f ↦
              let same : node' ≡ node = ground (arith, h, e, f) in
              let made : mldap' ≡ written_to db mldap v2 = ground (arith, h, e, f) in
              let kept = stored_other v1 node rd_a rd_aaaa word (λ k. cc) in
              (
                same,
                record {
                  version = v2;
                  opened = ap (λ m. m.mdb.newversion) made;
                  class_there =
                      class_read v2 node class (kept ∙ stored v node rd_aaaa (class_data class) e);
                  generation_there =
                      generation_read v2 node mldap.generation bound (stored v1 node rd_a word f);
                },
              )
        ]
      ]

  -- After `mldap_entry_create` has succeeded, the version that is written to has for the name of the
  -- entry's UUID the class of the entry and the generation of the database, a number of 32 bits.
  pub mldap_entry_create-Holds :
      (uuid : Uuid) (class : EntryClass) (mldap mldap' : Mldap db) (node : Name)
      → mldap.generation < 2 ^ 32
      → mldap_entry_create db uuid class mldap ≡ returns (ok node, mldap')
      → (node ≡ db.mname uuid) × Holds mldap' (db.mname uuid) class mldap.generation
  unfolding mldap_entry_create metadb_writenode
  mldap_entry_create-Holds uuid class mldap mldap' node bound h =
      elim (Option-cases mldap.mdb.newversion) [
        | inl e ↦ absurd (ground (arith, h, e))
        | inr (v, e) ↦ elim (Bool-cases (is_success (db.findnode v (db.mname uuid) true))) [
          | inr f ↦ absurd (ground (arith, h, e, f))
          | inl f ↦
              store_entry-Holds class mldap mldap' (db.mname uuid) node v bound
                (ground (arith, h, e, f))
        ]
      ]
