-- ===== src/Metadata/Functions.antt =====
-- A database that is a function, which shows that what is taken of the database of BIND can hold.
use bind_dyndb_ldap_pagure_i.Prelude.{
  ℕ, ◌+◌, ◌≡◌, ◌≢◌, ◌⊎◌, inl, inr, Bool, true, false, ◌&&◌, some, List, [], ◌∷◌, ◌==◌,
  if◌then◌else◌, arith,
}
use bind_dyndb_ldap_pagure_i.Isc.{success, nomore, failure, notfound, Result, ok, err}
use bind_dyndb_ldap_pagure_i.Metadata.{RdType, rd_a, rd_aaaa, rd_rp, Database}

abbrev pub same_rd : RdType → RdType → Bool
same_rd rd_a rd_a = true
same_rd rd_aaaa rd_aaaa = true
same_rd rd_rp rd_rp = true
same_rd _ _ = false

abbrev pub Data : Type 0
Data = ℕ → RdType → Result (List (List ℕ))

abbrev pub add : Data → ℕ → RdType → List ℕ → Data
add v n t d = λ m u. if m == n && same_rd u t then ok (d ∷ []) else v m u

pub add_there_lem : (v : Data) (n : ℕ) (t : RdType) (d : List ℕ) → add v n t d n t ≡ ok (d ∷ [])
add_there_lem v n rd_a d = ground arith
add_there_lem v n rd_aaaa d = ground arith
add_there_lem v n rd_rp d = ground arith

same_rd_sound : (u t : RdType) → same_rd u t ≡ true → u ≡ t
same_rd_sound u t h = ground (arith, h)

pub add_others_lem :
    (v : Data) (n m : ℕ) (t u : RdType) (d : List ℕ) → (m ≢ n) ⊎ (u ≢ t) → add v n t d m u ≡ v m u
add_others_lem v n m t u d (inl h) = ground (arith, h)
add_others_lem v n m t u d (inr h) = ground (arith, h, same_rd_sound u t)

abbrev pub names_in : List ℕ → Result (ℕ × ℕ)
names_in (a ∷ b ∷ rest) = ok (a, b)
names_in _ = err failure

-- UUIDs are numbers, and the name of one is the next number; 0 is the root.
abbrev pub functions : Database ℕ ℕ
functions = record {
  Version = Data;
  rdatas = λ v n t. v n t;
  newversion = λ v. ok v;
  findnode = λ v n create. success;
  addrdataset = λ v n t d. (success, add v n t d);
  deleterdataset = λ v n t. (success, v);
  types = λ v n. [];
  after = λ v n. ok (6 ∷ 8 ∷ [], nomore);
  issubdomain = λ n m. true;
  root = 0;
  mname = λ u. u + 1;
  uuid_of = λ n. some n;
  rp = λ a b. ok (a ∷ b ∷ []);
  rp_names = names_in;
  add_there = λ v n t d h. add_there_lem v n t d;
  add_others = λ v n m t u d h. add_others_lem v n m t u d h;
}

abbrev pub nothing : Data
nothing n t = err notfound
