-- ===== src/SyncPtr/Functions.antt =====
-- A database that is a serial number and one optional record, which shows that what is taken of the
-- DNS library can hold.
use bind_dyndb_ldap_pagure_i.Prelude.{
  ℕ, ◌+◌, ◌≡◌, ◌≢◌, sym, ap, Bool, true, false, Option, none, some, List, [], ◌∷◌, ◌==◌, arith,
}
use bind_dyndb_ldap_pagure_i.Isc.{IscResult, success, nxdomain, ok, err}
use bind_dyndb_ldap_pagure_i.Zone.{Dns, Rdataset, DiffOp, op_add, op_del}

-- A change of the PTR record or of the serial number.
abbrev pub Change : Type 0
Change = DiffOp × Bool × ℕ

-- The serial number and the PTR record.
abbrev pub Data : Type 0
Data = ℕ × Option ℕ

abbrev pub search_ptr : Data → ℕ → IscResult × ℕ × Option (Rdataset ℕ)
search_ptr (serial, none) n = (nxdomain, n, none)
search_ptr (serial, some p) n = (success, n, some (record { ttl = 60; rdatas = p ∷ [] }))

abbrev pub change : Data → Change → Data
change (serial, ptr) (op_add, true, n) = (n, ptr)
change (serial, ptr) (op_add, false, p) = (serial, some p)
change (serial, ptr) (op_del, false, p) = (serial, none)
change v _ = v

abbrev pub change_all : Data → List Change → Data
change_all v [] = v
change_all v (t ∷ rest) = change_all (change v t) rest

abbrev pub put_last : List Change → Change → List Change
put_last [] t = t ∷ []
put_last (s ∷ rest) t = s ∷ put_last rest t

pub n_equal : (n : ℕ) → (n == n) ≡ true
n_equal n = ground arith

pub search_ptr_success :
    (v : Data) (n found : ℕ) (bound : Option (Rdataset ℕ))
    → search_ptr v n ≡ (success, found, bound)
    → ((found == n) ≡ true) × (s : Rdataset ℕ) × (bound ≡ some s) × (s.rdatas ≢ [])
search_ptr_success (serial, none) n found bound h = absurd (ground (arith, h))
search_ptr_success (serial, some p) n found bound h = (
  ground (arith, h, n_equal n),
  record { ttl = 60; rdatas = p ∷ [] },
  sym (ap (λ x. x.2) h),
  λ e. ground (arith, e),
)

pub ok_ne_err : {A : Type 0} {a : A} {r : IscResult} → ok a ≡ err r → ⊥
ok_ne_err h = ground (arith, h)

pub soatuple_lem :
    (v : Data) (o : DiffOp) (t : Change) → ok (o, true, v.0) ≡ ok t → (t.0 ≡ o) × (t.1 ≡ true)
soatuple_lem v o t h = ground (arith, h)

abbrev pub functions : Dns ℕ
functions = record {
  Rdata = ℕ;
  Tuple = Change;
  Version = Data;
  Journal = List Change;
  equal = λ a b. a == b;
  isabsolute = λ n. true;
  getdb = success;
  newversion = λ v. ok v;
  find = search_ptr;
  tostruct = λ d. ok d;
  fromstruct = λ n. ok n;
  difftuple_create = λ o n ttl d. ok (o, false, d);
  appendminimal = put_last;
  createsoatuple = λ v o. ok (o, true, v.0);
  op = λ t. t.0;
  is_soa = λ t. t.1;
  getserial = λ t. t.2;
  setserial = λ n t. (t.0, t.1, n);
  update_soaserial = λ n. n + 1;
  journal_open = λ j. (success, j);
  journal_write = λ j d. (success, d);
  diff_apply = λ v d. (success, change_all v d);
  find_success = search_ptr_success;
  soatuple = soatuple_lem;
  tostruct_failed = λ d r h. absurd (ok_ne_err h);
  fromstruct_failed = λ n r h. absurd (ok_ne_err h);
  createsoatuple_failed = λ v o r h. absurd (ok_ne_err h);
  difftuple_create_failed = λ o n ttl d r h. absurd (ok_ne_err h);
}
