-- ===== src/Strings.antt =====
-- src/str.c: strings in a buffer that grows. A buffer is the list of its bytes; each read and write
-- outside of it is `undefined`. A text, the argument of type `const char *`, is the list of its
-- bytes without the terminating NUL, and `none` is NULL. Sizes are 64-bit numbers.
pub mod Memory
pub mod Growth
pub mod Alloc
pub mod Content
pub mod Chain
mod Tests
use bind_dyndb_ldap_pagure_i.Prelude.{
  ℕ, zero, suc, ◌+◌, ◌*◌, ◌%◌, ◌^◌, Bool, true, false, Option, none, some, List, [], ◌∷◌, ◌++◌,
  length, take, drop, ltb, leb, ◌==◌, if◌then◌else◌,
}
use bind_dyndb_ldap_pagure_i.Isc.{
  IscResult, success, nomemory, Run, returns, undefined, blocks, ◌>>=◌,
}
use bind_dyndb_ldap_pagure_i.Strings.Memory.{read, write, strlen}

pub record LdString : Type 0 where
  pub buffer : Option (List ℕ)
  pub allocated : ℕ

abbrev pub size_max : ℕ
size_max = 2 ^ 64

abbrev pub alloc_base_size : ℕ
alloc_base_size = 16

abbrev pub max : ℕ → ℕ → ℕ
max a b = if ltb b a then a else b

-- `while (new_size <= len) new_size *= 2;`
unfoldable pub grow : ℕ → ℕ → ℕ → Run ℕ
grow zero new_size len = blocks
grow (suc fuel) new_size len =
    let again = grow fuel (new_size * 2 % size_max) len in
    if leb new_size len then again else returns new_size

-- More doublings than a 64-bit size allows.
abbrev pub grow_fuel : ℕ
grow_fuel = 65

-- The contents of the new buffer; `len` counts the terminating NUL.
unfoldable pub move_to : LdString → List ℕ → ℕ → Run (List ℕ)
move_to str new_buffer len = elim str.buffer [
  | none ↦ write new_buffer 0 (0 ∷ [])
  | some old ↦ do
    copied ← read old str.allocated
    filled ← write new_buffer 0 copied
    write filled len (0 ∷ [])
]

abbrev moved : ℕ → List ℕ → IscResult × LdString
moved new_size new_buffer = (success, record { buffer = some new_buffer; allocated = new_size })

-- `get` is `isc_mem_get`: NULL, or a buffer of that size with any contents. `len` counts the NUL.
unfoldable pub alloc_more : (ℕ → Option (List ℕ)) → LdString → ℕ → Run (IscResult × LdString)
alloc_more get str len = do
  new_size ← grow grow_fuel (max str.allocated alloc_base_size) len
  elim (get new_size) [
    | none ↦ returns (nomemory, str)
    | some new_buffer ↦ do filled ← move_to str new_buffer len; returns (moved new_size filled)
  ]

unfoldable pub str_alloc : (ℕ → Option (List ℕ)) → LdString → ℕ → Run (IscResult × LdString)
str_alloc get str len =
    if ltb len str.allocated
    then returns (success, str)
    else alloc_more get str ((len + 1) % size_max)

-- `strlen` of a NULL pointer has no meaning.
abbrev strlen_at : Option (List ℕ) → Run ℕ
strlen_at none = undefined
strlen_at (some b) = strlen b

unfoldable pub str_len_internal : LdString → Run ℕ
str_len_internal str = if str.allocated == 0 then returns 0 else strlen_at str.buffer

unfoldable pub str_len : LdString → Run ℕ
unfolding str_len_internal
str_len str = str_len_internal str

-- A copy of `xs` to `str->data + i`.
abbrev pub put_at : LdString → ℕ → List ℕ → Run (IscResult × LdString)
put_at str i xs = elim str.buffer [
  | none ↦ undefined
  | some b ↦ do b' ← write b i xs; returns (success, record str { buffer = some b' })
]

unfoldable pub str_clear : LdString → Run (IscResult × LdString)
str_clear dest = if dest.allocated == 0 then returns (success, dest) else put_at dest 0 (0 ∷ [])

abbrev then_put : IscResult × LdString → ℕ → List ℕ → Run (IscResult × LdString)
then_put (success, str) i xs = put_at str i xs
then_put (r, str) i xs = returns (r, str)

unfoldable pub str_init_char :
    (ℕ → Option (List ℕ)) → LdString → Option (List ℕ) → Run (IscResult × LdString)
str_init_char get dest none = returns (success, dest)
str_init_char get dest (some src) = do
  allocated ← str_alloc get dest (length src)
  then_put allocated 0 (src ++ 0 ∷ [])

unfoldable pub str_cat_char :
    (ℕ → Option (List ℕ)) → LdString → Option (List ℕ) → Run (IscResult × LdString)
str_cat_char get dest none = returns (success, dest)
str_cat_char get dest (some src) = do
  dest_size ← str_len_internal dest
  (if length src == 0 then returns (success, dest) else do
    allocated ← str_alloc get dest ((dest_size + length src) % size_max)
    then_put allocated dest_size (src ++ 0 ∷ []))

-- `src` is the memory at the pointer, of which `len` bytes are read.
unfoldable pub str_cat_char_len :
    (ℕ → Option (List ℕ)) → LdString → Option (List ℕ) → ℕ → Run (IscResult × LdString)
str_cat_char_len get dest none len = returns (success, dest)
str_cat_char_len get dest (some src) len = if len == 0 then returns (success, dest) else do
  dest_size ← str_len_internal dest
  allocated ← str_alloc get dest ((dest_size + len) % size_max)
  copied ← read src len
  then_put allocated dest_size (copied ++ 0 ∷ [])
