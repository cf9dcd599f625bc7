-- ===== src/Isc.antt =====
-- The result codes of the ISC and DNS libraries (`isc_result_t`) as far as the program tells them
-- apart, and how a call ends. `other` stands for every code that the program only passes on.
use bind_dyndb_ldap_pagure_i.Prelude.{ℕ, String, ◌≡◌, refl, subst, ◌⊎◌, inl, inr, Bool, true, false}

pub data IscResult : Type 0 where
  success nomemory timedout notfound exists ignore failure lockbusy : IscResult
  unexpected unexpectedend unexpectedtoken notimplemented nospace nomore shuttingdown : IscResult
  partialmatch disallowed badescape badownername emptyname neworigin unchanged : IscResult
  badnumber range nxdomain nxrrset singleton notauthoritative noperm : IscResult
  notconnected notloaded badzone uptodate dynamic continue : IscResult
  other : ℕ → IscResult

abbrev pub is_success : IscResult → Bool
is_success success = true
is_success _ = false

abbrev pub is_notfound : IscResult → Bool
is_notfound notfound = true
is_notfound _ = false

abbrev pub is_ignore : IscResult → Bool
is_ignore ignore = true
is_ignore _ = false

-- A function with one output parameter, which is set on ISC_R_SUCCESS only.
pub data Result {ℓ} (A : Type ℓ) : Type ℓ where
  ok : A → Result A
  err : IscResult → Result A

-- How a call ends: it returns; REQUIRE, INSIST, RUNTIME_CHECK or a fatal error stops the process;
-- C gives what it does no meaning; or it waits for ever.
pub data Run {ℓ} (A : Type ℓ) : Type ℓ where
  returns : A → Run A
  aborts undefined blocks : Run A

infixl 5 ◌>>=◌ ◌>>◌
abbrev pub ◌>>=◌ {ℓ κ} : {A : Type ℓ} {B : Type κ} → Run A → (A → Run B) → Run B
returns a >>= f = f a
aborts >>= f = aborts
undefined >>= f = undefined
blocks >>= f = blocks

abbrev pub ◌>>◌ {ℓ} : {B : Type ℓ} → Run (Unit {0}) → Run B → Run B
m >> k = m >>= λ _. k

-- REQUIRE, INSIST and RUNTIME_CHECK
abbrev pub require : Bool → Run (Unit {0})
require true = returns tt
require false = aborts

-- What `isc_parse_uint32` finds: a number, ISC_R_BADNUMBER or ISC_R_RANGE.
pub data Parsed : Type 0 where
  number : ℕ → Parsed
  bad_number out_of_range : Parsed

-- What the ISC library does that the settings use: `isc_parse_uint32(.., 10)`, whether an
-- allocation of so many bytes succeeds, and the result of `isc_buffer_allocate`.
pub record Isc : Type 0 where
  pub parse_uint32 : String → Parsed
  pub alloc : ℕ → Bool
  pub buffer_allocate : IscResult

-- A mutex as one call sees it: the pointer may be NULL.
pub data Mutex : Type 0 where
  null unlocked locked : Mutex

abbrev pub lock : Mutex → Run Mutex
lock null = undefined
lock unlocked = returns locked
lock locked = blocks

-- To unlock a mutex that is not locked has no defined meaning.
abbrev pub unlock : Mutex → Run Mutex
unlock null = undefined
unlock unlocked = undefined
unlock locked = returns unlocked

pub Run-cases {ℓ} :
    {A : Type ℓ} (m : Run A)
    → ((a : A) × (m ≡ returns a)) ⊎ ((m ≡ aborts) ⊎ (m ≡ undefined) ⊎ (m ≡ blocks))
Run-cases (returns a) = inl (a, refl)
Run-cases aborts = inr (inl refl)
Run-cases undefined = inr (inr (inl refl))
Run-cases blocks = inr (inr (inr refl))

pub Result-cases {ℓ} :
    {A : Type ℓ} (m : Result A) → ((a : A) × (m ≡ ok a)) ⊎ ((r : IscResult) × (m ≡ err r))
Result-cases (ok a) = inl (a, refl)
Result-cases (err r) = inr (r, refl)

-- What is true of the value of a call that returns.
abbrev pub Ensures {ℓ} : {A : Type ℓ} → (A → Type 0) → Run A → Type 0
Ensures P (returns a) = P a
Ensures P aborts = Unit
Ensures P undefined = Unit
Ensures P blocks = Unit

pub Ensures-bind {ℓ κ} :
    {A : Type ℓ} {B : Type κ} (P : A → Type 0) (Q : B → Type 0) (m : Run A) (f : A → Run B)
    → Ensures P m
    → ((a : A) → P a → Ensures Q (f a))
    → Ensures Q (m >>= f)
Ensures-bind P Q (returns a) f p h = h a p
Ensures-bind P Q aborts f p h = tt
Ensures-bind P Q undefined f p h = tt
Ensures-bind P Q blocks f p h = tt

-- Nothing need be known of the first call.
pub Ensures-after {ℓ κ} :
    {A : Type ℓ} {B : Type κ} (Q : B → Type 0) (m : Run A) (f : A → Run B)
    → ((a : A) → Ensures Q (f a))
    → Ensures Q (m >>= f)
Ensures-after Q (returns a) f h = h a
Ensures-after Q aborts f h = tt
Ensures-after Q undefined f h = tt
Ensures-after Q blocks f h = tt

pub Ensures-mono {ℓ} :
    {A : Type ℓ} (P Q : A → Type 0) (m : Run A) → Ensures P m → ((a : A) → P a → Q a) → Ensures Q m
Ensures-mono P Q (returns a) p h = h a p
Ensures-mono P Q aborts p h = tt
Ensures-mono P Q undefined p h = tt
Ensures-mono P Q blocks p h = tt

pub Ensures-returns {ℓ} :
    {A : Type ℓ} (P : A → Type 0) (m : Run A) (a : A) → m ≡ returns a → Ensures P m → P a
Ensures-returns P m a e p = subst (Ensures P) e p
