-- ===== src/Base/Errors.antt =====
-- Go's error values, and the outcome of a call that returns a value and an error, or panics.
use Prim.Native.String.{String}
use mathlib.Core.Path.{◌≡◌, refl}
use mathlib.Core.Logic.{◌⊎◌, inl, inr}
use mathlib.Core.Bool.{Bool, true, false}
use mathlib.Core.Option.{Option, none, some}
use mathlib.Core.List.{List}
use rosetta_ergo.Base.Int.{ℤ}

-- The error values that `errors.Is` is asked about: those of the program, and those that the
-- storage errors, the syncer and the context of the libraries declare.
pub data Sentinel : Type 0 where
  missing_transaction : Sentinel
  head_block_not_found coin_not_found account_missing : Sentinel
  orphan_head : Sentinel
  canceled : Sentinel
  not_implemented : Sentinel

-- An argument of a format string.
pub data Arg : Type 0 where
  str : String → Arg
  int : ℤ → Arg

-- `errorf` is `errors.New`, or `fmt.Errorf` that wraps nothing; `wrap` is `fmt.Errorf` with `%w`.
pub data Err : Type 0 where
  sentinel : Sentinel → Err
  errorf : String → List Arg → Err
  wrap : Err → String → List Arg → Err

abbrev pub same : Sentinel → Sentinel → Bool
same missing_transaction missing_transaction = true
same head_block_not_found head_block_not_found = true
same coin_not_found coin_not_found = true
same account_missing account_missing = true
same orphan_head orphan_head = true
same canceled canceled = true
same not_implemented not_implemented = true
same _ _ = false

-- `errors.Is`: the value itself, or one that it wraps.
abbrev pub is_error : Err → Sentinel → Bool
is_error (sentinel s) t = same s t
is_error (errorf f args) t = false
is_error (wrap e f args) t = is_error e t

-- `panics` is a nil dereference, a channel closed twice or an unlock of a mutex that is free;
-- `blocks` is a call that never returns, since it waits for a mutex that is held.
pub data Result {ℓ} (A : Type ℓ) : Type ℓ where
  ok : A → Result A
  err : Err → Result A
  panics : Result A
  blocks : Result A

-- A call and what follows it where it returns without an error.
infixl 5 ◌>>◌ ◌>>=◌
abbrev pub ◌>>=◌ {ℓ κ} : {A : Type ℓ} {B : Type κ} → Result A → (A → Result B) → Result B
panics >>= next = panics
blocks >>= next = blocks
err failed >>= next = err failed
ok value >>= next = next value

abbrev pub ◌>>◌ {κ} : {B : Type κ} → Result (Unit {0}) → Result B → Result B
done >> rest = done >>= λ u. rest

-- `return nil, fmt.Errorf("%w: …", err)`.
abbrev pub wrap_with {ℓ} : {A : Type ℓ} → String → List Arg → Result A → Result A
wrap_with f args (ok a) = ok a
wrap_with f args (err e) = err (wrap e f args)
wrap_with f args panics = panics
wrap_with f args blocks = blocks

-- `*p`.
abbrev pub deref {ℓ} : {A : Type ℓ} → Option A → Result A
deref none = panics
deref (some a) = ok a

-- What a sequence of two calls returned, the first call returned something for it.
pub >>=-eq-ok {ℓ κ} :
    {A : Type ℓ} {B : Type κ} (first : Result A) (next : A → Result B) {out : B}
    → first >>= next ≡ ok out
    → (value : A) × (first ≡ ok value) × (next value ≡ ok out)
>>=-eq-ok panics next h = cc
>>=-eq-ok blocks next h = cc
>>=-eq-ok (err failed) next h = cc
>>=-eq-ok (ok value) next h = (value, refl, h)

pub wrap_with-eq-ok {ℓ} :
    {A : Type ℓ} (m : Result A) (f : String) (args : List Arg) {a : A}
    → wrap_with f args m ≡ ok a
    → m ≡ ok a
wrap_with-eq-ok (ok a) f args h = h
wrap_with-eq-ok (err e) f args h = cc
wrap_with-eq-ok panics f args h = cc
wrap_with-eq-ok blocks f args h = cc

pub deref-eq-ok {ℓ} : {A : Type ℓ} (o : Option A) {a : A} → deref o ≡ ok a → o ≡ some a
deref-eq-ok none h = cc
deref-eq-ok (some b) h = cc

-- A bind succeeds if both of its steps do.
abbrev pub Succeeds {ℓ} : {A : Type ℓ} → Result A → Type ℓ
Succeeds {A} m = (a : A) × (m ≡ ok a)

pub >>=-Succeeds {ℓ κ} :
    {A : Type ℓ} {B : Type κ} (m : Result A) (f : A → Result B) {a : A}
    → m ≡ ok a
    → Succeeds (f a)
    → Succeeds (m >>= f)
>>=-Succeeds (ok x) f h (b, e) = (b, cc)
>>=-Succeeds (err x) f h r = cc
>>=-Succeeds panics f h r = cc
>>=-Succeeds blocks f h r = cc

pub wrap_with-ok {ℓ} :
    {A : Type ℓ} (m : Result A) (f : String) (args : List Arg) {a : A}
    → m ≡ ok a
    → wrap_with f args m ≡ ok a
wrap_with-ok (ok a) f args h = h
wrap_with-ok (err e) f args h = cc
wrap_with-ok panics f args h = cc
wrap_with-ok blocks f args h = cc

pub deref-ok {ℓ} : {A : Type ℓ} (o : Option A) {a : A} → o ≡ some a → deref o ≡ ok a
deref-ok none h = cc
deref-ok (some b) h = cc

-- The call returns, with a value or an error.
abbrev pub Answers {ℓ} : {A : Type ℓ} → Result A → Type 0
Answers (ok a) = Unit
Answers (err e) = Unit
Answers panics = ⊥
Answers blocks = ⊥

pub Answers-cases {ℓ} :
    {A : Type ℓ} (r : Result A) → Answers r → ((a : A) × (r ≡ ok a)) ⊎ ((e : Err) × (r ≡ err e))
Answers-cases (ok a) h = inl (a, refl)
Answers-cases (err e) h = inr (e, refl)
Answers-cases panics h = absurd h
Answers-cases blocks h = absurd h
