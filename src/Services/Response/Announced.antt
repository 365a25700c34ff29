-- ===== src/Services/Response/Announced.antt =====
-- How an error of the API reaches the caller: through the parts of which the endpoints of
-- pkg/services are built.
use rosetta_ergo.Base.{
  Option, List, Result, ok, err, panics, blocks, Err, some, none, ◌≡◌, refl, inl, inr, Among, false,
  eq_iff, Bool-cases, ◌==◌,
}
use rosetta_ergo.Sdk.{RosettaError}
use rosetta_ergo.Errutil.{errors, err_unavailable_offline, wrap_err}
use rosetta_ergo.Config.{Configuration, online}
use rosetta_ergo.Services.Response.{
  Response, response, failure, crashes, ◌>>=◌, or_fail, when_online,
}

-- One of the listed errors but for the details.
abbrev pub IsListed : List RosettaError → RosettaError → Type 0
IsListed listed r =
    (base : RosettaError) × Among base listed
    × (r.code ≡ base.code)
    × (r.message ≡ base.message)
    × (r.retriable ≡ base.retriable)

pub wrap_err-IsListed :
    (base : RosettaError) (details : Option Err)
    → Among base errors
    → IsListed errors (wrap_err base details)
unfolding wrap_err
wrap_err-IsListed base details h = (base, h, refl, refl, refl)

-- A response that fails with a listed error, if it fails.
unfoldable pub FailsListed {ℓ} : {A : Type ℓ} → List RosettaError → Response A → Type 0
FailsListed listed (response a) = Unit
FailsListed listed (failure r) = IsListed listed r
FailsListed listed crashes = Unit

pub >>=-FailsListed {ℓ κ} :
    {A : Type ℓ} {B : Type κ} (m : Response A) (f : A → Response B)
    → FailsListed errors m
    → ((a : A) → FailsListed errors (f a))
    → FailsListed errors (m >>= f)
unfolding FailsListed
>>=-FailsListed (response a) f h k = k a
>>=-FailsListed (failure r) f h k = h
>>=-FailsListed crashes f h k = tt

pub response-FailsListed {ℓ} : {A : Type ℓ} (a : A) → FailsListed errors (response a)
unfolding FailsListed
response-FailsListed a = tt

pub or_fail-FailsListed {ℓ} :
    {A : Type ℓ} (r_err : RosettaError) (r : Result A)
    → Among r_err errors
    → FailsListed errors (or_fail r_err r)
unfolding FailsListed
or_fail-FailsListed r_err (ok a) h = tt
or_fail-FailsListed r_err (err e) h = wrap_err-IsListed r_err (some e) h
or_fail-FailsListed r_err panics h = tt
or_fail-FailsListed r_err blocks h = tt

pub when_online-FailsListed {ℓ} :
    {A : Type ℓ} (cfg : Configuration) (r : Response A)
    → FailsListed errors r
    → FailsListed errors (when_online cfg r)
unfolding FailsListed
when_online-FailsListed cfg r h = elim (Bool-cases (cfg.mode == online)) [
  | inl on ↦ rw on h
  | inr off ↦ rw off (wrap_err-IsListed err_unavailable_offline none (inr (inl refl)))
]

pub when_online_refused {ℓ} :
    {A : Type ℓ} (cfg : Configuration) (r : Response A)
    → cfg.mode == online ≡ false
    → when_online cfg r ≡ failure (wrap_err err_unavailable_offline none)
when_online_refused cfg r off = rw off

pub >>=-eq-response {ℓ κ} :
    {A : Type ℓ} {B : Type κ} (m : Response A) (f : A → Response B) {b : B}
    → m >>= f ≡ response b
    → (a : A) × (m ≡ response a) × (f a ≡ response b)
>>=-eq-response (response a) f h = (a, refl, h)
>>=-eq-response (failure r) f h = cc
>>=-eq-response crashes f h = cc

pub or_fail-eq-response {ℓ} :
    {A : Type ℓ} (r_err : RosettaError) (r : Result A) {a : A}
    → or_fail r_err r ≡ response a
    → r ≡ ok a
or_fail-eq-response r_err (ok x) h = cc
or_fail-eq-response r_err (err x) h = cc
or_fail-eq-response r_err panics h = cc
or_fail-eq-response r_err blocks h = cc

pub when_online-eq-response {ℓ} :
    {A : Type ℓ} (cfg : Configuration) (r : Response A) {a : A}
    → when_online cfg r ≡ response a
    → (cfg.mode ≡ online) × (r ≡ response a)
when_online-eq-response cfg r h = elim (Bool-cases (cfg.mode == online)) [
  | inl on ↦ ((eq_iff cfg.mode online).0 on, rw on at h)
  | inr off ↦ cc (rw off at h)
]

pub response-eq {ℓ} : {A : Type ℓ} {a b : A} → response a ≡ response b → a ≡ b
response-eq h = cc
