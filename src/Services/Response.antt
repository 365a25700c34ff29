-- ===== src/Services/Response.antt =====
-- What an endpoint returns: a response, or an error of the API. A panic of the handler is kept
-- apart.
pub mod Announced
use rosetta_ergo.Base.{
  String, Bool, true, false, not, Option, none, some, Result, ok, err, panics, blocks, ◌==◌,
  if◌then◌else◌,
}
use rosetta_ergo.Sdk.{RosettaError}
use rosetta_ergo.Errutil.{err_unavailable_offline, wrap_err}
use rosetta_ergo.Config.{Configuration, online}

pub data Response {ℓ} (A : Type ℓ) : Type ℓ where
  response : A → Response A
  failure : RosettaError → Response A
  crashes : Response A

infixl 5 ◌>>=◌
abbrev pub ◌>>=◌ {ℓ κ} : {A : Type ℓ} {B : Type κ} → Response A → (A → Response B) → Response B
response a >>= f = f a
failure e >>= f = failure e
crashes >>= f = crashes

-- `if err != nil { return nil, errutil.WrapErr(r_err, err) }`
abbrev pub or_fail {ℓ} : {A : Type ℓ} → RosettaError → Result A → Response A
or_fail r_err (ok a) = response a
or_fail r_err (err e) = failure (wrap_err r_err (some e))
or_fail r_err panics = crashes
or_fail r_err blocks = crashes

-- `if s.cfg.Mode != config.Online { return nil, errutil.WrapErr(ErrUnavailableOffline, nil) }`
abbrev pub when_online {ℓ} : {A : Type ℓ} → Configuration → Response A → Response A
when_online cfg r =
    if cfg.mode == online then r else failure (wrap_err err_unavailable_offline none)
