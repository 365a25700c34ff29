-- ===== src/Base/Exec.antt =====
-- Methods that change an object and may fail: what was written before a failure stays written.
use mathlib.Core.Path.{◌≡◌}
use rosetta_ergo.Base.Errors.{Err, Result, ok, err, panics, blocks}

abbrev pub Exec {ℓ} : Type ℓ → Type ℓ → Type ℓ
Exec S A = S → Result A × S

module _ {ℓ} {S A : Type ℓ} where
  -- A step that reads nothing and writes nothing.
  abbrev pub lift : Result A → Exec S A
  lift r s = (r, s)

  abbrev pub gets : (S → A) → Exec S A
  gets f s = (ok (f s), s)

module _ {ℓ} {S A B : Type ℓ} where
  abbrev pub proceed : Result A → (A → Exec S B) → Exec S B
  proceed (ok a) f s = f a s
  proceed (err e) f s = (err e, s)
  proceed panics f s = (panics, s)
  proceed blocks f s = (blocks, s)

  infixl 5 ◌>>=◌
  abbrev pub ◌>>=◌ : Exec S A → (A → Exec S B) → Exec S B
  ◌>>=◌ m f s = let (r, s') = m s in proceed r f s'

abbrev pub modify : {S : Type 0} → (S → S) → Exec S Unit
modify f s = (ok tt, f s)

infixl 5 ◌>>◌
abbrev pub ◌>>◌ : {S B : Type 0} → Exec S Unit → Exec S B → Exec S B
m >> k = m >>= λ _. k

module _ {S A B : Type 0} (m : Exec S A) (f : A → Exec S B) (s s' : S) where
  pub >>=-ok : (a : A) → m s ≡ (ok a, s') → (m >>= f) s ≡ f a s'
  >>=-ok a h = rw h

  pub >>=-err : (e : Err) → m s ≡ (err e, s') → (m >>= f) s ≡ (err e, s')
  >>=-err e h = rw h
