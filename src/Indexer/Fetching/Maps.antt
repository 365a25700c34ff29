-- ===== src/Indexer/Fetching/Maps.antt =====
-- Keys and entries of the coin map while `findCoins` fills it.
use rosetta_ergo.Base.{String, some, [], ◌∷◌, ◌≡◌, ◌∙◌, Bool-cases, inl, inr, eq_iff, eq_refl, ◌==◌}
use rosetta_ergo.Base.GoMap.{GoMap, get, put, get-put}
use rosetta_ergo.Sdk.{AccountCoin}
use rosetta_ergo.Indexer.Fetching.{put_all}

abbrev pub HasKey : String → GoMap AccountCoin → Type 0
HasKey k m = (a : AccountCoin) × (get k m ≡ some a)

pub put-HasKey_same : (k : String) (a : AccountCoin) (m : GoMap AccountCoin) → HasKey k (put k a m)
put-HasKey_same k a m = (a, get-put k k a m ∙ rw (eq_refl k))

pub put-HasKey :
    (k j : String) (a : AccountCoin) (m : GoMap AccountCoin) → HasKey j m → HasKey j (put k a m)
put-HasKey k j a m (b, h) = elim (Bool-cases (k == j)) [
  | inl same ↦ (a, get-put k j a m ∙ rw same)
  | inr other ↦ (b, get-put k j a m ∙ rw other h)
]

pub put_all-HasKey :
    (k : String) (found m : GoMap AccountCoin) → HasKey k m → HasKey k (put_all found m)
unfolding put_all
put_all-HasKey k [] m h = h
put_all-HasKey k ((j, v) ∷ found) m h = put_all-HasKey k found (put j v m) (put-HasKey j k v m h)

pub put_all-HasKey_found :
    (k : String) (found m : GoMap AccountCoin) → HasKey k found → HasKey k (put_all found m)
unfolding put_all get
put_all-HasKey_found k [] m (a, h) = cc
put_all-HasKey_found k ((j, v) ∷ found) m (a, h) = elim (Bool-cases (j == k)) [
  | inl same ↦ put_all-HasKey k found (put j v m) (v, get-put j k v m ∙ rw same)
  | inr other ↦ put_all-HasKey_found k found (put j v m) (a, rw other at h)
]

module _ (P : String → AccountCoin → Type 0) where
  -- Each entry fits its key.
  abbrev pub AllFit : GoMap AccountCoin → Type 0
  AllFit [] = Unit
  AllFit ((k, a) ∷ m) = P k a × AllFit m

  pub put-AllFit :
      (k : String) (a : AccountCoin) (m : GoMap AccountCoin) → P k a → AllFit m → AllFit (put k a m)
  unfolding put
  put-AllFit k a [] p h = (p, tt)
  put-AllFit k a ((j, b) ∷ m) p (q, h) = elim (Bool-cases (j == k)) [
    | inl same ↦ rw same (p, h)
    | inr other ↦ rw other (q, put-AllFit k a m p h)
  ]

  pub put_all-AllFit :
      (found m : GoMap AccountCoin) → AllFit found → AllFit m → AllFit (put_all found m)
  unfolding put_all
  put_all-AllFit [] m f h = h
  put_all-AllFit ((k, a) ∷ found) m (p, f) h =
      put_all-AllFit found (put k a m) f (put-AllFit k a m p h)

  pub get-AllFit :
      (k : String) (a : AccountCoin) (m : GoMap AccountCoin) → AllFit m → get k m ≡ some a → P k a
  unfolding get
  get-AllFit k a [] h g = cc
  get-AllFit k a ((j, b) ∷ m) (p, h) g = elim (Bool-cases (j == k)) [
    | inl same ↦
        let is_key : j ≡ k = (eq_iff j k).0 same in
        let is_coin : b ≡ a = cc (rw same at g) in rw⁻¹ is_coin (rw⁻¹ is_key p)
    | inr other ↦ get-AllFit k a m h (rw other at g)
  ]
