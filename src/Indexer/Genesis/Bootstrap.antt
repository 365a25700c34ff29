-- ===== src/Indexer/Genesis/Bootstrap.antt =====
-- How the bootstrap of the balances ends.
use rosetta_ergo.Base.{
  ℤ, pos, negsuc, zero, suc, String, Option, none, some, List, [], ◌∷◌, ◌≡◌, ◌≢◌, ◌⊎◌, inl, inr, ap,
  refl, Result, ok, err, panics, blocks, sign, plus, All,
}
use rosetta_ergo.Decimal.{parse_int}
use rosetta_ergo.Sdk.{Amount, BlockIdentifier}
use rosetta_ergo.Config.{BootstrapBalance}
use rosetta_ergo.Indexer.Storage.{Storage}
use rosetta_ergo.Indexer.Genesis.{
  check_balance, set_balances, commit_or_discard, bootstrap_balances,
}

-- The decimal text of a positive integer.
abbrev pub IsPositive : String → Type 0
IsPositive value = (z : ℤ) × (parse_int value ≡ some z) × (sign z ≡ plus)

check_balance-IsPositive :
    (value : String) (o : Option ℤ)
    → parse_int value ≡ o
    → check_balance value ≡ ok tt
    → IsPositive value
unfolding check_balance
check_balance-IsPositive value none e h = cc (rw (e, check_balance) at h)
check_balance-IsPositive value (some (pos zero)) e h = cc (rw (e, check_balance) at h)
check_balance-IsPositive value (some (pos (suc n))) e h = (pos (suc n), e, refl)
check_balance-IsPositive value (some (negsuc n)) e h = cc (rw (e, check_balance) at h)

module _ {DB : Type 0} (s : Storage DB) (genesis : BlockIdentifier) where
  -- From `view` to `view'` by a write of each balance for the genesis block, each of which succeeds
  -- on what the one before it has left.
  abbrev pub AreSet : List BootstrapBalance → DB → DB → Type 0
  AreSet [] view view' = view' ≡ view
  AreSet (b ∷ balances) view view' =
      (next : DB) × (s.set_balance b.account (record { value = b.value; currency = b.currency })
          genesis view
        ≡ (ok tt, next))
      × AreSet balances next view'

  abbrev SetsPositive : List BootstrapBalance → DB → Result (Unit {0}) × DB → Type 0
  SetsPositive balances view (r, view') =
      r ≡ ok tt
      → All (λ (b : BootstrapBalance). IsPositive b.value) balances × AreSet balances view view'

  after_set :
      (b : BootstrapBalance) (balances : List BootstrapBalance) (view : DB) (r : Result (Unit {0}))
      (next : DB)
      → s.set_balance b.account (record { value = b.value; currency = b.currency }) genesis view
        ≡ (r, next)
      → IsPositive b.value
      → SetsPositive balances next (set_balances s genesis balances next)
      → SetsPositive (b ∷ balances) view (elim r [
        | ok u ↦ set_balances s genesis balances next
        | err e ↦ (err e, next)
        | panics ↦ (panics, next)
        | blocks ↦ (blocks, next)
      ])
  after_set b balances view (ok u) next set p later h =
      let (all, sets) = later h in ((p, all), (next, set, sets))
  after_set b balances view (err e) next set p later h = cc
  after_set b balances view panics next set p later h = cc
  after_set b balances view blocks next set p later h = cc

  after_check :
      (b : BootstrapBalance) (balances : List BootstrapBalance) (c : Result (Unit {0})) (view : DB)
      → (c ≡ ok tt → IsPositive b.value)
      → ((view' : DB) → SetsPositive balances view' (set_balances s genesis balances view'))
      → SetsPositive (b ∷ balances) view (elim c [
        | ok u ↦
            let amount : Amount = record { value = b.value; currency = b.currency } in
            let (r, view') = s.set_balance b.account amount genesis view in
            elim r [
              | ok u' ↦ set_balances s genesis balances view'
              | err e ↦ (err e, view')
              | panics ↦ (panics, view')
              | blocks ↦ (blocks, view')
            ]
        | err e ↦ (err e, view)
        | panics ↦ (panics, view)
        | blocks ↦ (blocks, view)
      ])
  after_check b balances (ok u) view p later =
      let set =
        s.set_balance b.account (record { value = b.value; currency = b.currency }) genesis view in
      after_set b balances view set.0 set.1 refl (p (ap ok refl)) (later set.1)
  after_check b balances (err e) view p later = λ h. cc h
  after_check b balances panics view p later = λ h. cc h
  after_check b balances blocks view p later = λ h. cc h

  set_balances-SetsPositive :
      (balances : List BootstrapBalance) (view : DB)
      → SetsPositive balances view (set_balances s genesis balances view)
  unfolding set_balances
  set_balances-SetsPositive [] view = λ h. (tt, refl)
  set_balances-SetsPositive (b ∷ balances) view =
      after_check b balances (check_balance b.value) view
        (λ c. check_balance-IsPositive b.value (parse_int b.value) refl c)
        (λ view'. set_balances-SetsPositive balances view')

  -- The balances were all set, or the database is as it was and an error is returned.
  abbrev pub IsAtomic : List BootstrapBalance → DB → Result (Unit {0}) × DB → Type 0
  IsAtomic balances db (r, db') =
      (All (λ (b : BootstrapBalance). IsPositive b.value) balances
        × (view : DB) × AreSet balances db view
        × (s.commit view db ≡ (r, db')))
      ⊎ ((db' ≡ db) × (r ≢ ok tt))

  discard-IsAtomic :
      (balances : List BootstrapBalance) (db : DB) (x : Result (Unit {0}) × DB)
      → SetsPositive balances db x
      → IsAtomic balances db (commit_or_discard s genesis x db)
  discard-IsAtomic balances db (ok u, view) h =
      let (all, sets) = h refl in inl (all, view, sets, refl)
  discard-IsAtomic balances db (err y, view) h = inr (refl, λ q. cc q)
  discard-IsAtomic balances db (panics, view) h = inr (refl, λ q. cc q)
  discard-IsAtomic balances db (blocks, view) h = inr (refl, λ q. cc q)

  -- The bootstrap of the balances ends in one of two ways. Either all of them are positive integers,
  -- each was written with its account, value and currency for the genesis block, every write
  -- succeeded on what the one before it left, and the result is that of the commit of the last; or
  -- the database is as it was and the bootstrap does not succeed.
  pub bootstrap_balances-IsAtomic :
      (balances : List BootstrapBalance) (db db' : DB) (r : Result (Unit {0}))
      → bootstrap_balances s genesis balances db ≡ (r, db')
      → (All (λ (b : BootstrapBalance). IsPositive b.value) balances
          × (view : DB) × AreSet balances db view
          × (s.commit view db ≡ (r, db')))
        ⊎ ((db' ≡ db) × (r ≢ ok tt))
  unfolding bootstrap_balances
  bootstrap_balances-IsAtomic balances db db' r h = rw h at (
      discard-IsAtomic balances db (set_balances s genesis balances db)
        (set_balances-SetsPositive balances db))
