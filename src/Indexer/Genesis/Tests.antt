-- ===== src/Indexer/Genesis/Tests.antt =====
-- The bootstrap of one balance.
use rosetta_ergo.Base.{ℕ, List, [], ◌∷◌, ◌≡◌, ◌≢◌, ◌⊎◌, refl, Result, ok, All}
use rosetta_ergo.Decimal.{parse_int}
use rosetta_ergo.Ergo.Constants.{erg_currency}
use rosetta_ergo.Config.{BootstrapBalance}
use rosetta_ergo.Indexer.Genesis.{bootstrap_balances}
use rosetta_ergo.Indexer.Genesis.Bootstrap.{IsPositive, AreSet, bootstrap_balances-IsAtomic}
use rosetta_ergo.Samples.{storage, head}

abbrev balances : List BootstrapBalance
balances =
    record { account = record { address = "alice" }; currency = erg_currency; value = "7" } ∷ []

bootstraps : bootstrap_balances storage head balances 0 ≡ (ok tt, 1)
unfolding bootstrap_balances parse_int
bootstraps = refl

bootstrap_balances-IsAtomic_example :
    (All (λ (b : BootstrapBalance). IsPositive b.value) balances
      × (view : ℕ) × AreSet storage head balances 0 view
      × (storage.commit view 0 ≡ (ok tt, 1)))
    ⊎ ((◌≡◌ {A = ℕ} 1 0) × (◌≢◌ {A = Result (Unit {0})} (ok tt) (ok tt)))
bootstrap_balances-IsAtomic_example =
    bootstrap_balances-IsAtomic storage head balances 0 1 (ok tt) bootstraps
