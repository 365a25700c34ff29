-- ===== src/Services/Account.antt =====
-- pkg/services/account.go.
pub mod Answer
use rosetta_ergo.Base.{
  String, List, [], ◌∷◌, Option, Result, ok, err, panics, blocks, Err, account_missing, is_error,
  if◌then◌else◌,
}
use rosetta_ergo.Base
use rosetta_ergo.Sdk.{
  AccountIdentifier, Amount, BlockIdentifier, Coin, Currency, PartialBlockIdentifier,
}
use rosetta_ergo.Errutil.{err_unable_to_get_balance, err_unable_to_get_coins}
use rosetta_ergo.Config.{Configuration}
use rosetta_ergo.Indexer.Storage.{Storage}
use rosetta_ergo.Services.Response.{Response, response, ◌>>=◌, or_fail, when_online}

pub record AccountBalanceRequest : Type 0 where
  pub account_identifier : AccountIdentifier
  pub block_identifier : Option PartialBlockIdentifier

pub record AccountBalanceResponse : Type 0 where
  pub block_identifier : BlockIdentifier
  pub balances : List Amount

pub record AccountCoinsResponse : Type 0 where
  pub block_identifier : BlockIdentifier
  pub coins : List Coin

-- An account that the storage has never seen has the balance 0.
abbrev pub balance_or_zero :
    Currency → BlockIdentifier → Result Amount → Result (Amount × BlockIdentifier)
balance_or_zero currency block (ok amount) = ok (amount, block)
balance_or_zero currency block (err e) =
    if is_error e account_missing
    then ok (record { value = "0"; currency = currency }, block)
    else err e
balance_or_zero currency block panics = panics
balance_or_zero currency block blocks = blocks

module _ {DB : Type 0} (s : Storage DB) (cfg : Configuration) (db : DB) where
  unfoldable pub get_balance :
      AccountIdentifier
      → Currency
      → Option PartialBlockIdentifier
      → Result (Amount × BlockIdentifier)
  get_balance account currency block = Base.◌>>=◌ (s.get_block_lazy db block) λ found.
      let id = found.block.block_identifier in
      balance_or_zero currency id (s.get_balance db account currency id.index)

  unfoldable pub account_balance : AccountBalanceRequest → Response AccountBalanceResponse
  unfolding get_balance
  account_balance request = when_online cfg do
    (amount, block) ←
        or_fail err_unable_to_get_balance
          (get_balance request.account_identifier cfg.currency request.block_identifier)
    response (record { block_identifier = block; balances = amount ∷ [] })

  unfoldable pub account_coins : AccountIdentifier → Response AccountCoinsResponse
  account_coins account = when_online cfg do
    (coins, block) ← or_fail err_unable_to_get_coins (s.get_coins db account)
    response (record { block_identifier = block; coins = coins })
