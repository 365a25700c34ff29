-- ===== src/Services/Account/Answer.antt =====
-- What an answer of /account/balance says.
use rosetta_ergo.Base.{
  true, [], ◌∷◌, ◌≡◌, ◌⊎◌, inl, inr, refl, Result, ok, err, panics, blocks, Err, account_missing,
  is_error, Bool-cases, >>=-eq-ok,
}
use rosetta_ergo.Sdk.{Amount, BlockIdentifier, Currency}
use rosetta_ergo.Errutil.{err_unable_to_get_balance}
use rosetta_ergo.Config.{Configuration, online}
use rosetta_ergo.Indexer.Storage.{Storage, BlockResponse}
use rosetta_ergo.Services.Response.{response, or_fail}
use rosetta_ergo.Services.Response.Announced.{
  >>=-eq-response, or_fail-eq-response, when_online-eq-response, response-eq,
}
use rosetta_ergo.Services.Account.{
  AccountBalanceRequest, AccountBalanceResponse, balance_or_zero, get_balance, account_balance,
}

-- The amount is the storage's, or it is 0 since the storage has never seen the account.
abbrev pub IsBalance : Currency → Result Amount → Amount → Type 0
IsBalance currency stored amount =
    (stored ≡ ok amount)
    ⊎ ((e : Err) × (stored ≡ err e)
        × (is_error e account_missing ≡ true)
        × (amount ≡ record { value = "0"; currency = currency }))

balance_or_zero-IsBalance :
    (currency : Currency) (block : BlockIdentifier) (stored : Result Amount)
    (x : Amount × BlockIdentifier)
    → balance_or_zero currency block stored ≡ ok x
    → IsBalance currency stored x.0 × (x.1 ≡ block)
balance_or_zero-IsBalance currency block (ok amount) x h = (inl (cc h), cc h)
balance_or_zero-IsBalance currency block (err e) x h =
    elim (Bool-cases (is_error e account_missing)) [
      | inl missing ↦
          let same : ok (record { value = "0"; currency = currency }, block) ≡ ok x =
            rw missing at h in
          (inr (e, refl, missing, cc same), cc same)
      | inr other ↦ cc (rw other at h)
    ]
balance_or_zero-IsBalance currency block panics x h = cc
balance_or_zero-IsBalance currency block blocks x h = cc

module _ {DB : Type 0} (s : Storage DB) (cfg : Configuration) (db : DB) where
  -- /account/balance answers only online, with one balance at the block that the storage found for
  -- the request: the amount is the storage's at that block's index, or 0 in the configured currency
  -- where the storage has never seen the account. Any other error of the storage is no answer.
  pub account_balance-IsBalance :
      (request : AccountBalanceRequest) (answer : AccountBalanceResponse)
      → account_balance s cfg db request ≡ response answer
      → (cfg.mode ≡ online)
        × (found : BlockResponse) × (amount : Amount) × (s.get_block_lazy db
              request.block_identifier
            ≡ ok found)
        × (answer.block_identifier ≡ found.block.block_identifier)
        × (answer.balances ≡ amount ∷ [])
        × IsBalance cfg.currency
            (s.get_balance db request.account_identifier cfg.currency
              found.block.block_identifier.index)
            amount
  unfolding account_balance get_balance
  account_balance-IsBalance request answer h =
      let (on, h₀) = when_online-eq-response cfg _ h in
      let (x, got, built) =
        >>=-eq-response
          (or_fail err_unable_to_get_balance
            (get_balance s cfg db request.account_identifier cfg.currency request.block_identifier))
          _ h₀ in
      let (found, is_found, rest) =
        >>=-eq-ok (s.get_block_lazy db request.block_identifier) _
          (or_fail-eq-response err_unable_to_get_balance _ got) in
      let (balance, at_block) =
        balance_or_zero-IsBalance cfg.currency found.block.block_identifier _ x rest in
      let same = response-eq built in
      (on, found, x.0, is_found, cc (same, at_block), cc same, balance)
