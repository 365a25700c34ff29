-- ===== src/Services/Mempool/Confirmed.antt =====
-- What an answer of /mempool/transaction says of the boxes that the transaction spends.
use mathlib.Core.Path.{subst}
use rosetta_ergo.Base.{
  ℕ, suc, wrap, str, String, List, [], ◌∷◌, Option, none, some, ◌≡◌, ◌⊎◌, ◌∙◌, inl, inr, refl, sym,
  ap, Result, ok, err, panics, blocks, coin_not_found, is_error, Among, Bool-cases, Option-cases,
  >>=-eq-ok, ◌==◌, eq_iff, if◌then◌else◌,
}
use rosetta_ergo.Base.GoMap.{GoMap, get, put, get-put}
use rosetta_ergo.Sdk.{
  AccountCoin, AccountIdentifier, Coin, Operation, Transaction, TransactionIdentifier,
}
use rosetta_ergo.Errutil.{err_ergo_node, err_unable_to_get_coins}
use rosetta_ergo.Config.{Configuration}
use rosetta_ergo.Ergo.Types.{ErgoTransaction, ErgoTransactionInput}
use rosetta_ergo.Ergo.Client.{Client, get_unconfirmed_txs}
use rosetta_ergo.Ergo.Inputs.{InputCtx, get_inputs_for_txs}
use rosetta_ergo.Ergo.Inputs.Exact.{Boxes, AllHaveBoxes, IsFetched, get_inputs_for_txs_exact}
use rosetta_ergo.Rosetta.Converter.{BlockConverter, new_block_converter, find_coin_for_input}
use rosetta_ergo.Rosetta.Converter.Operations.{IsConverted, SpendsAll, tx_to_rosetta_tx-IsConverted}
use rosetta_ergo.Indexer.Storage.{Storage}
use rosetta_ergo.Services.Response.{response, or_fail}
use rosetta_ergo.Services.Response.Announced.{
  >>=-eq-response, or_fail-eq-response, when_online-eq-response,
}
use rosetta_ergo.Services.Mempool.Requested.{IsLast, requested-IsLast}
use rosetta_ergo.Services.Mempool.{
  coin_or_skip, stored_coin, find_requested, find_coins_for_mempool_tx, or_not_found,
  mempool_transaction,
}

or_not_found-eq-response {ℓ} :
    {A : Type ℓ} (o : Option A) {a : A} → or_not_found o ≡ response a → o ≡ some a
or_not_found-eq-response none h = cc
or_not_found-eq-response (some x) h = cc

-- The storage has the box's coin in that state of the database: the coin is confirmed.
abbrev pub IsStoredCoin : {DB : Type 0} → Storage DB → DB → String → AccountCoin → Type 0
IsStoredCoin s db k a =
    (coin : Coin) × (owner : AccountIdentifier) × (s.get_coin db k ≡ ok (coin, owner))
    × (a ≡ record { account = some owner; coin = coin })

module _ {DB : Type 0} (s : Storage DB) where
  -- A coin of the map was asked for, and the storage had it at one of the reads.
  abbrev pub IsFrom : (ℕ → DB) → List InputCtx → String → AccountCoin → Type 0
  IsFrom reads ctxs k a =
      (ctx : InputCtx) × (n : ℕ) × Among ctx ctxs
      × (ctx.input_id ≡ k)
      × IsStoredCoin s (reads n) k a

  coin_or_skip-get :
      (db : DB) (id k : String) (m m' : GoMap AccountCoin) (a : AccountCoin)
      (r : Result (Coin × AccountIdentifier))
      → s.get_coin db id ≡ r
      → coin_or_skip s id m (stored_coin s db id) ≡ ok m'
      → get k m' ≡ some a
      → (get k m ≡ some a) ⊎ ((id ≡ k) × IsStoredCoin s db k a)
  coin_or_skip-get db id k m m' a (ok (coin, owner)) e h g =
      let added : AccountCoin = record { account = some owner; coin = coin } in
      let same : ok (put id added m) ≡ ok m' = rw e at h in
      let got : get k (put id added m) ≡ some a = cc (same, g) in
      let found : (if id == k then some added else get k m) ≡ some a =
        sym (get-put id k added m) ∙ got in
      elim (Bool-cases (id == k)) [
        | inl hit ↦
            let here : id ≡ k = (eq_iff id k).0 hit in
            let is_added : some added ≡ some a = rw hit at found in
            inr (here, (coin, owner, ap (s.get_coin db) (sym here) ∙ e, cc is_added))
        | inr miss ↦ inl (rw miss at found)
      ]
  coin_or_skip-get db id k m m' a (err x) e h g =
      let h' : (if is_error x coin_not_found
            then ok m
            else err (wrap x "%w: unable to lookup coin %s" (str id ∷ [])))
          ≡ ok m' =
        rw e at h in
      elim (Bool-cases (is_error x coin_not_found)) [
        | inl missing ↦ let same : ok m ≡ ok m' = rw missing at h' in inl (cc (same, g))
        | inr other ↦ cc (rw other at h')
      ]
  coin_or_skip-get db id k m m' a panics e h g = cc (rw e at h)
  coin_or_skip-get db id k m m' a blocks e h g = cc (rw e at h)

  find_coins-IsFrom :
      (reads : ℕ → DB) (m m' : GoMap AccountCoin) (ctxs : List InputCtx) (k : String)
      (a : AccountCoin)
      → find_coins_for_mempool_tx s reads m ctxs ≡ ok m'
      → get k m' ≡ some a
      → (get k m ≡ some a) ⊎ IsFrom reads ctxs k a
  unfolding find_coins_for_mempool_tx
  find_coins-IsFrom reads m m' [] k a h g = inl (cc (h, g))
  find_coins-IsFrom reads m m' (ctx ∷ ctxs) k a h g =
      let first_db = reads 0 in
      let (m₁, first, rest) =
        >>=-eq-ok (coin_or_skip s ctx.input_id m (stored_coin s first_db ctx.input_id)) _ h in
      elim (find_coins-IsFrom (λ n. reads (suc n)) m₁ m' ctxs k a rest g) [
        | inr (c, n, there, here, stored) ↦ inr (c, suc n, inr there, here, stored)
        | inl held ↦
            elim (coin_or_skip-get first_db ctx.input_id k m m₁ a (s.get_coin first_db ctx.input_id)
              refl first held) [
                | inl before ↦ inl before
                | inr (here, stored) ↦ inr (ctx, 0, inl refl, here, stored)
              ]
      ]

get-nothing : (k : String) (a : AccountCoin) → ¬ (get k [] ≡ some a)
unfolding get
get-nothing k a h = cc

-- Nothing else is found for an input than the fetched coins.
find_coin_for_input-get :
    (m : GoMap AccountCoin) (k : String) (a : AccountCoin)
    → find_coin_for_input (new_block_converter m) k ≡ ok a
    → get k m ≡ some a
unfolding find_coin_for_input get
find_coin_for_input-get m k a h = elim (Option-cases (get k m)) [
  | inl missing ↦ cc (rw missing at h)
  | inr (b, found) ↦ found ∙ cc (rw found at h)
]

spent_coin :
    (e : Client) (negate_value : String → Result String) (c : BlockConverter) (n : ℕ)
    (is : List ErgoTransactionInput) (ops : List Operation) (i : ErgoTransactionInput)
    → SpendsAll e negate_value c n is ops
    → Among i is
    → (a : AccountCoin) × (find_coin_for_input c i.box_id ≡ ok a)
spent_coin e nv c n [] ops i h m = absurd m
spent_coin e nv c n (j ∷ js) [] i h m = absurd h
spent_coin e nv c n (j ∷ js) (op ∷ ops) i (h, hs) (inl here) =
    (h.coin, ap (λ (x : ErgoTransactionInput). find_coin_for_input c x.box_id) here ∙ h.is_found)
spent_coin e nv c n (j ∷ js) (op ∷ ops) i (h, hs) (inr there) =
    spent_coin e nv c (suc n) js ops i hs there

module _ {DB : Type 0} (s : Storage DB) (cfg : Configuration) (reads : ℕ → DB) (e : Client)
    (negate_value : String → Result String) where
  -- How a transaction of the mempool is answered.
  pub record IsConfirmed (txs : List ErgoTransaction) (bs : List Boxes) (id : String)
      (t : Transaction) : Type 0 where
    pub tx : ErgoTransaction
    pub coins : GoMap AccountCoin
    pub is_requested : IsLast id tx txs
    pub converted : IsConverted e negate_value (new_block_converter coins) tx t
    pub confirmed :
        (i : ErgoTransactionInput)
        → Among i converted.inputs
        → (ctx : InputCtx) × (a : AccountCoin) × (n : ℕ) × (ctx.input_id ≡ i.box_id)
          × IsFetched ctx bs
          × IsStoredCoin s (reads n) i.box_id a
          × (find_coin_for_input (new_block_converter coins) i.box_id ≡ ok a)

  -- Where the pointers of the mempool's transactions are set, an answer of /mempool/transaction is
  -- the conversion of the last transaction of the mempool that has the requested id, and each box
  -- that it spends is one whose coin the storage has at one of the request's reads, and that is fetched: some transaction of the
  -- mempool spends it before any creates it. So a transaction that spends a box of the mempool
  -- that the storage does not have is not answered.
  pub mempool_transaction-IsConfirmed :
      (id : TransactionIdentifier) (txs : List ErgoTransaction) (bs : List Boxes) (t : Transaction)
      → get_unconfirmed_txs e ≡ ok txs
      → AllHaveBoxes txs bs
      → mempool_transaction s cfg reads e negate_value id ≡ response t
      → IsConfirmed txs bs id.hash t
  unfolding mempool_transaction
  mempool_transaction-IsConfirmed id txs bs t listed boxes h =
      let (on, h₀) = when_online-eq-response cfg _ h in
      let (txs', got, h₁) = >>=-eq-response (or_fail err_ergo_node (get_unconfirmed_txs e)) _ h₀ in
      let (o, found, h₂) =
        >>=-eq-response (or_fail err_ergo_node (find_requested id.hash none txs')) _ h₁ in
      let (tx, some_tx, h₃) = >>=-eq-response (or_not_found o) _ h₂ in
      let (inputs, asked, h₄) =
        >>=-eq-response (or_fail err_unable_to_get_coins (get_inputs_for_txs (some txs'))) _ h₃ in
      let (coins, looked, h₅) =
        >>=-eq-response
          (or_fail err_unable_to_get_coins (find_coins_for_mempool_tx s reads [] inputs)) _ h₄ in
      let same : txs' ≡ txs =
        cc (or_fail-eq-response err_ergo_node (get_unconfirmed_txs e) got, listed) in
      let made = or_fail-eq-response err_ergo_node _ h₅ in
      let converted =
        tx_to_rosetta_tx-IsConverted e negate_value (new_block_converter coins) tx t made in
      let (coins', exactly, fetched) = get_inputs_for_txs_exact txs bs boxes in
      let inputs' : inputs ≡ coins' =
        cc (or_fail-eq-response err_unable_to_get_coins _ asked, same, exactly) in
      record {
        tx = tx;
        coins = coins;
        is_requested = requested-IsLast id.hash txs tx (
            cc (
              or_fail-eq-response err_ergo_node _ found,
              same,
              or_not_found-eq-response o some_tx,
            ));
        converted = converted;
        confirmed = λ i m.
            let (a, is_found) =
              spent_coin e negate_value (new_block_converter coins) 0 converted.inputs
                converted.input_ops i converted.spends m in
            elim (find_coins-IsFrom s reads [] coins inputs i.box_id a
              (or_fail-eq-response err_unable_to_get_coins _ looked)
              (find_coin_for_input-get coins i.box_id a is_found)) [
                | inl impossible ↦ absurd (get-nothing i.box_id a impossible)
                | inr (ctx, n, among, here, stored) ↦ (
                  ctx,
                  a,
                  n,
                  here,
                  (fetched ctx).0 (subst (Among ctx) inputs' among),
                  stored,
                  is_found,
                )
              ];
      }
