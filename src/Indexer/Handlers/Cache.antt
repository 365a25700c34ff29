-- ===== src/Indexer/Handlers/Cache.antt =====
-- The coin cache: what `BlockSeen` puts in and what `BlockAdded` takes out.
use rosetta_ergo.Base.{
  String, Bool, true, false, ◌||◌, Option, none, some, List, [], ◌∷◌, ◌++◌, ◌≡◌, ◌∙◌, refl, arith,
  eq_iff, ◌==◌, if◌then◌else◌, Bool-cases, inl, inr, sym, Among, Among-append_left,
  Among-append_right,
}
use rosetta_ergo.Base.GoMap.{GoMap, get, get-put, get-delete}
use rosetta_ergo.Sdk.{Transaction, Operation, AccountCoin, CoinChange, coin_created, coin_spent}
use rosetta_ergo.Indexer.Handlers.{
  cached_coin, cache_change, cache_ops, cache_txs, uncache_change, uncache_ops, uncache_txs,
}

abbrev pub creates : String → Option CoinChange → Bool
creates k none = false
creates k (some change) = elim change.coin_action [
  | coin_created ↦ change.coin_identifier.identifier == k
  | coin_spent ↦ false
]

abbrev pub created_in_ops : String → List Operation → Bool
created_in_ops k [] = false
created_in_ops k (op ∷ ops) = creates k op.coin_change || created_in_ops k ops

-- Some operation of the transactions creates the coin.
abbrev pub created_in : String → List Transaction → Bool
created_in k [] = false
created_in k (tx ∷ txs) = created_in_ops k tx.operations || created_in k txs

get-uncache_change :
    (k : String) (change : Option CoinChange) (m : GoMap AccountCoin)
    → get k (uncache_change change m) ≡ (if creates k change then none else get k m)
get-uncache_change k none m = refl
get-uncache_change k (some change) m =
    ground (arith, get-delete change.coin_identifier.identifier k m)

get-uncache_ops :
    (k : String) (ops : List Operation) (m : GoMap AccountCoin)
    → get k (uncache_ops ops m) ≡ (if created_in_ops k ops then none else get k m)
unfolding uncache_ops
get-uncache_ops k [] m = refl
get-uncache_ops k (op ∷ ops) m =
    get-uncache_ops k ops (uncache_change op.coin_change m)
    ∙ rw (get-uncache_change k op.coin_change m) (ground arith)

pub get-uncache_txs :
    (k : String) (txs : List Transaction) (m : GoMap AccountCoin)
    → get k (uncache_txs txs m) ≡ (if created_in k txs then none else get k m)
unfolding uncache_txs
get-uncache_txs k [] m = refl
get-uncache_txs k (tx ∷ txs) m =
    get-uncache_txs k txs (uncache_ops tx.operations m)
    ∙ rw (get-uncache_ops k tx.operations m) (ground arith)

get-cache_change :
    (k : String) (op : Operation) (change : Option CoinChange) (m : GoMap AccountCoin)
    → creates k change ≡ false
    → get k (cache_change op change m) ≡ get k m
get-cache_change k op none m h = refl
get-cache_change k op (some change) m h =
    ground (arith, get-put change.coin_identifier.identifier k (cached_coin op change) m)

get-cache_ops :
    (k : String) (ops : List Operation) (m : GoMap AccountCoin)
    → created_in_ops k ops ≡ false
    → get k (cache_ops ops m) ≡ get k m
unfolding cache_ops
get-cache_ops k [] m h = refl
get-cache_ops k (op ∷ ops) m h =
    get-cache_ops k ops (cache_change op op.coin_change m) (ground arith)
    ∙ get-cache_change k op op.coin_change m (ground arith)

pub get-cache_txs :
    (k : String) (txs : List Transaction) (m : GoMap AccountCoin)
    → created_in k txs ≡ false
    → get k (cache_txs txs m) ≡ get k m
unfolding cache_txs
get-cache_txs k [] m h = refl
get-cache_txs k (tx ∷ txs) m h =
    get-cache_txs k txs (cache_ops tx.operations m) (ground arith)
    ∙ get-cache_ops k tx.operations m (ground arith)

-- The operation creates coin `k`, and the map has its coin.
abbrev pub Holds : String → GoMap AccountCoin → Operation → Type 0
Holds k m op =
    (change : CoinChange) × (op.coin_change ≡ some change)
    × (change.coin_action ≡ coin_created)
    × (change.coin_identifier.identifier ≡ k)
    × (get k m ≡ some (cached_coin op change))

Holds-cache_change :
    (k : String) (op : Operation) (change : Option CoinChange) (m : GoMap AccountCoin)
    → op.coin_change ≡ change
    → creates k change ≡ true
    → Holds k (cache_change op change m) op
Holds-cache_change k op none m e h = cc
Holds-cache_change k op (some change) m e h = (
  change,
  e,
  ground arith,
  ground (arith, eq_iff change.coin_identifier.identifier k),
  ground (arith, get-put change.coin_identifier.identifier k (cached_coin op change) m),
)

cache_ops-Holds :
    (k : String) (ops : List Operation) (m : GoMap AccountCoin)
    → created_in_ops k ops ≡ true
    → (op : Operation) × Among op ops × Holds k (cache_ops ops m) op
unfolding cache_ops
cache_ops-Holds k [] m h = cc
cache_ops-Holds k (op ∷ ops) m h = elim (Bool-cases (created_in_ops k ops)) [
  | inl later ↦
      let (o, a, holds) = cache_ops-Holds k ops (cache_change op op.coin_change m) later in
      (o, inr a, holds)
  | inr last ↦
      let (c, e, act, id, found) = Holds-cache_change k op op.coin_change m refl (ground arith) in
      (op, inl refl, (c, e, act, id, get-cache_ops k ops _ last ∙ found))
]

abbrev pub block_ops : List Transaction → List Operation
block_ops [] = []
block_ops (tx ∷ txs) = tx.operations ++ block_ops txs

pub cache_txs-Holds :
    (k : String) (txs : List Transaction) (m : GoMap AccountCoin)
    → created_in k txs ≡ true
    → (op : Operation) × Among op (block_ops txs) × Holds k (cache_txs txs m) op
unfolding cache_txs
cache_txs-Holds k [] m h = cc
cache_txs-Holds k (tx ∷ txs) m h = elim (Bool-cases (created_in k txs)) [
  | inl later ↦
      let (o, a, holds) = cache_txs-Holds k txs (cache_ops tx.operations m) later in
      (o, Among-append_right o tx.operations _ a, holds)
  | inr last ↦
      let (o, a, (c, e, act, id, found)) = cache_ops-Holds k tx.operations m (ground arith) in
      (
        o,
        Among-append_left o _ _ a,
        (c, e, act, id, get-cache_txs k txs (cache_ops tx.operations m) last ∙ found),
      )
]

cache_change-forgets :
    (k : String) (op : Operation) (change : Option CoinChange) (m m' : GoMap AccountCoin)
    → creates k change ≡ true
    → get k (cache_change op change m) ≡ get k (cache_change op change m')
cache_change-forgets k op none m m' h = cc
cache_change-forgets k op (some change) m m' h = ground (
  arith,
  get-put change.coin_identifier.identifier k (cached_coin op change) m,
  get-put change.coin_identifier.identifier k (cached_coin op change) m',
)

cache_ops-forgets :
    (k : String) (ops : List Operation) (m m' : GoMap AccountCoin)
    → created_in_ops k ops ≡ true
    → get k (cache_ops ops m) ≡ get k (cache_ops ops m')
unfolding cache_ops
cache_ops-forgets k [] m m' h = cc
cache_ops-forgets k (op ∷ ops) m m' h = elim (Bool-cases (created_in_ops k ops)) [
  | inl later ↦ cache_ops-forgets k ops _ _ later
  | inr last ↦
      get-cache_ops k ops _ last
      ∙ cache_change-forgets k op op.coin_change m m' (ground arith)
      ∙ sym (get-cache_ops k ops _ last)
]

-- What the cache then holds for a created coin depends on the block only.
pub cache_txs-forgets :
    (k : String) (txs : List Transaction) (m m' : GoMap AccountCoin)
    → created_in k txs ≡ true
    → get k (cache_txs txs m) ≡ get k (cache_txs txs m')
unfolding cache_txs
cache_txs-forgets k [] m m' h = cc
cache_txs-forgets k (tx ∷ txs) m m' h = elim (Bool-cases (created_in k txs)) [
  | inl later ↦ cache_txs-forgets k txs _ _ later
  | inr last ↦
      get-cache_txs k txs _ last
      ∙ cache_ops-forgets k tx.operations m m' (ground arith)
      ∙ sym (get-cache_txs k txs _ last)
]
