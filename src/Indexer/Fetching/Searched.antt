-- ===== src/Indexer/Fetching/Searched.antt =====
-- The first loop of `findCoins`: each context is found, or left for later.
use mathlib.Core.Path.{subst}
use rosetta_ergo.Base.{
  String, Option, some, List, [], ◌∷◌, ◌++◌, ◌≡◌, ◌⊎◌, inl, inr, refl, Result, ok, err, panics,
  blocks, missing_transaction, is_error, All, Among, Among-append_left, Among-append_right,
  Bool-cases, deref, ◌>>=◌,
}
use rosetta_ergo.Base.GoMap.{GoMap, get}
use rosetta_ergo.Sdk.{AccountCoin, AccountIdentifier, BlockIdentifier, Coin}
use rosetta_ergo.Ergo.Types.{BlockHeader, FullBlock}
use rosetta_ergo.Ergo.Inputs.{InputCtx}
use rosetta_ergo.Indexer.Storage.{Storage}
use rosetta_ergo.Indexer.WaitTable.{WaitTable}
use rosetta_ergo.Indexer.State.{Indexer}
use rosetta_ergo.Indexer.Waiting.{Others, find_coin}
use rosetta_ergo.Indexer.Fetching.{note_coin, find_coin_of, search}
use rosetta_ergo.Indexer.Fetching.Rounds.{RoundsKeep, Leaves, find_coin-FindLeaves}
use rosetta_ergo.Indexer.Fetching.Maps.{HasKey, AllFit, put-HasKey, put-HasKey_same, put-AllFit}

-- A context that was looked at: its coin is there, or it is left for later.
abbrev pub IsNoted : GoMap AccountCoin × List InputCtx → InputCtx → Type 0
IsNoted (m, remaining) ctx = HasKey ctx.input_id m ⊎ Among ctx remaining

module _ (P : String → AccountCoin → Type 0) where
  -- What one coin adds: nothing that was noted is lost, and the entries fit.
  abbrev pub Extends :
      GoMap AccountCoin × List InputCtx → (GoMap AccountCoin × List InputCtx) → Type 0
  Extends (m, remaining) (m', remaining') =
      (AllFit P m → AllFit P m')
      × ((c : InputCtx) → IsNoted (m, remaining) c → IsNoted (m', remaining') c)

  -- What the first loop leaves for the coins of a list.
  abbrev pub Searched :
      GoMap AccountCoin × List InputCtx → List InputCtx → GoMap AccountCoin × List InputCtx → Type 0
  Searched before coins x = Extends before x × All (IsNoted x) coins

abbrev pub SearchLeaves :
    {DB : Type 0}
    → (Indexer DB → Type 0)
    → (String → AccountCoin → Type 0)
    → GoMap AccountCoin × List InputCtx
    → List InputCtx
    → Result (GoMap AccountCoin × List InputCtx) × Indexer DB
    → Type 0
SearchLeaves I P before coins (y, i) = Leaves I (Searched P before coins) y i

module _ {DB : Type 0} (I : Indexer DB → Type 0) where
  Leaves-state :
      {A : Type 0} (Q : A → Type 0) (r : Result A) (i : Indexer DB) → Leaves I Q r i → I i
  Leaves-state Q (ok a) i h = h.1
  Leaves-state Q (err e) i h = h
  Leaves-state Q panics i h = h
  Leaves-state Q blocks i h = h

  Leaves-map :
      {A : Type 0} (Q R : A → Type 0)
      → ((a : A) → Q a → R a)
      → (r : Result A) (i : Indexer DB) → Leaves I Q r i
      → Leaves I R r i
  Leaves-map Q R f (ok a) i (q, h) = (f a q, h)
  Leaves-map Q R f (err e) i h = h
  Leaves-map Q R f panics i h = h
  Leaves-map Q R f blocks i h = h

module _ {DB : Type 0} (s : Storage DB) (genesis : BlockIdentifier)
    (hash : Option BlockIdentifier → String) (I : Indexer DB → Type 0)
    (frame : (i : Indexer DB) (t : WaitTable) → I i → I (record i { waiter = t }))
    (P : String → AccountCoin → Type 0)
    (stored : (db : DB) (id : String) (coin : Coin) (owner : AccountIdentifier)
      → s.get_coin db id ≡ ok (coin, owner)
      → P id (record { account = some owner; coin = coin }))
    (cached : (i : Indexer DB) (id : String) (a : AccountCoin)
      → I i
      → get id i.coin_cache ≡ some a
      → P id a)
    (block : Option FullBlock) where
  abbrev OfLeaves : InputCtx → Result AccountCoin × Indexer DB × List (Others DB) → Type 0
  OfLeaves ctx (r, i, rounds) = Leaves I (P ctx.input_id) r i × RoundsKeep I rounds

  of_header :
      (ctx : InputCtx) (rounds : List (Others DB)) (i : Indexer DB) (h : Result BlockHeader)
      → RoundsKeep I rounds
      → I i
      → OfLeaves ctx (elim h [
        | ok header ↦ find_coin s genesis hash header ctx rounds i
        | err e ↦ (err e, i, rounds)
        | panics ↦ (panics, i, rounds)
        | blocks ↦ (blocks, i, rounds)
      ])
  of_header ctx rounds i (ok header) keep h =
      find_coin-FindLeaves s genesis hash I frame P stored cached header ctx rounds i keep h
  of_header ctx rounds i (err x) keep h = (h, keep)
  of_header ctx rounds i panics keep h = (h, keep)
  of_header ctx rounds i blocks keep h = (h, keep)

  find_coin_of-Leaves :
      (ctx : InputCtx) (rounds : List (Others DB)) (i : Indexer DB)
      → RoundsKeep I rounds
      → I i
      → OfLeaves ctx (find_coin_of s genesis hash block ctx rounds i)
  unfolding find_coin_of
  find_coin_of-Leaves ctx rounds i keep h =
      of_header ctx rounds i (deref block >>= λ b. deref b.header) keep h

  note_coin-Extends :
      (ctx : InputCtx) (m : GoMap AccountCoin) (remaining : List InputCtx) (r : Result AccountCoin)
      (i : Indexer DB) (x : GoMap AccountCoin × List InputCtx)
      → Leaves I (P ctx.input_id) r i
      → note_coin ctx m remaining r ≡ ok x
      → Extends P (m, remaining) x × IsNoted x ctx
  note_coin-Extends ctx m remaining (ok coin) i x (p, h) e =
      subst (λ x. Extends P (m, remaining) x × IsNoted x ctx) (cc e)
        (
          (
            put-AllFit P ctx.input_id coin m p,
            λ c noted. elim noted [
              | inl there ↦ inl (put-HasKey ctx.input_id c.input_id coin m there)
              | inr later ↦ inr later
            ],
          ),
          inl (put-HasKey_same ctx.input_id coin m),
        )
  note_coin-Extends ctx m remaining (err y) i x h e =
      elim (Bool-cases (is_error y missing_transaction)) [
        | inl missing ↦
            let same : ok (m, remaining ++ ctx ∷ []) ≡ ok x = rw missing at e in
            subst (λ x. Extends P (m, remaining) x × IsNoted x ctx) (cc same)
              (
                (
                  λ f. f,
                  λ c noted. elim noted [
                    | inl there ↦ inl there
                    | inr later ↦ inr (Among-append_left c remaining (ctx ∷ []) later)
                  ],
                ),
                inr (Among-append_right ctx remaining (ctx ∷ []) (inl refl)),
              )
        | inr other ↦ cc (rw other at e)
      ]
  note_coin-Extends ctx m remaining panics i x h e = cc
  note_coin-Extends ctx m remaining blocks i x h e = cc

  after_note :
      (m : GoMap AccountCoin) (remaining : List InputCtx) (ctx : InputCtx) (coins : List InputCtx)
      (r : Result AccountCoin) (i : Indexer DB) (rounds : List (Others DB))
      (x : Result (GoMap AccountCoin × List InputCtx))
      → note_coin ctx m remaining r ≡ x
      → Leaves I (P ctx.input_id) r i
      → ((m' : GoMap AccountCoin) (remaining' : List InputCtx)
          → SearchLeaves I P
              (m', remaining')
              coins
              (search s genesis hash block m' remaining' coins rounds i))
      → SearchLeaves I P
          (m, remaining)
          (ctx ∷ coins)
          (elim x [
            | ok (m', remaining') ↦ search s genesis hash block m' remaining' coins rounds i
            | err e ↦ (err e, i)
            | panics ↦ (panics, i)
            | blocks ↦ (blocks, i)
          ])
  after_note m remaining ctx coins r i rounds (ok (m', remaining')) e h next =
      let (extends, noted) = note_coin-Extends ctx m remaining r i (m', remaining') h e in
      Leaves-map I _ _
        (λ x (later, all). (
          ((λ f. later.0 (extends.0 f)), λ c n. later.1 c (extends.1 c n)),
          (later.1 ctx noted, all),
        ))
        _ _ (next m' remaining')
  after_note m remaining ctx coins r i rounds (err y) e h next = Leaves-state I _ r i h
  after_note m remaining ctx coins r i rounds panics e h next = Leaves-state I _ r i h
  after_note m remaining ctx coins r i rounds blocks e h next = Leaves-state I _ r i h

  pub search-Leaves :
      (m : GoMap AccountCoin) (remaining coins : List InputCtx) (rounds : List (Others DB))
      (i : Indexer DB)
      → RoundsKeep I rounds
      → I i
      → SearchLeaves I P
          (m, remaining)
          coins
          (search s genesis hash block m remaining coins rounds i)
  unfolding search
  search-Leaves m remaining [] rounds i keep h = ((((λ f. f), λ c n. n), tt), h)
  search-Leaves m remaining (ctx ∷ coins) rounds i keep h =
      let step = find_coin_of s genesis hash block ctx rounds i in
      let (fits, keep') = find_coin_of-Leaves ctx rounds i keep h in
      after_note m remaining ctx coins step.0 step.1 step.2 _ refl fits (λ m' remaining'.
        search-Leaves m' remaining' coins step.2 step.1 keep' (Leaves-state I _ step.0 step.1 fits))
