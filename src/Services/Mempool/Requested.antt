-- ===== src/Services/Mempool/Requested.antt =====
-- Which transaction of the mempool `MempoolTransaction` takes for the requested one.
use rosetta_ergo.Base.{
  String, List, [], ◌∷◌, ◌++◌, ◌≢◌, All, deref-eq-ok, true, Option, none, some, ◌≡◌, ◌⊎◌, ◌∙◌, inl,
  inr, sym, ap, ok, Bool-cases, >>=-eq-ok, ◌==◌, eq_iff,
}
use rosetta_ergo.Ergo.Types.{ErgoTransaction}
use rosetta_ergo.Services.Mempool.{find_requested}

-- No transaction has the id.
abbrev pub NoneHas : String → List ErgoTransaction → Type 0
NoneHas id = All (λ (t : ErgoTransaction). t.id ≢ some id)

-- The transaction has the id, and none behind it in the list does.
abbrev pub IsLast : String → ErgoTransaction → List ErgoTransaction → Type 0
IsLast id tx txs =
    (before after : List ErgoTransaction) × (txs ≡ before ++ tx ∷ after)
    × (tx.id ≡ some id)
    × NoneHas id after

-- What the loop returns is the last one of its list, or what it had, if none of the list has the id.
find_requested-IsLast :
    (id : String) (requested : Option ErgoTransaction) (txs : List ErgoTransaction)
    (tx : ErgoTransaction)
    → find_requested id requested txs ≡ ok (some tx)
    → IsLast id tx txs ⊎ ((requested ≡ some tx) × NoneHas id txs)
unfolding find_requested
find_requested-IsLast id requested [] tx h = inr (cc h, tt)
find_requested-IsLast id requested (t ∷ txs) tx h =
    let (tid, has, rest) = >>=-eq-ok _ _ h in
    let has_id : t.id ≡ some tid = deref-eq-ok _ has in
    elim (Bool-cases (tid == id)) [
      | inl same ↦ elim (find_requested-IsLast id (some t) txs tx (rw same at rest)) [
        | inl (before, after, parts, is, none_after) ↦
            inl (t ∷ before, after, ap (λ l. t ∷ l) parts, is, none_after)
        | inr (here, none_later) ↦
            let is_tx : t ≡ tx = cc here in
            inl (
              [],
              txs,
              ap (λ x. x ∷ txs) is_tx,
              ap (λ (x : ErgoTransaction). x.id) (sym is_tx)
                  ∙ has_id
                  ∙ ap some ((eq_iff tid id).0 same),
              none_later,
            )
      ]
      | inr other ↦ elim (find_requested-IsLast id requested txs tx (rw other at rest)) [
        | inl (before, after, parts, is, none_after) ↦
            inl (t ∷ before, after, ap (λ l. t ∷ l) parts, is, none_after)
        | inr (here, none_later) ↦ inr (
          here,
          (
            λ q.
                let both : some tid ≡ some id = sym has_id ∙ q in
                let eq : tid == id ≡ true = (eq_iff tid id).1 (cc both) in cc (sym eq ∙ other),
            none_later,
          ),
        )
      ]
    ]

pub requested-IsLast :
    (id : String) (txs : List ErgoTransaction) (tx : ErgoTransaction)
    → find_requested id none txs ≡ ok (some tx)
    → IsLast id tx txs
requested-IsLast id txs tx h = elim (find_requested-IsLast id none txs tx h) [
  | inl last ↦ last
  | inr (nothing, none_has) ↦ cc nothing
]
