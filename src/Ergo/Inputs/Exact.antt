-- ===== src/Ergo/Inputs/Exact.antt =====
-- What `get_inputs_for_txs` returns, by the boxes of the transactions.
use mathlib.Core.List.{append_assoc, append-nil}
use rosetta_ergo.Base.{
  String, false, some, List, [], ◌∷◌, ◌++◌, map, ◌≡◌, ◌∙◌, refl, ap, ◌⊎◌, inl, inr, ◌↔◌, ok,
  contains, if◌then◌else◌, arith, Bool-cases, Among, Among-append, Among-append_left,
  Among-append_right, contains→Among, Among→contains,
}
use rosetta_ergo.Ergo.Types.{ErgoTransaction, ErgoTransactionInput, ErgoTransactionOutput}
use rosetta_ergo.Ergo.Inputs.{
  InputCtx, collect_outputs, collect_input, collect_inputs, collect_txs, get_inputs_for_txs,
}

-- A transaction as the boxes that it spends and creates.
pub record Boxes : Type 0 where
  pub id : String
  pub spent : List String
  pub created : List String

abbrev pub OutputBoxes : List ErgoTransactionOutput → List String → Type 0
OutputBoxes [] [] = Unit
OutputBoxes (o ∷ os) (b ∷ bs) = (o.box_id ≡ some b) × OutputBoxes os bs
OutputBoxes _ _ = ⊥

abbrev pub input_boxes : List ErgoTransactionInput → List String
input_boxes = map (λ i. i.box_id)

-- The pointers of the transaction that the program follows are set, and hold these boxes.
pub record HasBoxes (tx : ErgoTransaction) (b : Boxes) : Type 0 where
  pub inputs : List ErgoTransactionInput
  pub outputs : List ErgoTransactionOutput
  pub has_id : tx.id ≡ some b.id
  pub has_inputs : tx.inputs ≡ some inputs
  pub has_outputs : tx.outputs ≡ some outputs
  pub spends : input_boxes inputs ≡ b.spent
  pub creates : OutputBoxes outputs b.created

abbrev pub AllHaveBoxes : List ErgoTransaction → List Boxes → Type 0
AllHaveBoxes [] [] = Unit
AllHaveBoxes (tx ∷ txs) (b ∷ bs) = HasBoxes tx b × AllHaveBoxes txs bs
AllHaveBoxes _ _ = ⊥

abbrev pub all_created : List Boxes → List String
all_created [] = []
all_created (b ∷ bs) = b.created ++ all_created bs

-- Some transaction spends the box, and neither it nor one before it creates the box.
abbrev pub IsFetched : InputCtx → List Boxes → Type 0
IsFetched c bs =
    (before : List Boxes) × (b : Boxes) × (after : List Boxes) × (bs ≡ before ++ b ∷ after)
    × (c.tx_id ≡ b.id)
    × Among c.input_id b.spent
    × ¬ Among c.input_id (all_created before ++ b.created)

pub pick : String → List String → List String → List InputCtx
pick id outputs [] = []
pick id outputs (s ∷ ss) =
    let rest = pick id outputs ss in
    if contains outputs s then rest else record { tx_id = id; input_id = s } ∷ rest

unfoldable pub needed : List String → List Boxes → List InputCtx
needed outputs [] = []
needed outputs (b ∷ bs) =
    pick b.id (outputs ++ b.created) b.spent ++ needed (outputs ++ b.created) bs

collect_outputs-eq :
    (seen : List String) (os : List ErgoTransactionOutput) (bs : List String)
    → OutputBoxes os bs
    → collect_outputs seen os ≡ ok (seen ++ bs)
unfolding collect_outputs
collect_outputs-eq seen [] [] h = rw append-nil
collect_outputs-eq seen [] (b ∷ bs) h = absurd h
collect_outputs-eq seen (o ∷ os) [] h = absurd h
collect_outputs-eq seen (o ∷ os) (b ∷ bs) h =
    rw h.0 (collect_outputs-eq (seen ++ b ∷ []) os bs h.1 ∙ ap ok (append_assoc seen (b ∷ []) bs))

collect_inputs-eq :
    (id : String) (seen : List String) (acc : List InputCtx) (is : List ErgoTransactionInput)
    → collect_inputs (some id) seen acc is ≡ ok (acc ++ pick id seen (input_boxes is))
unfolding collect_inputs collect_input pick
collect_inputs-eq id seen acc [] = rw append-nil
collect_inputs-eq id seen acc (i ∷ is) = elim (Bool-cases (contains seen i.box_id)) [
  | inl known ↦ rw known (collect_inputs-eq id seen acc is)
  | inr new ↦
      let c : InputCtx = record { tx_id = id; input_id = i.box_id } in
      rw new (collect_inputs-eq id seen (acc ++ c ∷ []) is ∙ ap ok (append_assoc acc (c ∷ []) _))
]

collect_txs-eq :
    (seen : List String) (acc : List InputCtx) (txs : List ErgoTransaction) (bs : List Boxes)
    → AllHaveBoxes txs bs
    → collect_txs seen acc txs ≡ ok (acc ++ needed seen bs)
unfolding collect_txs needed
collect_txs-eq seen acc [] [] h = rw append-nil
collect_txs-eq seen acc [] (b ∷ bs) h = absurd h
collect_txs-eq seen acc (tx ∷ txs) [] h = absurd h
collect_txs-eq seen acc (tx ∷ txs) (b ∷ bs) (t, h) =
    rw
      (
        t.has_outputs,
        collect_outputs-eq seen t.outputs b.created t.creates,
        t.has_inputs,
        t.has_id,
        collect_inputs-eq b.id (seen ++ b.created) acc t.inputs,
        t.spends,
      )
      (collect_txs-eq (seen ++ b.created) _ txs bs h ∙ ap ok (append_assoc acc _ _))

pub not_contained : (seen : List String) (s : String) → contains seen s ≡ false → ¬ Among s seen
not_contained seen s h m = cc (h, Among→contains seen s m)

fetched_cons :
    (id : String) (seen ss : List String) (s : String) (c : InputCtx)
    → contains seen s ≡ false
    → (c ≡ record { tx_id = id; input_id = s })
      ⊎ ((c.tx_id ≡ id) × Among c.input_id ss × ¬ Among c.input_id seen)
    → (c.tx_id ≡ id) × Among c.input_id (s ∷ ss) × ¬ Among c.input_id seen
fetched_cons id seen ss s c new (inl e) = (
  ap (λ (x : InputCtx). x.tx_id) e,
  inl (ap (λ (x : InputCtx). x.input_id) e),
  λ m. not_contained seen s new (rw (ap (λ (x : InputCtx). x.input_id) e) at m),
)
fetched_cons id seen ss s c new (inr (t, m, n)) = (t, inr m, n)

pick_sound :
    (id : String) (seen ss : List String) (c : InputCtx)
    → Among c (pick id seen ss)
    → (c.tx_id ≡ id) × Among c.input_id ss × ¬ Among c.input_id seen
unfolding pick
pick_sound id seen [] c h = absurd h
pick_sound id seen (s ∷ ss) c h = elim (Bool-cases (contains seen s)) [
  | inl known ↦ let (t, m, n) = pick_sound id seen ss c (rw known at h) in (t, inr m, n)
  | inr new ↦
      let h' : (c ≡ record { tx_id = id; input_id = s }) ⊎ Among c (pick id seen ss) =
        rw new at h in
      fetched_cons id seen ss s c new
        (elim h' [ inl e ↦ inl e | inr m ↦ inr (pick_sound id seen ss c m) ])
]

pub pick_complete :
    (id : String) (seen ss : List String) (c : InputCtx)
    → c.tx_id ≡ id
    → Among c.input_id ss
    → ¬ Among c.input_id seen
    → Among c (pick id seen ss)
unfolding pick
pick_complete id seen [] c e m n = absurd m
pick_complete id seen (s ∷ ss) c e (inl here) n = elim (Bool-cases (contains seen s)) [
  | inl known ↦ absurd (n (rw here (contains→Among seen s known)))
  | inr new ↦ rw new (inl (ground arith))
]
pick_complete id seen (s ∷ ss) c e (inr there) n = elim (Bool-cases (contains seen s)) [
  | inl known ↦ rw known (pick_complete id seen ss c e there n)
  | inr new ↦ rw new (inr (pick_complete id seen ss c e there n))
]

-- `IsFetched`, with boxes created before the first transaction.
abbrev FetchedAfter : List String → InputCtx → List Boxes → Type 0
FetchedAfter seen c bs =
    (before : List Boxes) × (b : Boxes) × (after : List Boxes) × (bs ≡ before ++ b ∷ after)
    × (c.tx_id ≡ b.id)
    × Among c.input_id b.spent
    × ¬ Among c.input_id ((seen ++ all_created before) ++ b.created)

needed_sound :
    (seen : List String) (bs : List Boxes) (c : InputCtx)
    → Among c (needed seen bs)
    → FetchedAfter seen c bs
unfolding needed
needed_sound seen [] c h = absurd h
needed_sound seen (b ∷ bs) c h =
    elim (Among-append c (pick b.id (seen ++ b.created) b.spent) (needed (seen ++ b.created) bs)
      h) [
        | inl here ↦
            let (t, m, n) = pick_sound b.id (seen ++ b.created) b.spent c here in
            ([], b, bs, refl, t, m, rw append-nil n)
        | inr there ↦
            let (before, d, after, e, t, m, n) = needed_sound (seen ++ b.created) bs c there in
            (b ∷ before, d, after, ap (λ l. b ∷ l) e, t, m, rw (← append_assoc) n)
      ]

needed_complete :
    (seen : List String) (before : List Boxes) (b : Boxes) (after : List Boxes) (c : InputCtx)
    → c.tx_id ≡ b.id
    → Among c.input_id b.spent
    → ¬ Among c.input_id ((seen ++ all_created before) ++ b.created)
    → Among c (needed seen (before ++ b ∷ after))
unfolding needed
needed_complete seen [] b after c t m n =
    Among-append_left c _ _
      (pick_complete b.id (seen ++ b.created) b.spent c t m (rw append-nil at n))
needed_complete seen (d ∷ before) b after c t m n =
    Among-append_right c _ _
      (needed_complete (seen ++ d.created) before b after c t m (rw (append_assoc seen) n))

pub get_inputs_for_txs-needed :
    (txs : List ErgoTransaction) (bs : List Boxes)
    → AllHaveBoxes txs bs
    → get_inputs_for_txs (some txs) ≡ ok (needed [] bs)
unfolding get_inputs_for_txs
get_inputs_for_txs-needed txs bs h = collect_txs-eq [] [] txs bs h

-- For transactions whose pointers are set, `get_inputs_for_txs` succeeds, and a context is in
-- its result exactly when a transaction of its id spends the box and neither that transaction
-- nor an earlier one creates it.
pub get_inputs_for_txs_exact :
    (txs : List ErgoTransaction) (bs : List Boxes)
    → AllHaveBoxes txs bs
    → (coins : List InputCtx) × (get_inputs_for_txs (some txs) ≡ ok coins)
      × ((c : InputCtx) → Among c coins ↔ IsFetched c bs)
get_inputs_for_txs_exact txs bs h = (
  needed [] bs,
  get_inputs_for_txs-needed txs bs h,
  λ c. (
    needed_sound [] bs c,
    λ (before, b, after, e, t, m, n). rw e (needed_complete [] before b after c t m n),
  ),
)
