-- ===== src/Rosetta/Converter/Operations.antt =====
-- What `tx_to_rosetta_tx` returns.
mod Shapes
pub use Shapes.*
use mathlib.Core.List.{append_assoc, append-nil}
use rosetta_ergo.Base.{
  ℕ, suc, ℤ, pos, String, Option, none, some, List, [], ◌∷◌, ◌++◌, ◌≡◌, ◌∙◌, refl, ap, arith,
  Result, ok, err, panics, blocks, >>=-eq-ok, wrap_with-eq-ok, deref-eq-ok, length, length-append,
}
use rosetta_ergo.Decimal.{format_int}
use rosetta_ergo.Sdk.{
  Transaction, Operation, OperationIdentifier, AccountCoin, Amount, coin_created, coin_spent,
}
use rosetta_ergo.Ergo.Types.{ErgoTransaction, ErgoTransactionInput, ErgoTransactionOutput}
use rosetta_ergo.Ergo.Constants.{erg_currency, input_op_type, output_op_type, success_status}
use rosetta_ergo.Ergo.Client.{Client}
use rosetta_ergo.Rosetta.Converter.{
  BlockConverter, find_coin_for_input, wrap_deref, input_to_rosetta_op, output_address,
  output_to_rosetta_op, convert_input, convert_inputs, convert_outputs, tx_to_rosetta_tx,
}

append_round {ℓ} :
    {A : Type ℓ} (k : ℕ) (done ops : List Operation) (op : Operation)
    (ids : List OperationIdentifier) (is : List A)
    → op.operation_identifier.index ≡ pos k
    → ◌≡◌ {A = List Operation × List OperationIdentifier}
        (
          (done ++ op ∷ []) ++ ops,
          (ids ++ record { index = op.operation_identifier.index; network_index = none } ∷ [])
              ++ input_ids (suc k) is,
        )
        (
          done ++ op ∷ ops,
          ids ++ record { index = pos k; network_index = none } ∷ input_ids (suc k) is,
        )
append_round k done ops op ids is q =
    rw (append_assoc done (op ∷ []) ops, append_assoc ids _ (input_ids (suc k) is), q)

module _ (e : Client) (negate_value : String → Result String) where
  convert_input-SpendsInput :
      (c : BlockConverter) (id : Option String) (n : ℕ) (i : ErgoTransactionInput) (op : Operation)
      → convert_input e negate_value c id n n i ≡ ok op
      → SpendsInput e negate_value c n i op
  unfolding convert_input input_to_rosetta_op
  convert_input-SpendsInput c id n i op h =
      let (coin, found, h₁) = >>=-eq-ok _ _ h in
      let (held, has, h₂) = >>=-eq-ok _ _ (wrap_with-eq-ok _ _ _ h₁) in
      let (v, neg, h₃) = >>=-eq-ok _ _ h₂ in
      record {
        coin = coin;
        held = held;
        negated = v;
        is_found = wrap_deref-eq-ok _ id _ found;
        is_held = deref-eq-ok _ has;
        is_negated = wrap_with-eq-ok _ _ _ neg;
        is_op = cc h₃;
      }

  output_op-CreatesOutput :
      (related : List OperationIdentifier) (n : ℕ) (o : ErgoTransactionOutput) (op : Operation)
      → output_to_rosetta_op e negate_value o (pos n) related ≡ ok op
      → CreatesOutput e negate_value related n o op
  unfolding output_to_rosetta_op
  output_op-CreatesOutput related n o op h =
      let (addr, a, h₁) = >>=-eq-ok _ _ h in
      let (index, x, h₂) = >>=-eq-ok _ _ h₁ in
      let (box_id, b, h₃) = >>=-eq-ok _ _ h₂ in
      record {
        address = addr;
        index = index;
        box_id = box_id;
        is_address = a;
        is_index = deref-eq-ok _ x;
        is_box_id = deref-eq-ok _ b;
        is_op = cc h₃;
      }

  -- The loop appends the operations of its inputs and their identifiers to what it has.
  convert_inputs-SpendsAll :
      (c : BlockConverter) (id : Option String) (k : ℕ) (done : List Operation)
      (ids : List OperationIdentifier) (is : List ErgoTransactionInput)
      {r : List Operation × List OperationIdentifier}
      → length done ≡ k
      → convert_inputs e negate_value c id k done ids is ≡ ok r
      → (ops : List Operation) × SpendsAll e negate_value c k is ops
        × (length ops ≡ length is)
        × (r ≡ (done ++ ops, ids ++ input_ids k is))
  unfolding convert_inputs
  convert_inputs-SpendsAll c id k done ids [] n h =
      ([], tt, refl, rw (append-nil done, append-nil ids) (cc))
  convert_inputs-SpendsAll c id k done ids (i ∷ is) {r} n h =
      let (op, first, later) =
        >>=-eq-ok (convert_input e negate_value c id (length done) k i) _ h in
      let here : SpendsInput e negate_value c k i op =
        convert_input-SpendsInput c id k i op (rw n at first) in
      let n' : length (done ++ op ∷ []) ≡ suc k = omega (arith, length-append done (op ∷ [])) in
      let (ops, there, size, e') = convert_inputs-SpendsAll c id (suc k) _ _ is {r = r} n' later in
      (
        op ∷ ops,
        (here, there),
        ap suc size,
        e'
            ∙ append_round k done ops op ids is
                (ap (λ (o : Operation). o.operation_identifier.index) here.is_op),
      )

  convert_outputs-CreatesAll :
      (related : List OperationIdentifier) (k : ℕ) (done : List Operation)
      (os : List ErgoTransactionOutput) {r : List Operation}
      → length done ≡ k
      → convert_outputs e negate_value related done os ≡ ok r
      → (ops : List Operation) × CreatesAll e negate_value related k os ops × (r ≡ done ++ ops)
  unfolding convert_outputs
  convert_outputs-CreatesAll related k done [] n h = ([], tt, rw (append-nil done) (cc))
  convert_outputs-CreatesAll related k done (o ∷ os) {r} n h =
      let (op, first, later) = >>=-eq-ok _ _ h in
      let made : output_to_rosetta_op e negate_value o (pos (length done)) related ≡ ok op =
        wrap_deref-eq-ok _ o.box_id _ first in
      let here : CreatesOutput e negate_value related k o op =
        output_op-CreatesOutput related k o op (rw n at made) in
      let n' : length (done ++ op ∷ []) ≡ suc k = omega (arith, length-append done (op ∷ [])) in
      let (ops, there, e') = convert_outputs-CreatesAll related (suc k) _ os {r = r} n' later in
      (op ∷ ops, (here, there), e' ∙ append_assoc done (op ∷ []) ops)

  -- A transaction that `tx_to_rosetta_tx` returns has the identifier of the node's transaction,
  -- and its operations are, numbered from 0 without a gap: one for each input in order, which
  -- spends the input's box with the negated value and the owner of the coin that was found for
  -- it, then one for each output in order, which creates the output's box with its value and is
  -- related to exactly the operations of the inputs.
  pub tx_to_rosetta_tx-IsConverted :
      (c : BlockConverter) (tx : ErgoTransaction) (t : Transaction)
      → tx_to_rosetta_tx e negate_value c tx ≡ ok t
      → IsConverted e negate_value c tx t
  unfolding tx_to_rosetta_tx
  tx_to_rosetta_tx-IsConverted c tx t h =
      let (is, has_is, h₁) = >>=-eq-ok _ _ h in
      let (r, ins, h₂) = >>=-eq-ok _ _ h₁ in
      let (os, has_os, h₃) = >>=-eq-ok _ _ h₂ in
      let (all, outs, h₄) = >>=-eq-ok (convert_outputs e negate_value r.1 r.0 os) _ h₃ in
      let (id, has_id, h₅) = >>=-eq-ok _ _ h₄ in
      let (spent, spends, size, r_eq) = convert_inputs-SpendsAll c tx.id 0 [] [] is refl ins in
      let outs' : convert_outputs e negate_value (input_ids 0 is) spent os ≡ ok all =
        rw r_eq at outs in
      let (made, creates, all_eq) =
        convert_outputs-CreatesAll (input_ids 0 is) (length is) spent os size outs' in
      record {
        inputs = is;
        outputs = os;
        input_ops = spent;
        output_ops = made;
        has_inputs = deref-eq-ok _ has_is;
        has_outputs = deref-eq-ok _ has_os;
        has_id = deref-eq-ok _ has_id ∙ cc h₅;
        in_order = cc (all_eq, h₅);
        spends = spends;
        creates = creates;
      }
