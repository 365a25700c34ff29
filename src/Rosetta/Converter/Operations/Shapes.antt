-- ===== src/Rosetta/Converter/Operations/Shapes.antt =====
-- The operations that an input, an output and a transaction become.
use rosetta_ergo.Base.{
  ℕ, suc, ℤ, pos, String, Option, none, some, List, [], ◌∷◌, ◌++◌, ◌≡◌, Result, ok, err, panics,
  blocks, length,
}
use rosetta_ergo.Decimal.{format_int}
use rosetta_ergo.Sdk.{
  Transaction, Operation, OperationIdentifier, AccountCoin, Amount, coin_created, coin_spent,
}
use rosetta_ergo.Ergo.Types.{ErgoTransaction, ErgoTransactionInput, ErgoTransactionOutput}
use rosetta_ergo.Ergo.Constants.{erg_currency, input_op_type, output_op_type, success_status}
use rosetta_ergo.Ergo.Client.{Client}
use rosetta_ergo.Rosetta.Converter.{BlockConverter, find_coin_for_input, wrap_deref, output_address}

pub wrap_deref-eq-ok {ℓ} :
    {A : Type ℓ} (f : String) (p : Option String) (m : Result A) {a : A}
    → wrap_deref f p m ≡ ok a
    → m ≡ ok a
wrap_deref-eq-ok f p (ok a) h = h
wrap_deref-eq-ok f none (err e) h = cc
wrap_deref-eq-ok f (some s) (err e) h = cc
wrap_deref-eq-ok f p panics h = cc
wrap_deref-eq-ok f p blocks h = cc

pub wrap_deref-ok {ℓ} :
    {A : Type ℓ} (f : String) (p : Option String) (m : Result A) {a : A}
    → m ≡ ok a
    → wrap_deref f p m ≡ ok a
wrap_deref-ok f p (ok a) h = h
wrap_deref-ok f p (err e) h = cc
wrap_deref-ok f p panics h = cc
wrap_deref-ok f p blocks h = cc

-- The identifiers of the operations `k`, `k + 1`, … of `n` inputs, as the outputs name them.
abbrev pub input_ids {ℓ} : {A : Type ℓ} → ℕ → List A → List OperationIdentifier
input_ids k [] = []
input_ids k (i ∷ is) = record { index = pos k; network_index = none } ∷ input_ids (suc k) is

module _ (e : Client) (negate_value : String → Result String) where
  -- Operation `n` spends the box of input `n` and takes the coin's negated value from its owner.
  pub record SpendsInput (c : BlockConverter) (n : ℕ) (i : ErgoTransactionInput) (op : Operation)
      : Type 0 where
    pub coin : AccountCoin
    pub held : Amount
    pub negated : String
    pub is_found : find_coin_for_input c i.box_id ≡ ok coin
    pub is_held : coin.coin.amount ≡ some held
    pub is_negated : negate_value held.value ≡ ok negated
    pub is_op : op ≡ record {
      operation_identifier = record { index = pos n; network_index = some (pos n) };
      related_operations = [];
      op_type = input_op_type;
      status = some success_status;
      account = coin.account;
      amount = some (record { value = negated; currency = erg_currency });
      coin_change =
          some (record {
            coin_identifier = record { identifier = i.box_id };
            coin_action = coin_spent;
          });
    }

  -- Operation `n` creates the box of the output, and is related to the operations of the inputs.
  pub record CreatesOutput (related : List OperationIdentifier) (n : ℕ) (o : ErgoTransactionOutput)
      (op : Operation) : Type 0 where
    pub address : String
    pub index : ℤ
    pub box_id : String
    pub is_address : output_address e negate_value o.ergo_tree ≡ ok address
    pub is_index : o.index ≡ some index
    pub is_box_id : o.box_id ≡ some box_id
    pub is_op : op ≡ record {
      operation_identifier = record { index = pos n; network_index = some index };
      related_operations = related;
      op_type = output_op_type;
      status = some success_status;
      account = some (record { address = address });
      amount = some (record { value = format_int o.value; currency = erg_currency });
      coin_change =
          some (record {
            coin_identifier = record { identifier = box_id };
            coin_action = coin_created;
          });
    }

  abbrev pub SpendsAll : BlockConverter → ℕ → List ErgoTransactionInput → List Operation → Type 0
  SpendsAll c n [] [] = Unit
  SpendsAll c n (i ∷ is) (op ∷ ops) = SpendsInput c n i op × SpendsAll c (suc n) is ops
  SpendsAll c n _ _ = ⊥

  abbrev pub CreatesAll :
      List OperationIdentifier → ℕ → List ErgoTransactionOutput → List Operation → Type 0
  CreatesAll related n [] [] = Unit
  CreatesAll related n (o ∷ os) (op ∷ ops) =
      CreatesOutput related n o op × CreatesAll related (suc n) os ops
  CreatesAll related n _ _ = ⊥

  -- The operations are those of the inputs, then those of the outputs, numbered from 0.
  pub record IsConverted (c : BlockConverter) (tx : ErgoTransaction) (t : Transaction)
      : Type 0 where
    pub inputs : List ErgoTransactionInput
    pub outputs : List ErgoTransactionOutput
    pub input_ops : List Operation
    pub output_ops : List Operation
    pub has_inputs : tx.inputs ≡ some inputs
    pub has_outputs : tx.outputs ≡ some outputs
    pub has_id : tx.id ≡ some t.transaction_identifier.hash
    pub in_order : t.operations ≡ input_ops ++ output_ops
    pub spends : SpendsAll c 0 inputs input_ops
    pub creates : CreatesAll (input_ids 0 inputs) (length inputs) outputs output_ops
