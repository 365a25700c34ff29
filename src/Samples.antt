-- ===== src/Samples.antt =====
-- Concrete data for the tests: a function that negates decimal texts, a node that answers every
-- request, a small chain of transactions, and a storage that holds one coin.
mod Node
unfoldable pub use Node.*
use rosetta_ergo.Base.{
  ◌≡◌, Among, inl, inr, sym, ◌∙◌, eq_iff, contains, ℕ, suc, ℤ, pos, neg, String, false, Option,
  none, some, [], ◌∷◌, Result, ok, err, errorf, refl, sentinel, coin_not_found, account_missing,
  if◌then◌else◌, ◌==◌,
}
use rosetta_ergo.Decimal.{parse_int, format_int}
use rosetta_ergo.Sdk.{
  Block, BlockIdentifier, AccountCoin, Coin, Operation, Transaction, coin_created, coin_spent,
}
use rosetta_ergo.Ergo.Constants.{erg_currency}
use rosetta_ergo.Ergo.Types.{
  BlockHeader, BlockTransactions, FullBlock, ErgoTransaction, ErgoTransactionInput,
  ErgoTransactionOutput, NodeInfo,
}
use rosetta_ergo.Ergo.Client.{Client, Network}
use rosetta_ergo.Ergo.Inputs.Exact.{Boxes, AllHaveBoxes}
use rosetta_ergo.Ergo.Inputs.{InputCtx, get_inputs_for_txs}
use rosetta_ergo.Rosetta.Converter.{output_address}
use rosetta_ergo.Rosetta.Converter.Success.{NegatesIntegers, HasValue, OutputReady}
use rosetta_ergo.Rosetta.Converter.Coverage.{SpendsNoOwn}
use rosetta_ergo.Indexer.WaitTable.{WaitTableEntry}
use rosetta_ergo.Indexer.State.{Indexer}
use rosetta_ergo.Indexer.Storage.{Storage}

abbrev pub coin : String → String → Coin
coin box value = record {
  coin_identifier = record { identifier = box };
  amount = some (record { value = value; currency = erg_currency });
}

abbrev pub owned_coin : AccountCoin
owned_coin = record { account = some (record { address = "alice" }); coin = coin "b0" "5" }

abbrev pub head : BlockIdentifier
head = record { hash = "h1"; index = pos 1 }

abbrev pub operation : String → ℤ → Operation
operation box index = record {
  operation_identifier = record { index = index; network_index = none };
  related_operations = [];
  op_type = "OUTPUT";
  status = none;
  account = some (record { address = "alice" });
  amount = some (record { value = "5"; currency = erg_currency });
  coin_change =
      some (record { coin_identifier = record { identifier = box }; coin_action = coin_created });
}

-- A spent coin whose amount is still positive.
abbrev pub spending : String → ℤ → Operation
spending box index = record (operation box index) {
  coin_change =
      some (record { coin_identifier = record { identifier = box }; coin_action = coin_spent });
}

abbrev pub block : Block
block = record {
  block_identifier = record { hash = "h2"; index = pos 2 };
  parent_block_identifier = head;
  timestamp = pos 9;
  transactions =
      record {
        transaction_identifier = record { hash = "t1" };
        operations = operation "b1" (pos 0) ∷ [];
      }
      ∷ [];
}

abbrev pub stored_transaction : Transaction
stored_transaction = record { transaction_identifier = record { hash = "t1" }; operations = [] }

-- The database counts the writes; the head never moves.
abbrev pub storage : Storage ℕ
storage = record {
  get_head_block_identifier = λ db. ok head;
  get_block_lazy = λ db id. ok (record {
    block = record block { transactions = [] };
    other_transactions = record { hash = "t1" } ∷ [];
  });
  get_block_transaction = λ db id tx. ok stored_transaction;
  get_coin = λ db id.
      if id == "b0"
      then ok (coin "b0" "5", record { address = "alice" })
      else err (sentinel coin_not_found);
  get_coins = λ db account. ok ([], head);
  get_balance = λ db account currency index. err (sentinel account_missing);
  add_block = λ b db. (ok tt, suc db);
  remove_block = λ id db. (ok tt, suc db);
  see_block = λ b db. (ok tt, suc db);
  set_coins_imported = λ balances db. (ok tt, suc db);
  set_balance = λ account amount id db. (ok tt, suc db);
  commit = λ view db. (ok tt, view);
}

only : (s a : String) → Among s (a ∷ []) → s ≡ a
only s a (inl h) = h
only s a (inr h) = absurd h

pub has_value : HasValue owned_coin
unfolding parse_int
has_value = (record { value = "5"; currency = erg_currency }, pos 5, refl, refl)

pub ready : (box : String) → OutputReady client negate (output box (pos 5))
unfolding output_address
ready box = record {
  address = "4MQyMKvMbnCJG3aJ";
  index = pos 0;
  box_id = box;
  has_address = refl;
  has_index = refl;
  has_box_id = refl;
}

abbrev pub fetched : InputCtx
fetched = record { tx_id = "t1"; input_id = "b0" }

pub asked : get_inputs_for_txs txs.transactions ≡ ok (fetched ∷ [])
unfolding get_inputs_for_txs contains
asked = refl

pub spend_no_own : SpendsNoOwn (first_boxes ∷ second_boxes ∷ [])
spend_no_own = (
  λ s m n. cc ((eq_iff "b0" "b1").1 (sym (only s "b0" m) ∙ only s "b1" n)),
  (λ s m n. cc ((eq_iff "b1" "b2").1 (sym (only s "b1" m) ∙ only s "b2" n)), tt),
)

abbrev pub wait : ℤ → WaitTableEntry
wait earliest = record {
  listeners = pos 1;
  is_closed = false;
  channel_closed = false;
  aborted = false;
  earliest_block = earliest;
}

-- Two waits: for the transaction of `block`, and for one that never comes.
abbrev pub indexer : Indexer ℕ
indexer = record {
  coin_cache = ("b9", owned_coin) ∷ [];
  waiter = record { table = ("t1", wait (pos 9)) ∷ ("t7", wait (pos 3)) ∷ []; locked = false };
  seen = pos 4;
  db = 0;
}

abbrev pub hash_of : Option BlockIdentifier → String
hash_of none = ""
hash_of (some id) = id.hash
