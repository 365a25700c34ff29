-- ===== src/Errutil.antt =====
-- pkg/errutil/errutil.go: the errors of the API, and `WrapErr`.
use rosetta_ergo.Base.{pos, true, false, Option, none, List, [], ◌∷◌, Err}
use rosetta_ergo.Sdk.{RosettaError}

abbrev pub err_unimplemented : RosettaError
err_unimplemented = record {
  code = pos 0;
  message = "Endpoint not implemented";
  retriable = false;
  details = none;
}

abbrev pub err_unavailable_offline : RosettaError
err_unavailable_offline = record {
  code = pos 1;
  message = "Endpoint unavailable offline";
  retriable = false;
  details = none;
}

abbrev pub err_not_ready : RosettaError
err_not_ready = record {
  code = pos 2;
  message = "ergo node is not ready";
  retriable = true;
  details = none;
}

abbrev pub err_ergo_node : RosettaError
err_ergo_node = record {
  code = pos 3;
  message = "Ergo node error";
  retriable = false;
  details = none;
}

abbrev pub err_block_not_found : RosettaError
err_block_not_found = record {
  code = pos 4;
  message = "Block not found";
  retriable = false;
  details = none;
}

abbrev pub err_unable_to_derive : RosettaError
err_unable_to_derive = record {
  code = pos 5;
  message = "Unable to derive address";
  retriable = false;
  details = none;
}

abbrev pub err_unclear_intent : RosettaError
err_unclear_intent = record {
  code = pos 6;
  message = "Unable to parse intent";
  retriable = false;
  details = none;
}

abbrev pub err_unable_to_parse_intermediate_result : RosettaError
err_unable_to_parse_intermediate_result = record {
  code = pos 7;
  message = "Unable to parse intermediate result";
  retriable = false;
  details = none;
}

abbrev pub err_script_pub_keys_missing : RosettaError
err_script_pub_keys_missing = record {
  code = pos 8;
  message = "Missing ScriptPubKeys";
  retriable = false;
  details = none;
}

abbrev pub err_invalid_coin : RosettaError
err_invalid_coin = record {
  code = pos 9;
  message = "Coin is invalid";
  retriable = false;
  details = none;
}

abbrev pub err_unable_to_decode_address : RosettaError
err_unable_to_decode_address = record {
  code = pos 10;
  message = "Unable to decode address";
  retriable = false;
  details = none;
}

abbrev pub err_unable_to_decode_script_pub_key : RosettaError
err_unable_to_decode_script_pub_key = record {
  code = pos 11;
  message = "Unable to decode ScriptPubKey";
  retriable = false;
  details = none;
}

abbrev pub err_unable_to_calculate_signature_hash : RosettaError
err_unable_to_calculate_signature_hash = record {
  code = pos 12;
  message = "Unable to calculate signature hash";
  retriable = false;
  details = none;
}

abbrev pub err_unsupported_script_type : RosettaError
err_unsupported_script_type = record {
  code = pos 13;
  message = "Script type is not supported";
  retriable = false;
  details = none;
}

abbrev pub err_unable_to_compute_pk_script : RosettaError
err_unable_to_compute_pk_script = record {
  code = pos 14;
  message = "Unable to compute PK script";
  retriable = false;
  details = none;
}

abbrev pub err_unable_to_get_coins : RosettaError
err_unable_to_get_coins = record {
  code = pos 15;
  message = "Unable to get coins";
  retriable = false;
  details = none;
}

abbrev pub err_transaction_not_found : RosettaError
err_transaction_not_found = record {
  code = pos 16;
  message = "Transaction not found";
  retriable = false;
  details = none;
}

abbrev pub err_could_not_get_fee_rate : RosettaError
err_could_not_get_fee_rate = record {
  code = pos 17;
  message = "Could not get suggested fee rate";
  retriable = false;
  details = none;
}

abbrev pub err_unable_to_get_balance : RosettaError
err_unable_to_get_balance = record {
  code = pos 18;
  message = "Unable to get balance";
  retriable = false;
  details = none;
}

abbrev pub errors : List RosettaError
errors =
    err_unimplemented ∷ err_unavailable_offline ∷ err_not_ready ∷ err_ergo_node
    ∷ err_block_not_found ∷ err_unable_to_derive ∷ err_unclear_intent
    ∷ err_unable_to_parse_intermediate_result ∷ err_script_pub_keys_missing ∷ err_invalid_coin
    ∷ err_unable_to_decode_address ∷ err_unable_to_decode_script_pub_key
    ∷ err_unable_to_calculate_signature_hash ∷ err_unsupported_script_type
    ∷ err_unable_to_compute_pk_script ∷ err_unable_to_get_coins ∷ err_transaction_not_found
    ∷ err_could_not_get_fee_rate ∷ err_unable_to_get_balance ∷ []

-- A new error, with the text of `e` (kept here as `e` itself) under the key "context".
unfoldable pub wrap_err : RosettaError → Option Err → RosettaError
wrap_err r_err e = record {
  code = r_err.code;
  message = r_err.message;
  retriable = r_err.retriable;
  details = e;
}
