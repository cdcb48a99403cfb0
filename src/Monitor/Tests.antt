-- ===== src/Monitor/Tests.antt =====
-- A monitor of a funding transaction that is confirmed, and reorganised away again.
use vls.Prelude.{ℕ, ◌+◌, ◌≡◌, refl, true, false, none, some, [], ◌∷◌, arith, add_u32, ok, panic}
use vls.Monitor.{
  OutPoint, Transaction, StateChange, BlockDecodeState, State, new, add_funding,
  add_funding_outpoint, add_funding_inputs, watch_inputs, is_not_ready_for_push, on_block_start,
  pushed, start_transaction, on_transaction_start, read_input, on_transaction_input, read_output,
  on_transaction_output, funding_change, end_transaction, on_transaction_end,
}
use vls.Monitor.Blocks.{
  Watches, on_add_block_end, on_remove_block_end, finish_block, add_change, add_changes,
  push_inputs, push_outputs, push_transactions, on_add_block, on_remove_block, as_chain_state,
}
use vls.Monitor.RoundTrip.{on_add_block-on_remove_block, on_remove_block_end_two_spent}
use vls.Monitor.Depths.{Past, grown, on_add_block_end-as_chain_state}

abbrev spent : OutPoint
spent = record { txid = 3; vout = 0 }

abbrev funding : Transaction
funding = record {
  version = 2;
  lock_time = 0;
  input = record { previous_output = spent; script_and_witness = 4 } ∷ [];
  output = 100 ∷ [];
}

abbrev txid_of : Transaction → ℕ
txid_of tx = tx.version + 7

abbrev waiting : State
waiting = record {
  height = 100;
  funding_txids = 9 ∷ [];
  funding_vouts = 0 ∷ [];
  funding_inputs = spent ∷ [];
  funding_height = none;
  funding_outpoint = none;
  funding_double_spent_height = none;
  closing_height = none;
  saw_block = false;
  decode_state = none;
}

funding_added : add_funding txid_of (new 100) funding 0 ≡ ok waiting
unfolding add_funding add_funding_outpoint add_funding_inputs watch_inputs new
funding_added = refl

abbrev outpoint : OutPoint
outpoint = record { txid = 9; vout = 0 }

abbrev read : BlockDecodeState
read = record {
  changes = StateChange.funding_double_spent spent ∷ StateChange.funding_confirmed outpoint ∷ [];
  version = 2;
  input_num = 1;
  output_num = 1;
  closing_tx = none;
  block_hash = 50;
}

abbrev confirmed : State
confirmed = record waiting {
  height = 101;
  funding_height = some 101;
  funding_outpoint = some outpoint;
  saw_block = true;
}

abbrev watches : Watches
watches = record { adds = outpoint ∷ []; removes = spent ∷ [] }

added : on_add_block txid_of waiting (funding ∷ []) 50 ≡ ok (confirmed, watches)
unfolding on_add_block push_transactions push_inputs push_outputs on_block_start pushed
    is_not_ready_for_push start_transaction on_transaction_start read_input on_transaction_input
    read_output on_transaction_output funding_change end_transaction on_transaction_end
    on_add_block_end finish_block add_change add_changes add_u32
added = refl

first_stream :
    push_transactions txid_of (funding ∷ []) (on_block_start waiting 50)
    ≡ ok (record waiting { saw_block = true; decode_state = some read })
unfolding push_transactions push_inputs push_outputs on_block_start pushed is_not_ready_for_push
    start_transaction on_transaction_start read_input on_transaction_input read_output
    on_transaction_output funding_change end_transaction on_transaction_end add_u32
first_stream = refl

second_stream :
    push_transactions txid_of (funding ∷ []) (on_block_start confirmed 50)
    ≡ ok (record confirmed { saw_block = true; decode_state = some read })
unfolding push_transactions push_inputs push_outputs on_block_start pushed is_not_ready_for_push
    start_transaction on_transaction_start read_input on_transaction_input read_output
    on_transaction_output funding_change end_transaction on_transaction_end add_u32
second_stream = refl

on_add_block-on_remove_block_example :
    on_remove_block txid_of confirmed (funding ∷ []) 50
    ≡ ok (record waiting { saw_block = true }, watches)
on_add_block-on_remove_block_example =
    on_add_block-on_remove_block txid_of waiting
      (record waiting { saw_block = true; decode_state = some read }) confirmed
      (record confirmed { saw_block = true; decode_state = some read }) read (funding ∷ []) 50
      watches (omega arith) added first_stream second_stream refl refl
      (record { confirmed = omega arith; spent = omega arith; closing = omega arith })
      (record { funding = λ h. refl; outpoint = λ h. refl; spent = λ h. refl; closing = λ h. refl })

abbrev ready : State
ready = record waiting { saw_block = true; decode_state = some read }

end_added : on_add_block_end ready 50 ≡ ok (confirmed, watches)
unfolding on_add_block_end is_not_ready_for_push finish_block add_change add_changes add_u32
end_added = refl

on_add_block_end-as_chain_state_example :
    ((as_chain_state confirmed).current_height ≡ (as_chain_state ready).current_height + 1)
    × ((as_chain_state confirmed).funding_depth ≡ 1)
    × ((as_chain_state confirmed).funding_double_spent_depth
        ≡ grown (as_chain_state ready).funding_double_spent_depth)
    × ((as_chain_state confirmed).closing_depth ≡ grown (as_chain_state ready).closing_depth)
    × Past confirmed
on_add_block_end-as_chain_state_example =
    on_add_block_end-as_chain_state ready read 50 (confirmed, watches) (omega arith)
      (record { funding = tt; double_spent = tt; closing = tt }) refl end_added

abbrev other : OutPoint
other = record { txid = 3; vout = 1 }

abbrev both_spent : BlockDecodeState
both_spent = record read {
  changes = StateChange.funding_double_spent spent ∷ StateChange.funding_double_spent other ∷ [];
}

on_remove_block_end_two_spent_example :
    (r : State × Watches) × (on_add_block_end (record waiting { decode_state = some both_spent }) 50
      ≡ ok r)
    × (on_remove_block_end (record r.0 { decode_state = some both_spent }) 50 ≡ panic)
on_remove_block_end_two_spent_example =
    on_remove_block_end_two_spent (record waiting { decode_state = some both_spent }) both_spent
      spent other 50 refl refl refl refl refl
