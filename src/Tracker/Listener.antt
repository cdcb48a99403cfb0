-- ===== src/Tracker/Listener.antt =====
-- A channel's monitor as a listener of the tracker (vls-core/src/monitor.rs).
use vls.Prelude.{ℕ, Outcome, ok, ◌>>=◌}
use vls.Monitor.{
  OutPoint, Transaction, State, on_block_start, on_transaction_start, on_transaction_input,
  on_transaction_output, on_transaction_end,
}
use vls.Monitor.Blocks.{
  Watches, on_add_block, on_add_block_end, on_remove_block, on_remove_block_end,
}
use vls.Tracker.{BlockHeader, Event, ChainListener}

pub record ChainMonitor : Type 0 where
  pub funding_outpoint : OutPoint
  pub state : State

abbrev pub with_state : ChainMonitor → Outcome (State × Watches) → Outcome (ChainMonitor × Watches)
with_state m changed = changed >>= λ r. ok (record m { state = r.0 }, r.1)

-- `block_hash` and `txid_of` are the hashes of a header and of a transaction.
module _ (block_hash : BlockHeader → ℕ) (txid_of : Transaction → ℕ) where
  -- The event goes to the state, which does nothing at the end of a block.
  abbrev pub push_state : State → Event → Outcome State
  push_state s (Event.block_start header) = ok (on_block_start s (block_hash header))
  push_state s (Event.transaction_start version) = on_transaction_start s version
  push_state s (Event.transaction_input input) = on_transaction_input s input
  push_state s (Event.transaction_output output) = on_transaction_output s output
  push_state s (Event.transaction_end lock_time txid) = on_transaction_end s lock_time txid
  push_state s Event.block_end = ok s

  abbrev pub monitor_listener : ChainListener ChainMonitor
  monitor_listener = record {
    key = λ m. m.funding_outpoint;
    on_add_block = λ m txs hash. with_state m (on_add_block txid_of m.state txs hash);
    on_add_streamed_block = λ m hash. with_state m (on_add_block_end m.state hash);
    on_remove_block = λ m txs hash. with_state m (on_remove_block txid_of m.state txs hash);
    on_remove_streamed_block = λ m hash. with_state m (on_remove_block_end m.state hash);
    on_push = λ m event. push_state m.state event >>= λ s. ok (record m { state = s });
  }
