-- ===== src/Monitor/Blocks.antt =====
-- What a block changes when it is added and when it is removed (vls-core/src/monitor.rs), and the
-- depths that the validator reads.
use vls.Prelude.{
  ℕ, ◌+◌, ◌-◌, ◌%◌, Bool, true, false, not, ◌||◌, ◌==◌, if◌then◌else◌, Option, none, some, is_some,
  List, [], ◌∷◌, ◌++◌, u32_mod, add_u32, Outcome, ok, assert, unwrap, ◌>>=◌, ◌>>◌, length,
}
use vls.Monitor.{
  OutPoint, TxIn, Transaction, StateChange, State, is_not_ready_for_push, on_block_start,
  on_transaction_start, on_transaction_input, on_transaction_output, on_transaction_end,
}

-- What a listener returns: the outpoints to watch and those to stop watching.
pub record Watches : Type 0 where
  pub adds : List OutPoint
  pub removes : List OutPoint

abbrev pub is_confirmed : StateChange → Bool
is_confirmed (StateChange.funding_confirmed o) = true
is_confirmed (StateChange.funding_double_spent o) = false
is_confirmed (StateChange.closing_confirmed txid tx) = false

-- `any(|c| ..)`: whether a funding transaction was confirmed in the block.
abbrev pub have_funding_confirmed : List StateChange → Bool
have_funding_confirmed [] = false
have_funding_confirmed (c ∷ cs) = is_confirmed c || have_funding_confirmed cs

-- `closing_tx.input[0].previous_output`, of a transaction with one input.
unfoldable pub spent_by : Transaction → Outcome OutPoint
spent_by tx = elim tx.input [
  | [] ↦ assert false >> unwrap none
  | i ∷ is ↦ assert (length is == 0) >> ok i.previous_output
]

-- `get_or_insert`
abbrev pub or_some : Option ℕ → ℕ → Option ℕ
or_some none h = some h
or_some (some g) h = some g

abbrev pub is_height : Option ℕ → ℕ → Bool
is_height none h = false
is_height (some g) h = g == h

-- A round of the loop of `on_add_block_end`; `confirmed` is `have_funding_confirmed`.
unfoldable pub add_change : Bool → StateChange → State × Watches → Outcome (State × Watches)
add_change confirmed (StateChange.funding_confirmed o) (s, w) =
    assert (not (is_some s.funding_double_spent_height))
    >> ok (
      record s { funding_height = some s.height; funding_outpoint = some o },
      record w { adds = w.adds ++ (o ∷ []) },
    )
add_change true (StateChange.funding_double_spent o) (s, w) =
    ok (s, record w { removes = w.removes ++ (o ∷ []) })
add_change false (StateChange.funding_double_spent o) (s, w) =
    assert (not (is_some s.funding_height))
    >> ok (
      record s { funding_double_spent_height = or_some s.funding_double_spent_height s.height },
      record w { removes = w.removes ++ (o ∷ []) },
    )
add_change confirmed (StateChange.closing_confirmed txid tx) (s, w) = spent_by tx >>= λ o.
    ok (record s { closing_height = some s.height }, record w { removes = w.removes ++ (o ∷ []) })

unfoldable pub add_changes : Bool → List StateChange → State × Watches → Outcome (State × Watches)
add_changes confirmed [] r = ok r
add_changes confirmed (c ∷ cs) r = add_change confirmed c r >>= λ r'. add_changes confirmed cs r'

abbrev pub no_watches : Watches
no_watches = record { adds = []; removes = [] }

-- The decode state is taken, and must be of this block.
unfoldable pub finish_block : State → ℕ → Outcome (State × List StateChange)
finish_block s block_hash = unwrap s.decode_state >>= λ d.
    assert (d.block_hash == block_hash) >> ok (record s { decode_state = none }, d.changes)

unfoldable pub on_add_block_end : State → ℕ → Outcome (State × Watches)
on_add_block_end s block_hash =
    if is_not_ready_for_push s
    then ok (s, no_watches)
    else (finish_block s block_hash >>= λ done.
        add_changes (have_funding_confirmed done.1) done.1
          (record done.0 { saw_block = true; height = add_u32 done.0.height 1 }, no_watches))

-- A round of the loop of `on_remove_block_end`.
unfoldable pub remove_change : Bool → StateChange → State × Watches → Outcome (State × Watches)
remove_change confirmed (StateChange.funding_confirmed o) (s, w) =
    assert (is_height s.funding_height s.height)
    >> ok (
      record s { funding_height = none; funding_outpoint = none },
      record w { adds = w.adds ++ (o ∷ []) },
    )
remove_change true (StateChange.funding_double_spent o) (s, w) =
    ok (s, record w { removes = w.removes ++ (o ∷ []) })
remove_change false (StateChange.funding_double_spent o) (s, w) =
    assert (is_some s.funding_double_spent_height)
    >> ok (
      record s {
        funding_double_spent_height =
            if is_height s.funding_double_spent_height s.height
            then none
            else s.funding_double_spent_height;
      },
      record w { removes = w.removes ++ (o ∷ []) },
    )
remove_change confirmed (StateChange.closing_confirmed txid tx) (s, w) =
    assert (is_height s.closing_height s.height)
    >> (spent_by tx >>= λ o.
        ok (record s { closing_height = none }, record w { removes = w.removes ++ (o ∷ []) }))

unfoldable pub remove_changes :
    Bool → List StateChange → State × Watches → Outcome (State × Watches)
remove_changes confirmed [] r = ok r
remove_changes confirmed (c ∷ cs) r =
    remove_change confirmed c r >>= λ r'. remove_changes confirmed cs r'

abbrev pub lower : State × Watches → State × Watches
lower (s, w) = (record s { height = (s.height + u32_mod - 1) % u32_mod }, w)

unfoldable pub on_remove_block_end : State → ℕ → Outcome (State × Watches)
on_remove_block_end s block_hash =
    if is_not_ready_for_push s
    then ok (s, no_watches)
    else (finish_block s block_hash >>= λ done.
        remove_changes (have_funding_confirmed done.1) done.1 (done.0, no_watches) >>= λ r.
        ok (lower r))

unfoldable pub push_inputs : List TxIn → State → Outcome State
push_inputs [] s = ok s
push_inputs (i ∷ is) s = on_transaction_input s i >>= λ t. push_inputs is t

unfoldable pub push_outputs : List ℕ → State → Outcome State
push_outputs [] s = ok s
push_outputs (o ∷ os) s = on_transaction_output s o >>= λ t. push_outputs os t

-- `txid_of` is the hash that is a transaction's id.
module _ (txid_of : Transaction → ℕ) where
  unfoldable pub push_transactions : List Transaction → State → Outcome State
  push_transactions [] s = ok s
  push_transactions (tx ∷ txs) s = do
    started ← on_transaction_start s tx.version
    read ← push_inputs tx.input started
    written ← push_outputs tx.output read
    ended ← on_transaction_end written tx.lock_time (txid_of tx)
    push_transactions txs ended

  unfoldable pub on_add_block : State → List Transaction → ℕ → Outcome (State × Watches)
  on_add_block s txs block_hash =
      push_transactions txs (on_block_start s block_hash) >>= λ t. on_add_block_end t block_hash

  unfoldable pub on_remove_block : State → List Transaction → ℕ → Outcome (State × Watches)
  on_remove_block s txs block_hash =
      push_transactions txs (on_block_start s block_hash) >>= λ t. on_remove_block_end t block_hash

-- The confirmations of an event: `state.height + 1 - h`, or zero.
abbrev pub depth : ℕ → Option ℕ → ℕ
depth height none = 0
depth height (some h) = (add_u32 height 1 + u32_mod - h) % u32_mod

pub record ChainState : Type 0 where
  pub current_height : ℕ
  pub funding_depth : ℕ
  pub funding_double_spent_depth : ℕ
  pub closing_depth : ℕ

unfoldable pub funding_depth : State → ℕ
funding_depth s = depth s.height s.funding_height

unfoldable pub funding_double_spent_depth : State → ℕ
funding_double_spent_depth s = depth s.height s.funding_double_spent_height

unfoldable pub as_chain_state : State → ChainState
as_chain_state s = record {
  current_height = s.height;
  funding_depth = depth s.height s.funding_height;
  funding_double_spent_depth = depth s.height s.funding_double_spent_height;
  closing_depth = depth s.height s.closing_height;
}
