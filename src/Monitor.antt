-- ===== src/Monitor.antt =====
-- How a channel's funding and closing are followed over blocks (vls-core/src/monitor.rs). A
-- transaction has what the monitor reads and stores of it; its id, a hash of it, is a parameter. A
-- set of outpoints is a list without repetitions. The sanity flag and the decode state are kept;
-- locks and log lines are left out.
pub mod Blocks
pub mod Undo
mod Tests
pub mod Depths
pub mod Streams
pub mod RoundTrip
use vls.Prelude.{
  ℕ, ◌+◌, ◌-◌, ◌%◌, Bool, true, false, not, ◌&&◌, ◌||◌, ltb, ◌==◌, if◌then◌else◌, Option, none,
  some, is_some, List, [], ◌∷◌, ◌++◌, length, get_elem?, u32_mod, add_u32, Outcome, ok, assert,
  unwrap, ◌>>=◌, ◌>>◌,
}

pub record OutPoint : Type 0 where
  pub txid : ℕ
  pub vout : ℕ

abbrev pub same_outpoint : OutPoint → OutPoint → Bool
same_outpoint a b = (a.txid == b.txid) && (a.vout == b.vout)

abbrev pub is_outpoint : Option OutPoint → OutPoint → Bool
is_outpoint none b = false
is_outpoint (some a) b = same_outpoint a b

-- `contains` and `insert` of a set of outpoints.
abbrev pub watched : List OutPoint → OutPoint → Bool
watched [] o = false
watched (x ∷ xs) o = same_outpoint x o || watched xs o

abbrev pub watch : OutPoint → List OutPoint → List OutPoint
watch o xs = if watched xs o then xs else o ∷ xs

pub record TxIn : Type 0 where
  pub previous_output : OutPoint
  pub script_and_witness : ℕ

pub record Transaction : Type 0 where
  pub version : ℕ
  pub lock_time : ℕ
  pub input : List TxIn
  pub output : List ℕ

pub data StateChange : Type 0 where
  funding_confirmed : OutPoint → StateChange
  funding_double_spent : OutPoint → StateChange
  closing_confirmed : ℕ → Transaction → StateChange

pub record BlockDecodeState : Type 0 where
  pub changes : List StateChange
  pub version : ℕ
  pub input_num : ℕ
  pub output_num : ℕ
  pub closing_tx : Option Transaction
  pub block_hash : ℕ

pub record State : Type 0 where
  pub height : ℕ
  pub funding_txids : List ℕ
  pub funding_vouts : List ℕ
  pub funding_inputs : List OutPoint
  pub funding_height : Option ℕ
  pub funding_outpoint : Option OutPoint
  pub funding_double_spent_height : Option ℕ
  pub closing_height : Option ℕ
  pub saw_block : Bool
  pub decode_state : Option BlockDecodeState

-- `ChainMonitor::new`
unfoldable pub new : ℕ → State
new height = record {
  height = height;
  funding_txids = [];
  funding_vouts = [];
  funding_inputs = [];
  funding_height = none;
  funding_outpoint = none;
  funding_double_spent_height = none;
  closing_height = none;
  saw_block = false;
  decode_state = none;
}

-- Both ways of adding a funding transaction.
unfoldable pub add_funding_outpoint : State → OutPoint → Outcome State
add_funding_outpoint s o = do
  assert (length s.funding_txids == 0)
  assert (length s.funding_txids == length s.funding_vouts)
  ok (record s {
    funding_txids = s.funding_txids ++ (o.txid ∷ []);
    funding_vouts = s.funding_vouts ++ (o.vout ∷ []);
  })

unfoldable pub watch_inputs : List TxIn → List OutPoint → List OutPoint
watch_inputs [] inputs = inputs
watch_inputs (i ∷ is) inputs = watch_inputs is (watch i.previous_output inputs)

unfoldable pub add_funding_inputs : State → Transaction → State
add_funding_inputs s tx = record s { funding_inputs = watch_inputs tx.input s.funding_inputs }

unfoldable pub add_funding : (Transaction → ℕ) → State → Transaction → ℕ → Outcome State
add_funding txid_of s tx vout = do
  added ← add_funding_outpoint s (record { txid = txid_of tx; vout = vout })
  ok (add_funding_inputs added tx)

unfoldable pub is_not_ready_for_push : State → Bool
is_not_ready_for_push s = not (is_some s.decode_state) && not s.saw_block

unfoldable pub on_block_start : State → ℕ → State
on_block_start s block_hash = record s {
  saw_block = true;
  decode_state = some (record {
    changes = [];
    version = 0;
    input_num = 0;
    output_num = 0;
    closing_tx = none;
    block_hash = block_hash;
  });
}

-- What each push event does to the decode state of a monitor that is ready.
unfoldable pub pushed : State → (BlockDecodeState → Outcome BlockDecodeState) → Outcome State
pushed s event =
    if is_not_ready_for_push s
    then ok s
    else (unwrap s.decode_state >>= λ d. event d >>= λ e. ok (record s { decode_state = some e }))

unfoldable pub start_transaction : ℕ → BlockDecodeState → Outcome BlockDecodeState
start_transaction version d =
    ok (record d { version = version; input_num = 0; output_num = 0; closing_tx = none })

unfoldable pub on_transaction_start : State → ℕ → Outcome State
on_transaction_start s version = pushed s (start_transaction version)

-- `vec.push`
abbrev push : {A : Type 0} → List A → A → List A
push xs x = xs ++ (x ∷ [])

unfoldable pub read_input : State → TxIn → BlockDecodeState → Outcome BlockDecodeState
read_input s input d = do
  let changes : List StateChange =
      if watched s.funding_inputs input.previous_output
      then push d.changes (StateChange.funding_double_spent input.previous_output)
      else d.changes
  let closing_tx : Option Transaction =
      if is_outpoint s.funding_outpoint input.previous_output
      then some (record { version = d.version; lock_time = 0; input = input ∷ []; output = [] })
      else d.closing_tx
  assert (not (is_some closing_tx) || (d.input_num == 0))
  ok (record d { changes = changes; closing_tx = closing_tx; input_num = add_u32 d.input_num 1 })

unfoldable pub on_transaction_input : State → TxIn → Outcome State
on_transaction_input s input = pushed s (read_input s input)

-- `MAX_COMMITMENT_OUTPUTS` is 600.
abbrev pub closing_output : Option Transaction → ℕ → ℕ → Outcome (Option Transaction)
closing_output none output output_num = ok none
closing_output (some tx) output output_num =
    assert (ltb output_num 600) >> ok (some (record tx { output = push tx.output output }))

unfoldable pub read_output : ℕ → BlockDecodeState → Outcome BlockDecodeState
read_output output d = do
  closing_tx ← closing_output d.closing_tx output d.output_num
  ok (record d { closing_tx = closing_tx; output_num = add_u32 d.output_num 1 })

unfoldable pub on_transaction_output : State → ℕ → Outcome State
on_transaction_output s output = pushed s (read_output output)

-- `position`
abbrev pub position : List ℕ → ℕ → Option ℕ
position [] x = none
position (y ∷ ys) x =
    let later = position ys x in
    if y == x then some 0 else elim later [ none ↦ none | some i ↦ some (1 + i) ]

-- The change if this was the funding transaction; its position indexes the outputs.
unfoldable pub funding_change :
    State → ℕ → ℕ → Option ℕ → List StateChange → Outcome (List StateChange)
funding_change s txid output_num none changes = ok changes
funding_change s txid output_num (some ind) changes = do
  vout ← unwrap (get_elem? s.funding_vouts ind)
  assert (ltb vout output_num)
  ok (push changes (StateChange.funding_confirmed (record { txid = txid; vout = vout })))

abbrev pub closing_change : ℕ → ℕ → Option Transaction → List StateChange → List StateChange
closing_change lock_time txid none changes = changes
closing_change lock_time txid (some tx) changes =
    push changes (StateChange.closing_confirmed txid (record tx { lock_time = lock_time }))

unfoldable pub end_transaction : State → ℕ → ℕ → BlockDecodeState → Outcome BlockDecodeState
end_transaction s lock_time txid d = do
  changes ← funding_change s txid d.output_num (position s.funding_txids txid) d.changes
  ok (record d { changes = closing_change lock_time txid d.closing_tx changes; closing_tx = none })

unfoldable pub on_transaction_end : State → ℕ → ℕ → Outcome State
on_transaction_end s lock_time txid = pushed s (end_transaction s lock_time txid)
