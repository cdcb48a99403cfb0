-- ===== src/Tracker.antt =====
-- The chain of headers that the signer follows, and its listeners (vls-core/src/chain/tracker.rs),
-- built without `tracker_size_workaround`. The crates `bitcoin`, `txoo` and `push_decoder`, the
-- validator's check of a proof and the listeners are parameters. A filter header is a number, zero
-- if all its bytes are. A set of outpoints is a list.
pub mod Blocks
pub mod Stream
pub mod RoundTrip
pub mod History
pub mod Slots
pub mod Listener
mod Tests
use vls.Prelude.{
  ℕ, ◌+◌, ◌*◌, ◌-◌, ◌/◌, ◌%◌, ◌^◌, Bool, true, false, not, ◌&&◌, ◌||◌, ltb, leb, ◌==◌,
  if◌then◌else◌, Option, none, some, is_some, List, [], ◌∷◌, ◌++◌, take, u32_mod, add_u32, Outcome,
  ok, panic, assert, unwrap, ◌>>=◌, ◌>>◌, ◌⊎◌, inl, inr, length,
}
use vls.Prelude.Maps.{contains}
use vls.Monitor.{OutPoint, TxIn, Transaction, same_outpoint, watched, watch}
use vls.Monitor.Blocks.{Watches}

pub data Error : Type 0 where
  invalid_chain invalid_block reorg_too_deep invalid_proof : Error

pub data Network : Type 0 where
  bitcoin testnet signet regtest : Network

pub record BlockHeader : Type 0 where
  pub version : ℕ
  pub prev_blockhash : ℕ
  pub merkle_root : ℕ
  pub time : ℕ
  pub bits : ℕ
  pub nonce : ℕ

pub record Headers : Type 0 where
  pub header : BlockHeader
  pub filter_header : ℕ

-- Of a proof, the transactions it proves, and the filter header.
pub data ProofType : Type 0 where
  filter : List Transaction → ProofType
  block : ProofType
  external_block : ProofType

pub record TxoProof : Type 0 where
  pub proof : ProofType
  pub filter_header : ℕ

abbrev pub is_external : TxoProof → Bool
is_external p = elim p.proof [
  | ProofType.filter txs ↦ false
  | ProofType.block ↦ false
  | ProofType.external_block ↦ true
]

pub record ListenSlot : Type 0 where
  pub txid_watches : List ℕ
  pub watches : List OutPoint
  pub seen : List OutPoint

-- The events of a block that is decoded.
pub data Event : Type 0 where
  block_start : BlockHeader → Event
  transaction_start : ℕ → Event
  transaction_input : TxIn → Event
  transaction_output : ℕ → Event
  transaction_end : ℕ → ℕ → Event
  block_end : Event

-- `ChainListener`: a method that changes the listener returns it; it may panic.
pub record ChainListener (L : Type 0) : Type 0 where
  pub key : L → OutPoint
  pub on_add_block : L → List Transaction → ℕ → Outcome (L × Watches)
  pub on_add_streamed_block : L → ℕ → Outcome (L × Watches)
  pub on_remove_block : L → List Transaction → ℕ → Outcome (L × Watches)
  pub on_remove_streamed_block : L → ℕ → Outcome (L × Watches)
  pub on_push : L → Event → Outcome L

-- What other crates and the validator do. `decode_next` is `none` where the decoder fails.
pub record Chain (D : Type 0) : Type 0 where
  pub block_hash : BlockHeader → ℕ
  pub target : BlockHeader → ℕ
  pub valid_pow : BlockHeader → Bool
  pub round_trip_target : ℕ → ℕ
  pub validate_block : TxoProof → ℕ → BlockHeader → Option ℕ → ℕ → List OutPoint → Bool
  pub decoder_new : D
  pub decode_next : D → List ℕ → Option (D × List Event)
  pub finish : D → Bool

pub record BlockDecodeState (D : Type 0) : Type 0 where
  pub decoder : D
  pub offset : ℕ
  pub block_hash : ℕ

pub record Entry (L : Type 0) : Type 0 where
  pub listener : L
  pub slot : ListenSlot

pub record ChainTracker (L : Type 0) (D : Type 0) : Type 0 where
  pub headers : List Headers
  pub tip : Headers
  pub height : ℕ
  pub network : Network
  pub listeners : List (Entry L)
  pub decode_state : Option (BlockDecodeState D)

abbrev pub is_testnet : Network → Bool
is_testnet Network.bitcoin = false
is_testnet Network.testnet = true
is_testnet Network.signet = false
is_testnet Network.regtest = false

unfoldable pub max_target : Network → ℕ
max_target Network.bitcoin = 65535 * 2 ^ 208
max_target Network.testnet = 65535 * 2 ^ 208
max_target Network.signet = 65535 * 2 ^ 208
max_target Network.regtest = 8388607 * 2 ^ 232

-- `extend` and `remove` of a set, for each of some outpoints.
abbrev pub extend : List OutPoint → List OutPoint → List OutPoint
extend [] set = set
extend (o ∷ os) set = extend os (watch o set)

abbrev pub remove : OutPoint → List OutPoint → List OutPoint
remove o [] = []
remove o (x ∷ xs) = let rest = remove o xs in if same_outpoint x o then rest else x ∷ rest

abbrev pub remove_all : List OutPoint → List OutPoint → List OutPoint
remove_all [] set = set
remove_all (o ∷ os) set = remove_all os (remove o set)

unfoldable pub slot_after_add : Watches → ListenSlot → ListenSlot
slot_after_add w slot = record slot {
  watches = remove_all w.removes (extend w.adds slot.watches);
  seen = extend w.removes slot.seen;
}

unfoldable pub slot_after_remove : Watches → ListenSlot → ListenSlot
slot_after_remove w slot = record slot {
  seen = remove_all w.removes slot.seen;
  watches = remove_all w.adds (extend w.removes slot.watches);
}

-- The same for transaction ids.
abbrev pub extend_txids : List ℕ → List ℕ → List ℕ
extend_txids [] set = set
extend_txids (x ∷ xs) set = extend_txids xs (if contains set x then set else x ∷ set)

-- The watches for transactions, and those for outpoints.
unfoldable pub get_all_watches : {L : Type 0} → Bool → List (Entry L) → List ℕ × List OutPoint
get_all_watches include_reverse [] = ([], [])
get_all_watches include_reverse (e ∷ es) =
    let (txids, outpoints) = get_all_watches include_reverse es in
    (
      extend_txids e.slot.txid_watches txids,
      extend e.slot.watches (if include_reverse then extend e.slot.seen outpoints else outpoints),
    )
