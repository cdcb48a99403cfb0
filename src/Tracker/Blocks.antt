-- ===== src/Tracker/Blocks.antt =====
-- How a block is checked, added at the tip and removed from it (vls-core/src/chain/tracker.rs).
use vls.Prelude.{
  ℕ, ◌+◌, ◌*◌, ◌-◌, ◌/◌, ◌%◌, ◌^◌, Bool, true, false, not, ◌&&◌, ◌||◌, ltb, ◌==◌, if◌then◌else◌,
  Option, none, some, is_some, List, [], ◌∷◌, take, u32_mod, add_u32, Outcome, ok, panic, assert,
  ◌>>=◌, ◌>>◌, ◌⊎◌, inl, inr,
}
use vls.Monitor.{Transaction}
use vls.Monitor.Blocks.{Watches}
use vls.Tracker.{
  Error, Network, BlockHeader, Headers, ProofType, TxoProof, is_external, ChainListener, Chain,
  BlockDecodeState, Entry, ChainTracker, is_testnet, max_target, slot_after_add, slot_after_remove,
  get_all_watches,
}

module _ {L : Type 0} {D : Type 0} (l : ChainListener L) (c : Chain D) where
  unfoldable pub new : Network → ℕ → Headers → Error ⊎ ChainTracker L D
  new network height tip =
      if c.valid_pow tip.header
      then inr (record {
        headers = [];
        tip = tip;
        height = height;
        network = network;
        listeners = [];
        decode_state = none;
      })
      else inl Error.invalid_block

  unfoldable pub restore : List Headers → Headers → ℕ → Network → List (Entry L) → ChainTracker L D
  restore headers tip height network listeners = record {
    headers = headers;
    tip = tip;
    height = height;
    network = network;
    listeners = listeners;
    decode_state = none;
  }

  unfoldable pub validate_retarget : ℕ → ℕ → Network → Option Error
  unfolding max_target
  validate_retarget prev_target target network =
      if ltb (max_target network) target
      then some Error.invalid_block
      else (if ltb target (c.round_trip_target (prev_target / 4))
          then some Error.invalid_chain
          else (if ltb (c.round_trip_target ((prev_target * 4) % 2 ^ 256)) target
              then some Error.invalid_chain
              else none))

  -- The test of the difficulty; `DIFFCHANGE_INTERVAL` is 2016.
  unfoldable pub check_difficulty : Network → ℕ → BlockHeader → BlockHeader → Option Error
  check_difficulty network height prev_header header =
      if (is_testnet network && (c.target header == max_target network))
        && ltb (add_u32 prev_header.time 1200) header.time
      then none
      else (if add_u32 height 1 % 2016 == 0
          then validate_retarget (c.target prev_header) (c.target header) network
          else (if not (header.bits == prev_header.bits) && not (is_testnet network)
              then some Error.invalid_chain
              else none))

  abbrev pub or_else : Option Error → Option Error → Option Error
  or_else none next = next
  or_else (some e) next = some e

  -- The error, if the block is refused.
  unfoldable pub validate_block :
      ChainTracker L D → ℕ → Option ℕ → Headers → Headers → TxoProof → Bool → Option Error
  validate_block t height external_block_hash prev_headers headers proof is_remove =
      or_else
        (if headers.header.prev_blockhash == c.block_hash prev_headers.header
          then none
          else some Error.invalid_chain)
        (or_else (if c.valid_pow headers.header then none else some Error.invalid_block) (
          or_else (check_difficulty t.network height prev_headers.header headers.header) (
            if (prev_headers.filter_header == 0)
              || c.validate_block proof (add_u32 height 1) headers.header external_block_hash
                  prev_headers.filter_header (get_all_watches is_remove t.listeners).1
            then none
            else some Error.invalid_proof)))

  -- The decode state is taken.
  abbrev pub finish_decoding : Option (BlockDecodeState D) → ℕ → Outcome (Unit {0})
  finish_decoding none expected = ok tt
  finish_decoding (some d) expected =
      assert (c.finish d.decoder) >> assert (d.block_hash == expected)

  abbrev pub same_bool : Bool → Bool → Bool
  same_bool a b = if a then b else not b

  unfoldable pub maybe_finish_decoding_block :
      ChainTracker L D → TxoProof → ℕ → Outcome (ChainTracker L D)
  maybe_finish_decoding_block t proof expected_block_hash =
      assert (same_bool (is_external proof) (is_some t.decode_state))
      >> (finish_decoding t.decode_state expected_block_hash
          >> ok (record t { decode_state = none }))

  -- The transactions that the listeners get, `none` for a streamed block; a whole block panics.
  abbrev pub txs_of : TxoProof → Outcome (Option (List Transaction))
  txs_of p = elim p.proof [
    | ProofType.filter txs ↦ ok (some txs)
    | ProofType.block ↦ panic
    | ProofType.external_block ↦ ok none
  ]

  abbrev pub added_to : L → Option (List Transaction) → ℕ → Outcome (L × Watches)
  added_to x none hash = l.on_add_streamed_block x hash
  added_to x (some txs) hash = l.on_add_block x txs hash

  abbrev pub removed_from : L → Option (List Transaction) → ℕ → Outcome (L × Watches)
  removed_from x none hash = l.on_remove_streamed_block x hash
  removed_from x (some txs) hash = l.on_remove_block x txs hash

  unfoldable pub notify_listeners_add :
      List (Entry L) → Option (List Transaction) → ℕ → Outcome (List (Entry L))
  notify_listeners_add [] txs hash = ok []
  notify_listeners_add (e ∷ es) txs hash = added_to e.listener txs hash >>= λ done.
      notify_listeners_add es txs hash >>= λ rest.
      ok (record { listener = done.0; slot = slot_after_add done.1 e.slot } ∷ rest)

  unfoldable pub notify_listeners_remove :
      List (Entry L) → Option (List Transaction) → ℕ → Outcome (List (Entry L))
  notify_listeners_remove [] txs hash = ok []
  notify_listeners_remove (e ∷ es) txs hash = removed_from e.listener txs hash >>= λ done.
      notify_listeners_remove es txs hash >>= λ rest.
      ok (record { listener = done.0; slot = slot_after_remove done.1 e.slot } ∷ rest)

  abbrev pub external_hash : TxoProof → ℕ → Option ℕ
  external_hash proof hash = if is_external proof then some hash else none

  -- `MAX_REORG_SIZE` is 100.
  abbrev pub pushed_tip : ChainTracker L D → Headers → List (Entry L) → ChainTracker L D
  pushed_tip t tip listeners = record t {
    headers = t.tip ∷ take 99 t.headers;
    tip = tip;
    height = add_u32 t.height 1;
    listeners = listeners;
  }

  abbrev pub add_validated :
      ChainTracker L D
      → Headers
      → TxoProof
      → Option Error
      → Outcome (ChainTracker L D × (Error ⊎ Unit {0}))
  add_validated t headers proof (some e) = ok (t, inl e)
  add_validated t headers proof none = txs_of proof >>= λ txs.
      notify_listeners_add t.listeners txs (c.block_hash headers.header) >>= λ listeners.
      ok (pushed_tip t headers listeners, inr tt)

  -- An error is returned with the tracker, whose decode state was taken before.
  unfoldable pub add_block :
      ChainTracker L D → BlockHeader → TxoProof → Outcome (ChainTracker L D × (Error ⊎ Unit {0}))
  add_block t header proof =
      let hash = c.block_hash header in
      let headers : Headers = record { header = header; filter_header = proof.filter_header } in
      maybe_finish_decoding_block t proof hash >>= λ finished.
      add_validated finished headers proof (
        validate_block finished finished.height (external_hash proof hash) finished.tip headers
          proof false)

  abbrev pub popped_tip :
      ChainTracker L D → Headers → List Headers → List (Entry L) → ChainTracker L D
  popped_tip t prev rest listeners = record t {
    headers = rest;
    tip = prev;
    height = (t.height + u32_mod - 1) % u32_mod;
    listeners = listeners;
  }

  abbrev pub remove_validated :
      ChainTracker L D
      → Headers
      → List Headers
      → TxoProof
      → Option Error
      → Outcome (ChainTracker L D × (Error ⊎ BlockHeader))
  remove_validated t prev rest proof (some e) = ok (t, inl e)
  remove_validated t prev rest proof none = txs_of proof >>= λ txs.
      notify_listeners_remove t.listeners txs (c.block_hash prev.header) >>= λ listeners.
      ok (popped_tip t prev rest listeners, inr t.tip.header)

  -- The code takes the hash of the header before the tip for that of the tip.
  abbrev pub remove_at :
      ChainTracker L D
      → List Headers
      → TxoProof
      → Outcome (ChainTracker L D × (Error ⊎ BlockHeader))
  remove_at t [] proof = ok (t, inl Error.reorg_too_deep)
  remove_at t (prev ∷ rest) proof =
      let hash = c.block_hash prev.header in
      maybe_finish_decoding_block t proof hash >>= λ finished.
      remove_validated finished prev rest proof (
        validate_block finished ((finished.height + u32_mod - 1) % u32_mod)
          (external_hash proof hash) prev finished.tip proof true)

  unfoldable pub remove_block :
      ChainTracker L D → TxoProof → Outcome (ChainTracker L D × (Error ⊎ BlockHeader))
  remove_block t proof = remove_at t t.headers proof
