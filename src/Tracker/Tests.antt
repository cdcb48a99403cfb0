-- ===== src/Tracker/Tests.antt =====
-- A tracker with the monitor of a channel, over a block that is added and removed.
use vls.Prelude.{
  ℕ, ◌≡◌, refl, true, false, none, some, [], ◌∷◌, take, arith, add_u32, ok, panic, inr,
}
use vls.Monitor
use vls.Monitor.{OutPoint, Transaction, watched}
use vls.Monitor.Blocks.{
  Watches, push_transactions, on_add_block, on_add_block_end, on_remove_block, on_remove_block_end,
  finish_block, add_changes, remove_changes,
}
use vls.Tracker.{
  Network, BlockHeader, ProofType, TxoProof, ListenSlot, Chain, ChainTracker, slot_after_add,
  slot_after_remove, get_all_watches,
}
use vls.Tracker.Blocks.{
  new, maybe_finish_decoding_block, check_difficulty, validate_block, notify_listeners_add,
  notify_listeners_remove, add_block, remove_block,
}
use vls.Tracker.Listener.{ChainMonitor, monitor_listener}
use vls.Tracker.Stream.{add_listener, put_listener, block_chunk, decode_chunk, push_events}
use vls.Tracker.RoundTrip.{add_block-remove_block, remove_block_streamed_tip}
use vls.Tracker.History.{Reach, Sound, Reach-Sound}
use vls.Tracker.Slots.{slot_after_add-slot_after_remove}

-- Every block is well mined and every proof is right; a decoder finds no events.
abbrev chain : Chain ℕ
chain = record {
  block_hash = λ h. h.nonce;
  target = λ h. h.bits;
  valid_pow = λ h. true;
  round_trip_target = λ t. t;
  validate_block = λ proof height header external prev watches. true;
  decoder_new = 0;
  decode_next = λ d bytes. some (d, []);
  finish = λ d. true;
}

abbrev txid_of : Transaction → ℕ
txid_of tx = tx.version

abbrev first : BlockHeader
first = record { version = 1; prev_blockhash = 0; merkle_root = 0; time = 0; bits = 5; nonce = 10 }

abbrev second : BlockHeader
second = record {
  version = 1;
  prev_blockhash = 10;
  merkle_root = 0;
  time = 600;
  bits = 5;
  nonce = 11;
}

abbrev proof : TxoProof
proof = record { proof = ProofType.filter []; filter_header = 7 }

abbrev streamed : TxoProof
streamed = record { proof = ProofType.external_block; filter_header = 7 }

abbrev outpoint : OutPoint
outpoint = record { txid = 9; vout = 0 }

abbrev monitor : ChainMonitor
monitor = record { funding_outpoint = outpoint; state = Monitor.new 100 }

abbrev created : ChainTracker ChainMonitor ℕ
created = record {
  headers = [];
  tip = record { header = first; filter_header = 6 };
  height = 100;
  network = Network.regtest;
  listeners = [];
  decode_state = none;
}

created_ok :
    new (monitor_listener chain.block_hash txid_of) chain Network.regtest 100 created.tip
    ≡ inr created
unfolding new
created_ok = refl

abbrev slot : ListenSlot
slot = record { txid_watches = []; watches = []; seen = [] }

abbrev listening : ChainTracker ChainMonitor ℕ
listening = record created { listeners = record { listener = monitor; slot = slot } ∷ [] }

abbrev seen_block : ChainMonitor → ℕ → ChainMonitor
seen_block m h = record m { state = record m.state { height = h; saw_block = true } }

abbrev added : ChainTracker ChainMonitor ℕ
added = record created {
  headers = created.tip ∷ [];
  tip = record { header = second; filter_header = 7 };
  height = 101;
  listeners = record { listener = seen_block monitor 101; slot = slot } ∷ [];
}

abbrev removed : ChainTracker ChainMonitor ℕ
removed = record created {
  listeners = record { listener = seen_block monitor 100; slot = slot } ∷ [];
}

add_ok :
    add_block (monitor_listener chain.block_hash txid_of) chain listening second proof
    ≡ ok (added, inr tt)
unfolding add_block maybe_finish_decoding_block validate_block check_difficulty notify_listeners_add
    slot_after_add get_all_watches Monitor.new Monitor.on_block_start Monitor.is_not_ready_for_push
    push_transactions on_add_block on_add_block_end finish_block add_changes add_u32
add_ok = refl

remove_ok :
    remove_block (monitor_listener chain.block_hash txid_of) chain added proof
    ≡ ok (removed, inr second)
unfolding remove_block maybe_finish_decoding_block validate_block check_difficulty
    notify_listeners_remove slot_after_remove get_all_watches Monitor.new Monitor.on_block_start
    Monitor.is_not_ready_for_push push_transactions on_remove_block on_remove_block_end finish_block
    remove_changes add_u32
remove_ok = refl

add_block-remove_block_example :
    (second ≡ second)
    × (removed.tip ≡ listening.tip)
    × (removed.height ≡ listening.height)
    × (removed.headers ≡ take 99 listening.headers)
add_block-remove_block_example =
    add_block-remove_block (monitor_listener chain.block_hash txid_of) chain listening added removed
      second second proof proof (omega arith) add_ok remove_ok

reach : Reach (monitor_listener chain.block_hash txid_of) chain added
unfolding add_listener put_listener
reach =
    Reach.add added second proof (inr tt)
      (Reach.listen monitor [] (Reach.begin Network.regtest 100 created.tip created created_ok))
      add_ok

Reach-Sound_example : Sound (monitor_listener chain.block_hash txid_of) chain added
Reach-Sound_example = Reach-Sound (monitor_listener chain.block_hash txid_of) chain added reach

-- The tip is streamed, to be removed.
abbrev streaming : ChainTracker ChainMonitor ℕ
streaming = record added {
  decode_state = some (record { decoder = 0; offset = 80; block_hash = 11 });
}

streaming_ok :
    block_chunk (monitor_listener chain.block_hash txid_of) chain added 11 0 (80 ∷ [])
    ≡ ok (record streaming {
      decode_state = some (record { decoder = 0; offset = 1; block_hash = 11 });
    })
unfolding block_chunk decode_chunk push_events add_u32
streaming_ok = refl

remove_block_streamed_tip_example :
    remove_block (monitor_listener chain.block_hash txid_of) chain streaming streamed ≡ panic
remove_block_streamed_tip_example =
    remove_block_streamed_tip (monitor_listener chain.block_hash txid_of) chain streaming
      created.tip [] (record { decoder = 0; offset = 80; block_hash = 11 }) streamed refl refl refl
      (omega arith)

abbrev other : OutPoint
other = record { txid = 3; vout = 0 }

abbrev watching : ListenSlot
watching = record slot { watches = other ∷ [] }

abbrev changed : Watches
changed = record { adds = outpoint ∷ []; removes = other ∷ [] }

slot_after_add-slot_after_remove_example :
    (watched (slot_after_remove changed (slot_after_add changed watching)).watches other ≡ true)
    × (watched (slot_after_remove changed (slot_after_add changed watching)).seen other ≡ false)
slot_after_add-slot_after_remove_example =
    slot_after_add-slot_after_remove changed watching other (λ h. cc) (λ h. refl) (λ h. refl)
