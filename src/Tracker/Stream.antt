-- ===== src/Tracker/Stream.antt =====
-- The listeners of a tracker, and the blocks that are streamed to them
-- (vls-core/src/chain/tracker.rs).
use vls.Prelude.{
  ℕ, ◌%◌, not, ◌==◌, if◌then◌else◌, Option, none, some, is_some, List, [], ◌∷◌, u32_mod, add_u32,
  Outcome, ok, assert, unwrap, ◌>>=◌, ◌>>◌, length,
}
use vls.Monitor.{OutPoint, same_outpoint}
use vls.Tracker.{Event, ChainListener, Chain, Entry, ChainTracker, extend}

module _ {L : Type 0} {D : Type 0} (l : ChainListener L) (c : Chain D) where
  -- `insert` into the map of listeners.
  unfoldable pub put_listener : Entry L → List (Entry L) → List (Entry L)
  put_listener e [] = e ∷ []
  put_listener e (x ∷ xs) =
      let rest = put_listener e xs in
      if same_outpoint (l.key x.listener) (l.key e.listener) then e ∷ xs else x ∷ rest

  unfoldable pub add_listener : ChainTracker L D → L → List ℕ → ChainTracker L D
  add_listener t listener initial_txid_watches = record t {
    listeners =
        put_listener
          (record {
            listener = listener;
            slot = record { txid_watches = initial_txid_watches; watches = []; seen = [] };
          })
          t.listeners;
  }

  -- `none` if there is no listener of this key, which is a panic.
  unfoldable pub extend_watches :
      OutPoint → List OutPoint → List (Entry L) → Option (List (Entry L))
  extend_watches key watches [] = none
  extend_watches key watches (x ∷ xs) =
      let later = extend_watches key watches xs in
      if same_outpoint (l.key x.listener) key
      then some (record x { slot = record x.slot { watches = extend watches x.slot.watches } } ∷ xs)
      else elim later [ none ↦ none | some rest ↦ some (x ∷ rest) ]

  unfoldable pub add_listener_watches :
      ChainTracker L D → OutPoint → List OutPoint → Outcome (ChainTracker L D)
  add_listener_watches t key watches =
      unwrap (extend_watches key watches t.listeners) >>= λ listeners.
      ok (record t { listeners = listeners })

  -- A streamed block must be the announced one; its events go to each listener.
  abbrev right_block : ℕ → Event → Outcome (Unit {0})
  right_block hash (Event.block_start header) = assert (c.block_hash header == hash)
  right_block hash (Event.transaction_start version) = ok tt
  right_block hash (Event.transaction_input input) = ok tt
  right_block hash (Event.transaction_output output) = ok tt
  right_block hash (Event.transaction_end lock_time txid) = ok tt
  right_block hash Event.block_end = ok tt

  unfoldable pub do_push : Event → List (Entry L) → Outcome (List (Entry L))
  do_push event [] = ok []
  do_push event (e ∷ es) = l.on_push e.listener event >>= λ listener.
      do_push event es >>= λ rest. ok (record e { listener = listener } ∷ rest)

  unfoldable pub push_events : ℕ → List Event → List (Entry L) → Outcome (List (Entry L))
  push_events hash [] es = ok es
  push_events hash (event ∷ events) es =
      right_block hash event >> (do_push event es >>= λ pushed. push_events hash events pushed)

  unfoldable pub decode_chunk : ChainTracker L D → ℕ → ℕ → List ℕ → Outcome (ChainTracker L D)
  decode_chunk t hash offset chunk = do
    d ← unwrap t.decode_state
    assert (d.block_hash == hash)
    assert (d.offset == offset)
    decoded ← unwrap (c.decode_next d.decoder chunk)
    listeners ← push_events hash decoded.1 t.listeners
    ok (record t {
      listeners = listeners;
      decode_state =
          some
            (record d { decoder = decoded.0; offset = add_u32 d.offset (length chunk % u32_mod) });
    })

  unfoldable pub block_chunk : ChainTracker L D → ℕ → ℕ → List ℕ → Outcome (ChainTracker L D)
  block_chunk t hash offset chunk =
      if offset == 0
      then (assert (not (is_some t.decode_state))
          >> decode_chunk
              (record t {
                decode_state =
                    some (record { decoder = c.decoder_new; offset = 0; block_hash = hash });
              })
              hash offset chunk)
      else decode_chunk t hash offset chunk
