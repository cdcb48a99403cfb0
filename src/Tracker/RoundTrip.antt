-- ===== src/Tracker/RoundTrip.antt =====
-- What a block that was added and removed again leaves of a tracker (vls-core/src/chain/tracker.rs).
use vls.Prelude.{
  ℕ, ◌+◌, ◌-◌, ◌%◌, ◌<◌, ◌≡◌, ◌≢◌, refl, sym, ap, ◌∙◌, Bool, true, false, ==_iff, Option, none,
  some, is_some, List, [], ◌∷◌, take, arith, u32_mod, add_u32, ok, panic, assert, >>=-eq-ok,
  >>-eq-ok, ok_inj, inr,
}
use vls.Tracker.{
  Error, BlockHeader, Headers, TxoProof, is_external, ChainListener, Chain, BlockDecodeState,
  ChainTracker,
}
use vls.Tracker.Blocks.{
  same_bool, finish_decoding, maybe_finish_decoding_block, validate_block, txs_of,
  notify_listeners_add, notify_listeners_remove, external_hash, add_validated, remove_validated,
  remove_at, add_block, remove_block,
}

module _ {L : Type 0} {D : Type 0} (l : ChainListener L) (c : Chain D) where
  -- The checks that the code makes before it takes the decode state.
  pub maybe_finish_decoding_block-ok :
      (t m : ChainTracker L D) (proof : TxoProof) (expected : ℕ)
      → maybe_finish_decoding_block l c t proof expected ≡ ok m
      → m ≡ record t { decode_state = none }
  unfolding maybe_finish_decoding_block
  maybe_finish_decoding_block-ok t m proof expected h =
      let (paired, rest) =
        >>-eq-ok (assert (same_bool l c (is_external proof) (is_some t.decode_state))) _ h in
      let (right, made) = >>-eq-ok (finish_decoding l c t.decode_state expected) _ rest in
      sym (ok_inj made)

  -- A tracker that took a block: the block is the tip, above what was there, and is linked to it.
  pub record Added (t t' : ChainTracker L D) (block : BlockHeader) (filter_header : ℕ)
      : Type 0 where
    pub tip : t'.tip ≡ record { header = block; filter_header = filter_header }
    pub headers : t'.headers ≡ t.tip ∷ take 99 t.headers
    pub height : t'.height ≡ add_u32 t.height 1
    pub linked : block.prev_blockhash ≡ c.block_hash t.tip.header
    pub mined : c.valid_pow block ≡ true

  -- A tracker that gave up its tip.
  pub record Removed (t t' : ChainTracker L D) (block : BlockHeader) : Type 0 where
    pub headers : t.headers ≡ t'.tip ∷ t'.headers
    pub height : t'.height ≡ (t.height + u32_mod - 1) % u32_mod
    pub header : block ≡ t.tip.header

  validate_block-none :
      (t : ChainTracker L D) (height : ℕ) (external : Option ℕ) (prev headers : Headers)
      (proof : TxoProof) (is_remove : Bool)
      → validate_block l c t height external prev headers proof is_remove ≡ none
      → (headers.header.prev_blockhash ≡ c.block_hash prev.header)
        × (c.valid_pow headers.header ≡ true)
  unfolding validate_block
  validate_block-none t height external prev headers proof is_remove h = (
    ground (arith, h, ==_iff headers.header.prev_blockhash (c.block_hash prev.header)),
    ground (arith, h),
  )

  add_validated-Added :
      (t t' : ChainTracker L D) (headers : Headers) (proof : TxoProof) (refused : Option Error)
      → add_validated l c t headers proof refused ≡ ok (t', inr tt)
      → (refused ≡ none)
        × (t'.tip ≡ headers)
        × (t'.headers ≡ t.tip ∷ take 99 t.headers)
        × (t'.height ≡ add_u32 t.height 1)
  add_validated-Added t t' headers proof (some e) h = cc
  add_validated-Added t t' headers proof none h =
      let (txs, known, rest) = >>=-eq-ok (txs_of l c proof) _ h in
      let (listeners, told, made) =
        >>=-eq-ok (notify_listeners_add l c t.listeners txs (c.block_hash headers.header)) _ rest in
      let is = ap (λ x. x.0) (ok_inj made) in
      (
        refl,
        sym (ap (λ (x : ChainTracker L D). x.tip) is),
        sym (ap (λ (x : ChainTracker L D). x.headers) is),
        sym (ap (λ (x : ChainTracker L D). x.height) is),
      )

  pub add_block-Added :
      (t t' : ChainTracker L D) (block : BlockHeader) (proof : TxoProof)
      → add_block l c t block proof ≡ ok (t', inr tt)
      → Added t t' block proof.filter_header
  unfolding add_block
  add_block-Added t t' block proof h =
      let (m, finished, rest) =
        >>=-eq-ok (maybe_finish_decoding_block l c t proof (c.block_hash block)) _ h in
      let is = maybe_finish_decoding_block-ok t m proof (c.block_hash block) finished in
      let headers : Headers = record { header = block; filter_header = proof.filter_header } in
      let external = external_hash l c proof (c.block_hash block) in
      let (passed, tip, past, height) =
        add_validated-Added m t' headers proof
          (validate_block l c m m.height external m.tip headers proof false) rest in
      let (linked, mined) =
        validate_block-none m m.height external m.tip headers proof false passed in
      record {
        tip = tip;
        headers = past ∙ ap (λ (x : ChainTracker L D). x.tip ∷ take 99 x.headers) is;
        height = height ∙ ap (λ (x : ChainTracker L D). add_u32 x.height 1) is;
        linked = linked ∙ ap (λ (x : ChainTracker L D). c.block_hash x.tip.header) is;
        mined = mined;
      }

  remove_validated-Removed :
      (t t' : ChainTracker L D) (prev : Headers) (past : List Headers) (proof : TxoProof)
      (refused : Option Error) (block : BlockHeader)
      → remove_validated l c t prev past proof refused ≡ ok (t', inr block)
      → (t'.tip ≡ prev)
        × (t'.headers ≡ past)
        × (t'.height ≡ (t.height + u32_mod - 1) % u32_mod)
        × (block ≡ t.tip.header)
  remove_validated-Removed t t' prev past proof (some e) block h = cc
  remove_validated-Removed t t' prev past proof none block h =
      let (txs, known, rest) = >>=-eq-ok (txs_of l c proof) _ h in
      let (listeners, told, made) =
        >>=-eq-ok (notify_listeners_remove l c t.listeners txs (c.block_hash prev.header)) _ rest in
      let is = ap (λ x. x.0) (ok_inj made) in
      (
        sym (ap (λ (x : ChainTracker L D). x.tip) is),
        sym (ap (λ (x : ChainTracker L D). x.headers) is),
        sym (ap (λ (x : ChainTracker L D). x.height) is),
        ground (arith, made),
      )

  remove_at-Removed :
      (t t' : ChainTracker L D) (headers : List Headers) (proof : TxoProof) (block : BlockHeader)
      → remove_at l c t headers proof ≡ ok (t', inr block)
      → (headers ≡ t'.tip ∷ t'.headers)
        × (t'.height ≡ (t.height + u32_mod - 1) % u32_mod)
        × (block ≡ t.tip.header)
  remove_at-Removed t t' [] proof block h = cc
  remove_at-Removed t t' (prev ∷ past) proof block h =
      let hash = c.block_hash prev.header in
      let (m, finished, rest) = >>=-eq-ok (maybe_finish_decoding_block l c t proof hash) _ h in
      let is = maybe_finish_decoding_block-ok t m proof hash finished in
      let (tip, headers, height, header) =
        remove_validated-Removed m t' prev past proof
          (validate_block l c m ((m.height + u32_mod - 1) % u32_mod) (external_hash l c proof hash)
            prev m.tip proof true)
          block rest in
      (
        ground (arith, tip, headers),
        height ∙ ap (λ (x : ChainTracker L D). (x.height + u32_mod - 1) % u32_mod) is,
        header ∙ ap (λ (x : ChainTracker L D). x.tip.header) is,
      )

  pub remove_block-Removed :
      (t t' : ChainTracker L D) (proof : TxoProof) (block : BlockHeader)
      → remove_block l c t proof ≡ ok (t', inr block)
      → Removed t t' block
  unfolding remove_block
  remove_block-Removed t t' proof block h =
      let (headers, height, header) = remove_at-Removed t t' t.headers proof block h in
      record { headers = headers; height = height; header = header }

  -- When a block was added and the next operation removes a block, both with success, it is the
  -- added block that is returned, and the tip, the height and the last 99 headers before the tip are
  -- what they were, where the height does not reach 2 ^ 32.
  pub add_block-remove_block :
      (t t' t'' : ChainTracker L D) (block removed : BlockHeader) (proof proof' : TxoProof)
      → t.height + 1 < u32_mod
      → add_block l c t block proof ≡ ok (t', inr tt)
      → remove_block l c t' proof' ≡ ok (t'', inr removed)
      → (removed ≡ block)
        × (t''.tip ≡ t.tip)
        × (t''.height ≡ t.height)
        × (t''.headers ≡ take 99 t.headers)
  unfolding add_u32
  add_block-remove_block t t' t'' block removed proof proof' small added gone =
      let a = add_block-Added t t' block proof added in
      let r = remove_block-Removed t' t'' proof' removed gone in
      (
        r.header ∙ ap (λ (x : Headers). x.header) a.tip,
        ground (arith, r.headers, a.headers),
        ground (arith, r.height, a.height, small),
        ground (arith, r.headers, a.headers),
      )

  -- Where a block was streamed, and it is the tip, its removal panics, unless the header before the
  -- tip has the same hash: the code compares the hash of the streamed block to that one.
  pub remove_block_streamed_tip :
      (t : ChainTracker L D) (prev : Headers) (past : List Headers) (d : BlockDecodeState D)
      (proof : TxoProof)
      → t.headers ≡ prev ∷ past
      → t.decode_state ≡ some d
      → d.block_hash ≡ c.block_hash t.tip.header
      → c.block_hash t.tip.header ≢ c.block_hash prev.header
      → remove_block l c t proof ≡ panic
  unfolding remove_block maybe_finish_decoding_block
  remove_block_streamed_tip t prev past d proof headers decoding tip other =
      ground (arith, headers, decoding, tip, other, ==_iff d.block_hash (c.block_hash prev.header))
