-- ===== src/Tracker/History.antt =====
-- The headers of a tracker from its creation on, through blocks that are added, removed, refused or
-- streamed, and new listeners and watches (vls-core/src/chain/tracker.rs).
use vls.Prelude.{
  ℕ, zero, suc, ◌≤◌, ◌≡◌, refl, sym, ap, subst, ◌∙◌, true, Option, none, some, List, [], ◌∷◌, take,
  length, length-take, All, arith, is_some, not, ◌==◌, ok, unwrap, assert, >>=-eq-ok, >>-eq-ok,
  ok_inj, if-eq-ok, ◌⊎◌, inl, inr,
}
use vls.Monitor.{OutPoint}
use vls.Tracker.{Error, Network, BlockHeader, Headers, TxoProof, ChainListener, Chain, ChainTracker}
use vls.Tracker.Blocks.{
  maybe_finish_decoding_block, new, add_validated, remove_validated, remove_at, add_block,
  remove_block, txs_of, notify_listeners_add, notify_listeners_remove,
}
use vls.Tracker.Stream.{
  add_listener, extend_watches, add_listener_watches, push_events, decode_chunk, block_chunk,
}
use vls.Tracker.RoundTrip.{
  maybe_finish_decoding_block-ok, Added, Removed, add_block-Added, remove_block-Removed,
}

-- Each header names the hash of the one before it.
abbrev pub Linked : {D : Type 0} → Chain D → Headers → List Headers → Type 0
Linked c h [] = Unit
Linked c h (g ∷ gs) = (h.header.prev_blockhash ≡ c.block_hash g.header) × Linked c g gs

abbrev pub Mined : {D : Type 0} → Chain D → List Headers → Type 0
Mined c hs = All (λ (h : Headers). c.valid_pow h.header ≡ true) hs

Linked-take :
    {D : Type 0} (c : Chain D) (n : ℕ) (h : Headers) (hs : List Headers)
    → Linked c h hs
    → Linked c h (take n hs)
Linked-take c zero h hs k = tt
Linked-take c (suc n) h [] k = tt
Linked-take c (suc n) h (g ∷ gs) k = (k.0, Linked-take c n g gs k.1)

Mined-take :
    {D : Type 0} (c : Chain D) (n : ℕ) (hs : List Headers) → Mined c hs → Mined c (take n hs)
Mined-take c zero hs k = tt
Mined-take c (suc n) [] k = tt
Mined-take c (suc n) (g ∷ gs) k = (k.0, Mined-take c n gs k.1)

module _ {L : Type 0} {D : Type 0} (l : ChainListener L) (c : Chain D) where
  -- The states a tracker reaches. A block that is refused is part of a history.
  pub data Reach : ChainTracker L D → Type 0 where
    begin :
        (network : Network) (height : ℕ) (tip : Headers) (t : ChainTracker L D)
        → new l c network height tip ≡ inr t
        → Reach t
    add :
        {t : ChainTracker L D} (t' : ChainTracker L D) (block : BlockHeader) (proof : TxoProof)
        (result : Error ⊎ Unit {0})
        → Reach t
        → add_block l c t block proof ≡ ok (t', result)
        → Reach t'
    remove :
        {t : ChainTracker L D} (t' : ChainTracker L D) (proof : TxoProof)
        (result : Error ⊎ BlockHeader)
        → Reach t
        → remove_block l c t proof ≡ ok (t', result)
        → Reach t'
    chunk :
        {t : ChainTracker L D} (t' : ChainTracker L D) (hash offset : ℕ) (bytes : List ℕ)
        → Reach t
        → block_chunk l c t hash offset bytes ≡ ok t'
        → Reach t'
    listen :
        {t : ChainTracker L D} (listener : L) (txids : List ℕ)
        → Reach t
        → Reach (add_listener l c t listener txids)
    watch :
        {t : ChainTracker L D} (t' : ChainTracker L D) (key : OutPoint) (watches : List OutPoint)
        → Reach t
        → add_listener_watches l c t key watches ≡ ok t'
        → Reach t'

  pub record Sound (t : ChainTracker L D) : Type 0 where
    pub linked : Linked c t.tip t.headers
    pub mined : Mined c (t.tip ∷ t.headers)
    pub bounded : length t.headers ≤ 100

  -- The headers are the same.
  abbrev Same : ChainTracker L D → ChainTracker L D → Type 0
  Same t t' = (t'.tip ≡ t.tip) × (t'.headers ≡ t.headers)

  Same-Sound : (t t' : ChainTracker L D) → Same t t' → Sound t → Sound t'
  Same-Sound t t' same s = record {
    linked =
        subst (λ h. Linked c h t'.headers) (sym same.0)
          (subst (Linked c t.tip) (sym same.1) s.linked);
    mined =
        subst (λ h. Mined c (h ∷ t'.headers)) (sym same.0)
          (subst (λ hs. Mined c (t.tip ∷ hs)) (sym same.1) s.mined);
    bounded = subst (λ hs. length hs ≤ 100) (sym same.1) s.bounded;
  }

  Added-Sound :
      (t t' : ChainTracker L D) (block : BlockHeader) (filter_header : ℕ)
      → Added l c t t' block filter_header
      → Sound t
      → Sound t'
  Added-Sound t t' block filter_header a s =
      let tip : Headers = record { header = block; filter_header = filter_header } in
      record {
        linked =
            subst (λ h. Linked c h t'.headers) (sym a.tip)
              (subst (Linked c tip) (sym a.headers)
                (a.linked, Linked-take c 99 t.tip t.headers s.linked));
        mined =
            subst (λ h. Mined c (h ∷ t'.headers)) (sym a.tip)
              (subst (λ x. Mined c (tip ∷ x)) (sym a.headers)
                (a.mined, (s.mined.0, Mined-take c 99 t.headers s.mined.1)));
        bounded =
            subst (λ x. length x ≤ 100) (sym a.headers) (ground (arith, length-take 99 t.headers));
      }

  Removed-Sound :
      (t t' : ChainTracker L D) (block : BlockHeader) → Removed l c t t' block → Sound t → Sound t'
  Removed-Sound t t' block r s =
      let linked = subst (Linked c t.tip) r.headers s.linked in
      let mined = subst (λ x. Mined c (t.tip ∷ x)) r.headers s.mined in
      record { linked = linked.1; mined = mined.1; bounded = ground (arith, r.headers, s.bounded) }

  add_validated-Same :
      (t t' : ChainTracker L D) (headers : Headers) (proof : TxoProof) (refused : Option Error)
      (e : Error)
      → add_validated l c t headers proof refused ≡ ok (t', inl e)
      → Same t t'
  add_validated-Same t t' headers proof (some x) e h =
      let is = ap (λ r. r.0) (ok_inj h) in
      (
        sym (ap (λ (y : ChainTracker L D). y.tip) is),
        sym (ap (λ (y : ChainTracker L D). y.headers) is),
      )
  add_validated-Same t t' headers proof none e h =
      let (txs, known, rest) = >>=-eq-ok (txs_of l c proof) _ h in
      let (listeners, told, made) =
        >>=-eq-ok (notify_listeners_add l c t.listeners txs (c.block_hash headers.header)) _ rest in
      absurd (ground (arith, made))

  add_block-Sound :
      (t t' : ChainTracker L D) (block : BlockHeader) (proof : TxoProof) (result : Error ⊎ Unit {0})
      → add_block l c t block proof ≡ ok (t', result)
      → Sound t
      → Sound t'
  unfolding add_block
  add_block-Sound t t' block proof (inr done) h s =
      Added-Sound t t' block proof.filter_header (add_block-Added l c t t' block proof h) s
  add_block-Sound t t' block proof (inl e) h s =
      let (m, finished, rest) =
        >>=-eq-ok (maybe_finish_decoding_block l c t proof (c.block_hash block)) _ h in
      let is = maybe_finish_decoding_block-ok l c t m proof (c.block_hash block) finished in
      let same = add_validated-Same m t' _ proof _ e rest in
      Same-Sound t t'
        (
          same.0 ∙ ap (λ (y : ChainTracker L D). y.tip) is,
          same.1 ∙ ap (λ (y : ChainTracker L D). y.headers) is,
        )
        s

  remove_validated-Same :
      (t t' : ChainTracker L D) (prev : Headers) (past : List Headers) (proof : TxoProof)
      (refused : Option Error) (e : Error)
      → remove_validated l c t prev past proof refused ≡ ok (t', inl e)
      → Same t t'
  remove_validated-Same t t' prev past proof (some x) e h =
      let is = ap (λ r. r.0) (ok_inj h) in
      (
        sym (ap (λ (y : ChainTracker L D). y.tip) is),
        sym (ap (λ (y : ChainTracker L D). y.headers) is),
      )
  remove_validated-Same t t' prev past proof none e h =
      let (txs, known, rest) = >>=-eq-ok (txs_of l c proof) _ h in
      let (listeners, told, made) =
        >>=-eq-ok (notify_listeners_remove l c t.listeners txs (c.block_hash prev.header)) _ rest in
      absurd (ground (arith, made))

  remove_at-Same :
      (t t' : ChainTracker L D) (headers : List Headers) (proof : TxoProof) (e : Error)
      → remove_at l c t headers proof ≡ ok (t', inl e)
      → Same t t'
  remove_at-Same t t' [] proof e h =
      let is = ap (λ r. r.0) (ok_inj h) in
      (
        sym (ap (λ (y : ChainTracker L D). y.tip) is),
        sym (ap (λ (y : ChainTracker L D). y.headers) is),
      )
  remove_at-Same t t' (prev ∷ past) proof e h =
      let hash = c.block_hash prev.header in
      let (m, finished, rest) = >>=-eq-ok (maybe_finish_decoding_block l c t proof hash) _ h in
      let is = maybe_finish_decoding_block-ok l c t m proof hash finished in
      let same = remove_validated-Same m t' prev past proof _ e rest in
      (
        same.0 ∙ ap (λ (y : ChainTracker L D). y.tip) is,
        same.1 ∙ ap (λ (y : ChainTracker L D). y.headers) is,
      )

  remove_block-Sound :
      (t t' : ChainTracker L D) (proof : TxoProof) (result : Error ⊎ BlockHeader)
      → remove_block l c t proof ≡ ok (t', result)
      → Sound t
      → Sound t'
  unfolding remove_block
  remove_block-Sound t t' proof (inr block) h s =
      Removed-Sound t t' block (remove_block-Removed l c t t' proof block h) s
  remove_block-Sound t t' proof (inl e) h s =
      Same-Sound t t' (remove_at-Same t t' t.headers proof e h) s

  decode_chunk-Same :
      (t t' : ChainTracker L D) (hash offset : ℕ) (bytes : List ℕ)
      → decode_chunk l c t hash offset bytes ≡ ok t'
      → Same t t'
  unfolding decode_chunk
  decode_chunk-Same t t' hash offset bytes h =
      let (d, decoding, r1) = >>=-eq-ok (unwrap t.decode_state) _ h in
      let (right, r2) = >>-eq-ok (assert (d.block_hash == hash)) _ r1 in
      let (next, r3) = >>-eq-ok (assert (d.offset == offset)) _ r2 in
      let (decoded, parsed, r4) = >>=-eq-ok (unwrap (c.decode_next d.decoder bytes)) _ r3 in
      let (listeners, told, made) = >>=-eq-ok (push_events l c hash decoded.1 t.listeners) _ r4 in
      let is = ok_inj made in
      (
        sym (ap (λ (y : ChainTracker L D). y.tip) is),
        sym (ap (λ (y : ChainTracker L D). y.headers) is),
      )

  block_chunk-Same :
      (t t' : ChainTracker L D) (hash offset : ℕ) (bytes : List ℕ)
      → block_chunk l c t hash offset bytes ≡ ok t'
      → Same t t'
  unfolding block_chunk
  block_chunk-Same t t' hash offset bytes h = elim (if-eq-ok (offset == 0) _ _ h) [
    | inl (first, rest) ↦
        let (idle, decoded) = >>-eq-ok (assert (not (is_some t.decode_state))) _ rest in
        decode_chunk-Same _ t' hash offset bytes decoded
    | inr (later, decoded) ↦ decode_chunk-Same t t' hash offset bytes decoded
  ]

  new-Sound :
      (network : Network) (height : ℕ) (tip : Headers) (t : ChainTracker L D)
      → new l c network height tip ≡ inr t
      → Sound t
  unfolding new
  new-Sound network height tip t h =
      let headers : t.headers ≡ [] = ground (arith, h) in
      let valid : c.valid_pow t.tip.header ≡ true = ground (arith, h) in
      record {
        linked = subst (Linked c t.tip) (sym headers) tt;
        mined = subst (λ hs. Mined c (t.tip ∷ hs)) (sym headers) (valid, tt);
        bounded = ground (arith, headers);
      }

  -- In every state that a tracker reaches, each header down from the tip names the hash of the one
  -- before it, each has a valid proof of work, and at most 100 headers before the tip are kept.
  pub Reach-Sound : (t : ChainTracker L D) → Reach t → Sound t
  unfolding add_listener add_listener_watches
  Reach-Sound t (begin network height tip is_t h) = new-Sound network height tip t h
  Reach-Sound t (add t' block proof result r h) =
      add_block-Sound _ t block proof result h (Reach-Sound _ r)
  Reach-Sound t (remove t' proof result r h) =
      remove_block-Sound _ t proof result h (Reach-Sound _ r)
  Reach-Sound t (chunk t' hash offset bytes r h) =
      Same-Sound _ t (block_chunk-Same _ t hash offset bytes h) (Reach-Sound _ r)
  Reach-Sound t (listen listener txids r) = Same-Sound _ t (refl, refl) (Reach-Sound _ r)
  Reach-Sound t (watch t' key watches r h) =
      let (listeners, found, made) = >>=-eq-ok (unwrap (extend_watches l c key watches _)) _ h in
      Same-Sound _ t
        (
          sym (ap (λ (y : ChainTracker L D). y.tip) (ok_inj made)),
          sym (ap (λ (y : ChainTracker L D). y.headers) (ok_inj made)),
        )
        (Reach-Sound _ r)
