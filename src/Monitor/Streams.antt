-- ===== src/Monitor/Streams.antt =====
-- Streaming a block changes nothing of a monitor but its decode state (vls-core/src/monitor.rs).
use vls.Prelude.{
  ℕ, ◌≡◌, refl, ap, subst, ◌∙◌, List, [], ◌∷◌, Outcome, ok, unwrap, >>=-eq-ok, ok_inj, if-eq-ok,
  inl, inr,
}
use vls.Monitor.{
  TxIn, Transaction, BlockDecodeState, State, is_not_ready_for_push, pushed, start_transaction,
  read_input, read_output, end_transaction, on_transaction_start, on_transaction_input,
  on_transaction_output, on_transaction_end,
}
use vls.Monitor.Blocks.{push_inputs, push_outputs, push_transactions}

-- The same monitor, up to the decode state.
abbrev pub Streamed : State → State → Type 0
Streamed s t = t ≡ record s { decode_state = t.decode_state }

Streamed-trans : (s t u : State) → Streamed s t → Streamed t u → Streamed s u
Streamed-trans s t u a b = b ∙ ap (λ (x : State). record x { decode_state = u.decode_state }) a

pushed-Streamed :
    (s t : State) (event : BlockDecodeState → Outcome BlockDecodeState)
    → pushed s event ≡ ok t
    → Streamed s t
unfolding pushed
pushed-Streamed s t event h = elim (if-eq-ok (is_not_ready_for_push s) _ _ h) [
  | inl (unready, same) ↦ subst (Streamed s) (ok_inj same) refl
  | inr (ready, rest) ↦
      let (d, is, read) = >>=-eq-ok (unwrap s.decode_state) _ rest in
      let (e, became, made) = >>=-eq-ok (event d) _ read in subst (Streamed s) (ok_inj made) refl
]

push_inputs-Streamed : (is : List TxIn) (s t : State) → push_inputs is s ≡ ok t → Streamed s t
unfolding push_inputs on_transaction_input
push_inputs-Streamed [] s t h = subst (Streamed s) (ok_inj h) refl
push_inputs-Streamed (i ∷ is) s t h =
    let (m, first, rest) = >>=-eq-ok (on_transaction_input s i) _ h in
    Streamed-trans s m t (pushed-Streamed s m (read_input s i) first)
      (push_inputs-Streamed is m t rest)

push_outputs-Streamed : (os : List ℕ) (s t : State) → push_outputs os s ≡ ok t → Streamed s t
unfolding push_outputs on_transaction_output
push_outputs-Streamed [] s t h = subst (Streamed s) (ok_inj h) refl
push_outputs-Streamed (o ∷ os) s t h =
    let (m, first, rest) = >>=-eq-ok (on_transaction_output s o) _ h in
    Streamed-trans s m t (pushed-Streamed s m (read_output o) first)
      (push_outputs-Streamed os m t rest)

pub push_transactions-Streamed :
    (txid_of : Transaction → ℕ) (txs : List Transaction) (s t : State)
    → push_transactions txid_of txs s ≡ ok t
    → Streamed s t
unfolding push_transactions on_transaction_start on_transaction_end
push_transactions-Streamed txid_of [] s t h = subst (Streamed s) (ok_inj h) refl
push_transactions-Streamed txid_of (tx ∷ txs) s t h =
    let (a, h1, r1) = >>=-eq-ok (on_transaction_start s tx.version) _ h in
    let (b, h2, r2) = >>=-eq-ok (push_inputs tx.input a) _ r1 in
    let (c, h3, r3) = >>=-eq-ok (push_outputs tx.output b) _ r2 in
    let (e, h4, r4) = >>=-eq-ok (on_transaction_end c tx.lock_time (txid_of tx)) _ r3 in
    Streamed-trans s a t (pushed-Streamed s a (start_transaction tx.version) h1) (
      Streamed-trans a b t (push_inputs-Streamed tx.input a b h2) (
        Streamed-trans b c t (push_outputs-Streamed tx.output b c h3) (
          Streamed-trans c e t
            (pushed-Streamed c e (end_transaction c tx.lock_time (txid_of tx)) h4)
            (push_transactions-Streamed txid_of txs e t r4))))
