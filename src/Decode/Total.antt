-- ===== src/Decode/Total.antt =====
-- The values of a whole commitment transaction.
use vls.Prelude.{
  ℕ, ◌+◌, ◌^◌, ◌<◌, ◌≡◌, refl, subst, inl, inr, Bool, true, not, some, List, [], ◌∷◌, length, arith,
  ◌==◌, if◌then◌else◌, ok, err, ValidationErrorKind, ok_inj, if-eq-ok, >>=-eq-ok, >>-eq-ok,
}
use vls.Setup.{ChannelSetup, is_anchors}
use vls.Script.{
  Script, parse_received_htlc_script, parse_offered_htlc_script, parse_to_broadcaster_script,
  parse_to_countersigner_delayed_script, parse_anchor_script,
}
use vls.Validator.{SimplePolicy}
use vls.Decode.{
  CommitmentInfo, TxOut, Bitcoin, FundingKeys, new, anchor_sat, if_ok,
  handle_to_countersigner_delayed_output, handle_anchor_output, handle_script, public_key,
  handle_output, handle_outputs, decode_commitment_tx,
}
use vls.Decode.Values.{
  Single, Adds, anchors, total, out_total, err_if-ok, if_ok-ok, handle_received_htlc_output-Adds,
  handle_offered_htlc_output-Adds, handle_to_broadcaster_output-Adds,
  handle_to_countersigner_delayed_output-Adds, handle_p2wpkh_output-Adds, count_anchor-Adds,
}

module _ (info next : CommitmentInfo) (out : TxOut) (s : Single info) (b : Bitcoin) where
  handle_anchor_output-Adds :
      (keys : FundingKeys) (bytes : List ℕ)
      → handle_anchor_output b keys info out bytes ≡ ok next
      → Adds info out.value next
  unfolding handle_anchor_output
  handle_anchor_output-Adds keys bytes h =
      let (to_pubkey, h1, r1) = >>=-eq-ok (public_key b bytes) _ h in
      let (h2, r2) = >>-eq-ok _ _ r1 in
      let wrong = err_if-ok (not (out.value == anchor_sat)) ValidationErrorKind.mismatch h2 in
      count_anchor-Adds info next out s b keys to_pubkey (ground (arith, wrong)) r2

  delayed_script-Adds :
      (setup : ChannelSetup) (script : Script)
      → (if is_anchors setup
          then if_ok
              (parse_to_countersigner_delayed_script b.classify b.read_scriptint script)
              (handle_to_countersigner_delayed_output b info out)
              (err ValidationErrorKind.transaction_format)
          else err ValidationErrorKind.transaction_format)
        ≡ ok next
      → Adds info out.value next
  delayed_script-Adds setup script h = elim (if-eq-ok (is_anchors setup) _ _ h) [
    | inl (anchored, r) ↦
        elim (if_ok-ok (parse_to_countersigner_delayed_script b.classify b.read_scriptint script) _
          _ r) [
            | inl (vals, e) ↦ handle_to_countersigner_delayed_output-Adds info next out s b vals e
            | inr e ↦ cc
          ]
    | inr (plain, e) ↦ cc
  ]

  handle_script-Adds :
      (keys : FundingKeys) (setup : ChannelSetup) (script : Script)
      → handle_script b keys setup info out script ≡ ok next
      → Adds info out.value next
  unfolding handle_script
  handle_script-Adds keys setup script h =
      elim (if_ok-ok (parse_to_broadcaster_script b.classify b.read_scriptint script) _ _ h) [
        | inl (vals, e) ↦ handle_to_broadcaster_output-Adds info next out s b vals e
        | inr r1 ↦
            elim (if_ok-ok
              (parse_received_htlc_script b.classify b.read_scriptint script (is_anchors setup)) _ _
              r1) [
                | inl (vals, e) ↦ handle_received_htlc_output-Adds info next out s vals e
                | inr r2 ↦
                    elim (if_ok-ok
                      (parse_offered_htlc_script b.classify b.read_scriptint script
                        (is_anchors setup))
                      _ _ r2) [
                        | inl (vals, e) ↦ handle_offered_htlc_output-Adds info next out s vals e
                        | inr r3 ↦
                            elim (if_ok-ok (parse_anchor_script b.classify b.read_scriptint script)
                              _ _ r3) [
                                | inl (vals, e) ↦ handle_anchor_output-Adds keys vals e
                                | inr r4 ↦ delayed_script-Adds setup script r4
                              ]
                      ]
              ]
      ]

  handle_output-Adds :
      (keys : FundingKeys) (setup : ChannelSetup) (bytes : List ℕ)
      → ((script : ℕ)
          → b.is_v0_p2wpkh script ≡ true
          → (payload : ℕ) × (b.payload_from_script script ≡ some payload))
      → handle_output b keys setup info out bytes ≡ ok next
      → Adds info out.value next
  unfolding handle_output
  handle_output-Adds keys setup bytes known h =
      elim (if-eq-ok (b.is_v0_p2wpkh out.script_pubkey) _ _ h) [
        | inl (key, r) ↦
            handle_p2wpkh_output-Adds info next out s b setup (known out.script_pubkey key).1 r
        | inr (no_key, r1) ↦ elim (if-eq-ok (b.is_v0_p2wsh out.script_pubkey) _ _ r1) [
          | inl (hash, r) ↦ handle_script-Adds keys setup (b.instructions bytes) (>>-eq-ok _ _ r).1
          | inr (unknown, e) ↦ cc
        ]
      ]

module _ (b : Bitcoin)
    (known : (script : ℕ)
      → b.is_v0_p2wpkh script ≡ true
      → (payload : ℕ) × (b.payload_from_script script ≡ some payload)) where
  handle_outputs-total :
      (keys : FundingKeys) (setup : ChannelSetup) (info : CommitmentInfo) {next : CommitmentInfo}
      (outs : List TxOut) (witscripts : List (List ℕ))
      → Single info
      → anchors info + length outs < 2 ^ 16
      → handle_outputs b keys setup info outs witscripts ≡ ok next
      → total next ≡ total info + out_total outs
  unfolding handle_outputs
  handle_outputs-total keys setup info {next} [] witscripts s few h =
      subst (λ x. total x ≡ total info + 0) (ok_inj h) (omega arith)
  handle_outputs-total keys setup info (out ∷ outs) [] s few h = cc
  handle_outputs-total keys setup info (out ∷ outs) (witscript ∷ witscripts) s few h =
      let (middle, h1, r) = >>=-eq-ok (handle_output b keys setup info out witscript) _ h in
      let a = handle_output-Adds info middle out s b keys setup witscript known h1 in
      let rest =
        handle_outputs-total keys setup middle outs witscripts a.0 (omega (arith, a.1, few)) r in
      omega (arith, rest, a.2 (omega arith))

  -- What is decoded from a commitment transaction of fewer than 2 ^ 16 outputs holds the value of
  -- each output once, in the value of a side, in an anchor or in an HTLC: these add up to the sum
  -- of the outputs. The crate `bitcoin` is taken to find an address in each script that it says
  -- pays to a public key's hash.
  pub decode_commitment_tx-total :
      (p : SimplePolicy) (keys : FundingKeys) (setup : ChannelSetup) (is_counterparty : Bool)
      (version : ℕ) (outs : List TxOut) (witscripts : List (List ℕ)) (info : CommitmentInfo)
      → length outs < 2 ^ 16
      → decode_commitment_tx b p keys setup is_counterparty version outs witscripts ≡ ok info
      → total info ≡ out_total outs
  unfolding decode_commitment_tx new
  decode_commitment_tx-total p keys setup is_counterparty version outs witscripts info few h =
      let start : CommitmentInfo = new is_counterparty in
      let (h1, r) = >>-eq-ok _ _ h in
      let sum =
        handle_outputs-total keys setup start outs witscripts
          (λ no_broadcaster. refl, λ no_countersigner. refl) (omega arith) r in
      omega (arith, sum)
