-- ===== src/Decode/Values.antt =====
-- Where the values of a commitment transaction's outputs are in what is decoded from it.
use vls.Prelude.{
  ℕ, ◌+◌, ◌*◌, ◌%◌, ◌^◌, ◌≤◌, ◌<◌, ◌≡◌, ◌⊎◌, refl, subst, inl, inr, Bool, true, false, some, List,
  [], ◌∷◌, ◌++◌, arith, if◌then◌else◌, Outcome, ok, err, panic, ValidationErrorKind, ok_inj,
  >>=-eq-ok, >>-eq-ok,
}
use vls.Setup.{ChannelSetup}
use vls.Script.{ℤ}
use vls.Decode.{
  HtlcInfo, CommitmentInfo, TxOut, Bitcoin, FundingKeys, has_to_broadcaster, has_to_countersigner,
  anchor_sat, next_count, if_ok, err_if, not_negative, handle_received_htlc_output,
  handle_offered_htlc_output, handle_p2wpkh_output, handle_to_broadcaster_output,
  handle_to_countersigner_delayed_output, count_anchor, hash160_of, public_key,
}

abbrev pub amount : List HtlcInfo → ℕ
amount [] = 0
amount (h ∷ hs) = h.value_sat + amount hs

amount-append : (hs others : List HtlcInfo) → amount (hs ++ others) ≡ amount hs + amount others
amount-append [] others = omega arith
amount-append (h ∷ hs) others = omega (arith, amount-append hs others)

abbrev pub anchors : CommitmentInfo → ℕ
anchors info = info.to_broadcaster_anchor_count + info.to_countersigner_anchor_count

-- All that a decoded commitment pays, anchors included.
abbrev pub total : CommitmentInfo → ℕ
total info =
    info.to_broadcaster_value_sat
    + info.to_countersigner_value_sat
    + anchors info * anchor_sat
    + amount info.offered_htlcs
    + amount info.received_htlcs

abbrev pub out_total : List TxOut → ℕ
out_total [] = 0
out_total (out ∷ outs) = out.value + out_total outs

-- A side that has no output yet has no value.
abbrev pub Single : CommitmentInfo → Type 0
Single info =
    (has_to_broadcaster info ≡ false → info.to_broadcaster_value_sat ≡ 0)
    × (has_to_countersigner info ≡ false → info.to_countersigner_value_sat ≡ 0)

-- What one more output of this value does.
abbrev pub Adds : CommitmentInfo → ℕ → CommitmentInfo → Type 0
Adds info value next =
    Single next
    × (anchors next ≤ anchors info + 1)
    × (anchors info + 1 < 2 ^ 16 → total next ≡ total info + value)

pub err_if-ok :
    (violated : Bool) (kind : ValidationErrorKind) → err_if violated kind ≡ ok tt → violated ≡ false
err_if-ok true kind h = cc
err_if-ok false kind h = refl

pub if_ok-ok {ℓ κ} :
    {A : Type ℓ} {B : Type κ} (vals : Outcome A) (handle : A → Outcome B) (rest : Outcome B) {b : B}
    → if_ok vals handle rest ≡ ok b
    → ((a : A) × (handle a ≡ ok b)) ⊎ (rest ≡ ok b)
if_ok-ok (ok a) handle rest h = inl (a, h)
if_ok-ok (err kind) handle rest h = inr h
if_ok-ok panic handle rest h = cc

by_outcome :
    (info : CommitmentInfo) (value : ℕ) {x next : CommitmentInfo}
    → ok x ≡ ok next
    → Adds info value x
    → Adds info value next
by_outcome info value h a = subst (Adds info value) (ok_inj h) a

one_of :
    {x y next : CommitmentInfo} (first second : Bool) (kind : ValidationErrorKind)
    → (if first then ok x else if second then ok y else err kind) ≡ ok next
    → (ok x ≡ ok next) ⊎ (ok y ≡ ok next)
one_of true second kind h = inl h
one_of false true kind h = inr h
one_of false false kind h = cc

module _ (info next : CommitmentInfo) (out : TxOut) (s : Single info) where
  pub handle_received_htlc_output-Adds :
      (vals : List ℕ × ℤ)
      → handle_received_htlc_output info out vals ≡ ok next
      → Adds info out.value next
  unfolding handle_received_htlc_output has_to_broadcaster has_to_countersigner
  handle_received_htlc_output-Adds vals h =
      let (hash, h1, r1) = >>=-eq-ok (hash160_of vals.0) _ h in
      let (expiry, h2, r2) = >>=-eq-ok (not_negative vals.1) _ r1 in
      by_outcome info out.value
        {x = record info {
          received_htlcs =
              info.received_htlcs
              ++ (record {
                value_sat = out.value;
                payment_hash_hash = hash;
                cltv_expiry = expiry % 2 ^ 32;
              }
                  ∷ []);
        }}
        r2
        (
          s,
          omega arith,
          λ few. omega (
            arith,
            amount-append info.received_htlcs (
                record {
                  value_sat = out.value;
                  payment_hash_hash = hash;
                  cltv_expiry = expiry % 2 ^ 32;
                }
                ∷ []),
          ),
        )

  pub handle_offered_htlc_output-Adds :
      (vals : List ℕ)
      → handle_offered_htlc_output info out vals ≡ ok next
      → Adds info out.value next
  unfolding handle_offered_htlc_output has_to_broadcaster has_to_countersigner
  handle_offered_htlc_output-Adds vals h =
      let (hash, h1, r1) = >>=-eq-ok (hash160_of vals) _ h in
      by_outcome info out.value
        {x = record info {
          offered_htlcs =
              info.offered_htlcs
              ++ (record { value_sat = out.value; payment_hash_hash = hash; cltv_expiry = 0 } ∷ []);
        }}
        r1
        (
          s,
          omega arith,
          λ few. omega (
            arith,
            amount-append info.offered_htlcs
                (record { value_sat = out.value; payment_hash_hash = hash; cltv_expiry = 0 } ∷ []),
          ),
        )

  module _ (b : Bitcoin) where
    pub handle_to_broadcaster_output-Adds :
        (vals : List ℕ × ℤ × List ℕ)
        → handle_to_broadcaster_output b info out vals ≡ ok next
        → Adds info out.value next
    unfolding handle_to_broadcaster_output has_to_broadcaster has_to_countersigner
    handle_to_broadcaster_output-Adds vals h =
        let (h1, r1) = >>-eq-ok _ _ h in
        let (delay, h2, r2) = >>=-eq-ok (not_negative vals.1) _ r1 in
        let (h3, r3) = >>-eq-ok _ _ r2 in
        let (delayed, h4, r4) = >>=-eq-ok (public_key b vals.2) _ r3 in
        let (revocation, h5, r5) = >>=-eq-ok (public_key b vals.0) _ r4 in
        let none_yet = s.0 (err_if-ok _ _ h1) in
        by_outcome info out.value
          {x = record info {
            to_self_delay = delay % 2 ^ 16;
            to_broadcaster_value_sat = out.value;
            to_broadcaster_delayed_pubkey = some delayed;
            revocation_pubkey = some revocation;
          }}
          r5
          ((λ not_some. ground (arith, not_some), s.1), omega arith, λ few. omega (arith, none_yet))

    pub handle_to_countersigner_delayed_output-Adds :
        (bytes : List ℕ)
        → handle_to_countersigner_delayed_output b info out bytes ≡ ok next
        → Adds info out.value next
    unfolding handle_to_countersigner_delayed_output has_to_broadcaster has_to_countersigner
    handle_to_countersigner_delayed_output-Adds bytes h =
        let (h1, r1) = >>-eq-ok _ _ h in
        let (pubkey, h2, r2) = >>=-eq-ok (public_key b bytes) _ r1 in
        let none_yet = s.1 (err_if-ok _ _ h1) in
        by_outcome info out.value
          {x = record info {
            to_countersigner_pubkey = some pubkey;
            to_countersigner_value_sat = out.value;
          }}
          r2
          ((s.0, λ not_some. ground (arith, not_some)), omega arith, λ few. omega (arith, none_yet))

    pub handle_p2wpkh_output-Adds :
        (setup : ChannelSetup) {payload : ℕ}
        → b.payload_from_script out.script_pubkey ≡ some payload
        → handle_p2wpkh_output b setup info out ≡ ok next
        → Adds info out.value next
    unfolding handle_p2wpkh_output has_to_broadcaster has_to_countersigner
    handle_p2wpkh_output-Adds setup known h =
        let (h1, r1) = >>-eq-ok _ _ h in
        let (h2, r2) = >>-eq-ok _ _ r1 in
        let none_yet = s.1 (err_if-ok _ _ h2) in
        by_outcome info out.value
          {x = record info {
            to_countersigner_address = b.payload_from_script out.script_pubkey;
            to_countersigner_value_sat = out.value;
          }}
          r2
          (
            (s.0, λ not_some. ground (arith, not_some, known)),
            omega arith,
            λ few. omega (arith, none_yet),
          )

    pub count_anchor-Adds :
        (keys : FundingKeys) (to_pubkey : ℕ)
        → out.value ≡ anchor_sat
        → count_anchor b keys info to_pubkey ≡ ok next
        → Adds info out.value next
    unfolding count_anchor next_count has_to_broadcaster has_to_countersigner
    count_anchor-Adds keys to_pubkey right h =
        let more : CommitmentInfo = record info {
          to_broadcaster_anchor_count = (info.to_broadcaster_anchor_count + 1) % 2 ^ 16;
        } in
        let other : CommitmentInfo = record info {
          to_countersigner_anchor_count = (info.to_countersigner_anchor_count + 1) % 2 ^ 16;
        } in
        elim (one_of {x = more} {y = other} _ _ _ h) [
          | inl r ↦
              by_outcome info out.value {x = more} r (s, omega arith, λ few. omega (arith, right))
          | inr r ↦
              by_outcome info out.value {x = other} r (s, omega arith, λ few. omega (arith, right))
        ]
