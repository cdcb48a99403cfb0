-- ===== src/Channel/Run.antt =====
-- Runs of a channel's requests from its creation on, and the numbers of the holder's commitments
-- whose secret or signature leaves the signer in them.
use vls.Prelude.{ℕ, ◌-◌, ◌<◌, ◌≡◌, Bool, Option, none, some, List, [], ◌∷◌, Outcome, ok, err, panic}
use vls.Tx.{HtlcInfo2}
use vls.Setup.{ChannelSetup}
use vls.Enforcement.{EnforcementState, CommitmentSignatures}
use vls.Enforcement
use vls.Enforcement.Numbers.{num_end}
use vls.Validator.{SimplePolicy}
use vls.Channel.{Channel, Keys, get_per_commitment_secret}
use vls.Channel.Requests.{
  Payments, Reply, validate_holder_commitment_tx_phase2, sign_holder_commitment_tx_phase2,
  sign_counterparty_commitment_tx_phase2, validate_revocation,
}

-- The number of the commitment whose secret a validation returned.
abbrev pub released_by : ℕ → Outcome (ℕ × Option ℕ) → List ℕ → List ℕ
released_by num (ok (point, some secret)) released = (num - 1) ∷ released
released_by num (ok (point, none)) released = released
released_by num (err kind) released = released
released_by num panic released = released

abbrev pub signed_by : ℕ → Outcome (ℕ × List ℕ) → List ℕ → List ℕ
signed_by num (ok signatures) signed = num ∷ signed
signed_by num (err kind) signed = signed
signed_by num panic signed = signed

module _ (p : SimplePolicy) (keys : Keys) {S : Type 0} (payments : Payments S)
    (persist : Channel → Bool) where
  -- The numbers of the holder's commitments whose secret was released, those whose signature was
  -- returned, and the channel. Failed requests are part of a run.
  pub data Run : List ℕ → List ℕ → Channel → Type 0 where
    begin :
        (setup : ChannelSetup) (value : ℕ)
        → Run [] [] (record { enforcement_state = Enforcement.new value; setup = setup })
    release :
        {released signed : List ℕ} {c : Channel} (num secret : ℕ)
        → Run released signed c
        → num < num_end
        → get_per_commitment_secret p keys c num ≡ ok secret
        → Run (num ∷ released) signed c
    validate :
        {released signed : List ℕ} {c : Channel} (n : S)
        (height num feerate to_holder to_counterparty : ℕ) (offered received : List HtlcInfo2)
        (signatures : CommitmentSignatures) (reply : Reply S (ℕ × Option ℕ))
        → Run released signed c
        → num < num_end
        → reply
          ≡ validate_holder_commitment_tx_phase2 p keys payments persist c n height num feerate
              to_holder to_counterparty offered received signatures
        → Run (released_by num reply.result released) signed reply.channel
    sign_holder :
        {released signed : List ℕ} {c : Channel} (n : S) (num : ℕ) (reply : Reply S (ℕ × List ℕ))
        → Run released signed c
        → num < num_end
        → reply ≡ sign_holder_commitment_tx_phase2 p keys payments persist c n num
        → Run released (signed_by num reply.result signed) reply.channel
    sign_counterparty :
        {released signed : List ℕ} {c : Channel} (n : S)
        (height point num feerate to_holder to_counterparty : ℕ) (offered received : List HtlcInfo2)
        → Run released signed c
        → Run released signed
            (sign_counterparty_commitment_tx_phase2 p keys payments persist c n height point num
              feerate to_holder to_counterparty offered received).channel
    revoke :
        {released signed : List ℕ} {c : Channel} (n : S) (num secret : ℕ)
        → Run released signed c
        → Run released signed (validate_revocation p keys payments persist c n num secret).channel
