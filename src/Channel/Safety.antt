-- ===== src/Channel/Safety.antt =====
-- No commitment of the holder is both signed and revoked (vls-core/src/channel.rs).
use vls.Prelude.{ℕ, ◌<◌, ◌≡◌, refl, Bool, List, All, arith, Outcome, ok, err, panic}
use vls.Tx.{HtlcInfo2}
use vls.Enforcement.{EnforcementState, CommitmentSignatures}
use vls.Enforcement
use vls.Enforcement.Numbers.{num_end}
use vls.Validator.{SimplePolicy}
use vls.Channel.{Channel, Keys}
use vls.Channel.Requests.{
  Payments, settle, holder_commitment, holder_signature, counterparty_commitment, revocation_secret,
  revocation_from, revocation, validate_holder_commitment_tx_phase2,
  sign_holder_commitment_tx_phase2, sign_counterparty_commitment_tx_phase2, validate_revocation,
}
use vls.Channel.Effects.{
  Guards, SameHolder, get_per_commitment_secret-old, counterparty_commitment-holder,
  revocation_secret-holder, revocation-holder,
}
use vls.Channel.HolderEffects.{holder_signature-ok, holder_commitment-ok}
use vls.Channel.Run.{Run, released_by, signed_by}
use vls.Channel.Secure.{Secure, Secure-same, Secure-sign, Secure-validate, settle-Secure, All-below}

module _ (p : SimplePolicy) (keys : Keys) {S : Type 0} (payments : Payments S)
    (persist : Channel → Bool) (g : Guards p.filter) where
  validate-Secure :
      (released signed : List ℕ) (c : Channel) (n : S)
      (height num feerate to_holder to_counterparty : ℕ) (offered received : List HtlcInfo2)
      (signatures : CommitmentSignatures)
      → Secure released signed c
      → num < num_end
      → let reply =
          validate_holder_commitment_tx_phase2 p keys payments persist c n height num feerate
            to_holder to_counterparty offered received signatures in
        Secure (released_by num reply.result released) signed reply.channel
  unfolding validate_holder_commitment_tx_phase2
  validate-Secure released signed c n height num feerate to_holder to_counterparty offered received
        signatures s small =
      settle-Secure persist (λ o. (released_by num o released, signed)) c n
        (holder_commitment p keys payments persist c n height num feerate to_holder to_counterparty
          offered received signatures)
        s (λ kind. s)
        λ d n' r h.
          let moved =
            holder_commitment-ok p keys payments persist g c d n n' height num feerate to_holder
              to_counterparty offered received signatures small s.bound h in
          let (logged, kept) = Secure-validate released signed c d num r.0 r.1 s small moved in
          (logged, λ kind. kept)

  sign_holder-Secure :
      (released signed : List ℕ) (c : Channel) (n : S) (num : ℕ)
      → Secure released signed c
      → num < num_end
      → let reply = sign_holder_commitment_tx_phase2 p keys payments persist c n num in
        Secure released (signed_by num reply.result signed) reply.channel
  unfolding sign_holder_commitment_tx_phase2
  sign_holder-Secure released signed c n num s small =
      settle-Secure persist (λ o. (released, signed_by num o signed)) c n
        (holder_signature p keys payments persist c n num) s (λ kind. s)
        λ d n' r h.
          let (logged, kept) =
            Secure-sign released signed c d num s
              (holder_signature-ok p keys payments persist g c d n n' num small h) in
          (logged, λ kind. kept)

  sign_counterparty-Secure :
      (released signed : List ℕ) (c : Channel) (n : S)
      (height point num feerate to_holder to_counterparty : ℕ) (offered received : List HtlcInfo2)
      → Secure released signed c
      → Secure released signed
          (sign_counterparty_commitment_tx_phase2 p keys payments persist c n height point num
            feerate to_holder to_counterparty offered received).channel
  unfolding sign_counterparty_commitment_tx_phase2
  sign_counterparty-Secure released signed c n height point num feerate to_holder to_counterparty
        offered received s =
      settle-Secure persist (λ o. (released, signed)) c n
        (counterparty_commitment p keys payments persist c n height point num feerate to_holder
          to_counterparty offered received)
        s (λ kind. s)
        λ d n' r h.
          let kept =
            Secure-same released signed c d
              (counterparty_commitment-holder p keys payments persist c d n n' height point num
                feerate to_holder to_counterparty offered received h)
              s in
          (kept, λ kind. kept)

  revocation-Secure :
      (released signed : List ℕ) (c : Channel) (n : S) (num : ℕ)
      → Secure released signed c
      → Secure released signed
          (settle persist c n (revocation p keys payments persist c n num)).channel
  revocation-Secure released signed c n num s =
      settle-Secure persist (λ o. (released, signed)) c n
        (revocation p keys payments persist c n num) s (λ kind. s)
        λ d n' r h.
          let kept =
            Secure-same released signed c d
              (revocation-holder p keys payments persist c d n n' num h) s in
          (kept, λ kind. kept)

  revocation_from-Secure :
      (released signed : List ℕ) (c : Channel) (n : S) (num : ℕ) (o : Outcome Channel)
      → Secure released signed c
      → ((d : Channel) → o ≡ ok d → SameHolder c d)
      → Secure released signed (revocation_from p keys payments persist c n num o).channel
  revocation_from-Secure released signed c n num (ok d) s f =
      revocation-Secure released signed d n num (Secure-same released signed c d (f d refl) s)
  revocation_from-Secure released signed c n num (err kind) s f = s
  revocation_from-Secure released signed c n num panic s f = s

  validate_revocation-Secure :
      (released signed : List ℕ) (c : Channel) (n : S) (num secret : ℕ)
      → Secure released signed c
      → Secure released signed (validate_revocation p keys payments persist c n num secret).channel
  unfolding validate_revocation
  validate_revocation-Secure released signed c n num secret s =
      revocation_from-Secure released signed c n num
        (revocation_secret p keys payments persist c num secret) s
        λ d h. revocation_secret-holder p keys payments persist c d num secret h

  Run-Secure :
      {released signed : List ℕ} {c : Channel}
      → Run p keys payments persist released signed c
      → Secure released signed c
  unfolding Enforcement.new
  Run-Secure (Run.begin setup value) = record { bound = omega arith; old = tt; last = tt }
  Run-Secure {c = c} (Run.release num secret r small h) =
      let s = Run-Secure r in
      record {
        bound = s.bound;
        old = (get_per_commitment_secret-old p keys g c num small h, s.old);
        last = s.last;
      }
  Run-Secure {signed = signed}
        (Run.validate {released = released} {c = c} n height num feerate to_holder to_counterparty
          offered received signatures reply r small e) =
      rw e (
        validate-Secure released signed c n height num feerate to_holder to_counterparty offered
          received signatures (Run-Secure r) small)
  Run-Secure {released = released}
        (Run.sign_holder {signed = signed} {c = c} n num reply r small e) =
      rw e (sign_holder-Secure released signed c n num (Run-Secure r) small)
  Run-Secure {released = released} {signed = signed}
        (Run.sign_counterparty {c = c} n height point num feerate to_holder to_counterparty offered
          received r) =
      sign_counterparty-Secure released signed c n height point num feerate to_holder
        to_counterparty offered received (Run-Secure r)
  Run-Secure {released = released} {signed = signed} (Run.revoke {c = c} n num secret r) =
      validate_revocation-Secure released signed c n num secret (Run-Secure r)

  -- In every run of the requests of `Run` under an enforcing policy, failed requests and failures
  -- to store included, with commitment numbers below 2 ^ 48, each commitment of the holder whose
  -- signature was returned is later than each whose revocation secret was released. So none was
  -- both signed and revoked.
  pub Run-safe :
      {released signed : List ℕ} {c : Channel}
      → Run p keys payments persist released signed c
      → All (λ (m : ℕ). All (λ (k : ℕ). k < m) released) signed
  Run-safe {released} {signed} {c} r =
      let s = Run-Secure r in
      All-below c.enforcement_state.next_holder_commit_num c.enforcement_state.channel_closed
        released signed s.old s.last
