-- ===== src/Samples.antt =====
-- A policy, a setup, commitments and keys at which the tests run the validator and the channel.
use vls.Prelude.{ℕ, ◌+◌, Bool, true, false, none, some, [], ◌∷◌, ok, refl}
use vls.Policy.{filter}
use vls.Tx.{CommitmentInfo2}
use vls.Setup.{ChannelSetup, CommitmentType}
use vls.Validator.{SimplePolicy, make_simple_policy}
use vls.Channel.{Keys, Channel}
use vls.Channel.Requests.{Payments}
use vls.Enforcement.Numbers.{Progression}
use vls.Validator.Accepted.{Commits}
use vls.Channel.Effects.{Guards}

abbrev pub policy : SimplePolicy
policy = make_simple_policy false

abbrev pub setup : ChannelSetup
setup = record {
  is_outbound = true;
  channel_value_sat = 3000000;
  push_value_msat = 0;
  funding_outpoint = 1;
  holder_selected_contest_delay = 6;
  holder_shutdown_script = none;
  counterparty_points = 2;
  counterparty_selected_contest_delay = 7;
  counterparty_shutdown_script = none;
  commitment_type = CommitmentType.static_remote_key;
}

-- A commitment of the holder, with a fee of 1000 sat.
abbrev pub commitment : CommitmentInfo2
commitment = record {
  is_counterparty_broadcaster = false;
  to_countersigner_pubkey = 1;
  to_countersigner_value_sat = 1000000;
  revocation_pubkey = 2;
  to_broadcaster_delayed_pubkey = 3;
  to_broadcaster_value_sat = 1900000;
  to_self_delay = 7;
  offered_htlcs =
      record { value_sat = 9000; payment_hash = 8; cltv_expiry = 500 }
      ∷ record { value_sat = 40000; payment_hash = 7; cltv_expiry = 500 }
      ∷ [];
  received_htlcs = record { value_sat = 50000; payment_hash = 9; cltv_expiry = 500 } ∷ [];
  feerate_per_kw = 253;
}

-- The weights of `lightning` for channels without anchors.
abbrev pub timeout_weight : Bool → ℕ
timeout_weight anchors = 663

abbrev pub success_weight : Bool → ℕ
success_weight anchors = 703

abbrev pub keys : Keys
keys = record {
  get_per_commitment_point = λ index. index + 5;
  release_commitment_secret = λ index. index;
  public_key = λ secret. secret + 5;
  secret_bytes = λ secret. secret ∷ [];
  sha256 = λ bytes. bytes;
  derive_public_key = λ point base. ok (point + base);
  derive_public_revocation_key = λ point base. point + base;
  holder_payment_point = 1;
  holder_revocation_basepoint = 2;
  holder_delayed_payment_basepoint = 3;
  counterparty_payment_point = 4;
  counterparty_revocation_basepoint = 5;
  counterparty_delayed_payment_basepoint = 6;
  sign_counterparty_commitment = λ point num info. ok (num, []);
  sign_holder_commitment = λ point num feerate info. ok (num, []);
  check_holder_tx_signatures = λ point num info signatures. ok tt;
  htlc_timeout_tx_weight = timeout_weight;
  htlc_success_tx_weight = success_weight;
}

-- A node that accepts every payment.
abbrev pub payments : Payments ℕ
payments = record {
  has_preimage = λ n hash. false;
  validate_payments = λ n incoming outgoing delta. ok tt;
  apply_payments = λ n incoming outgoing delta. some n;
}

abbrev pub persist : Channel → Bool
persist c = true

pub policy-Progression : Progression policy.filter
unfolding filter make_simple_policy
policy-Progression = record {
  previous_revoked = refl;
  retry_same = refl;
  commitment_signed = refl;
  other = refl;
}

pub policy-Commits : Commits policy.filter
unfolding filter make_simple_policy
policy-Commits = record {
  trimmed = refl;
  count = refl;
  inflight = refl;
  fee_range = refl;
  first_no_htlcs = refl;
  initial_value = refl;
}

pub policy-Guards : Guards policy.filter
unfolding filter make_simple_policy
policy-Guards = record {
  holds = record { retry_same = refl; not_revoked = refl; active = refl; delay = refl };
  signed_before = refl;
  other = refl;
}
