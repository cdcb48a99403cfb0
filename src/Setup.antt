-- ===== src/Setup.antt =====
-- The negotiated parameters of a channel (vls-core/src/channel.rs). Outpoints, scripts and the
-- counterparty's keys are numbers.
use vls.Prelude.{ℕ, Bool, true, false, not, ◌||◌, Option, add_u64, add_u32}

pub data CommitmentType : Type 0 where
  legacy static_remote_key anchors anchors_zero_fee_htlc : CommitmentType

pub record ChannelSetup : Type 0 where
  pub is_outbound : Bool
  pub channel_value_sat : ℕ
  pub push_value_msat : ℕ
  pub funding_outpoint : ℕ
  pub holder_selected_contest_delay : ℕ
  pub holder_shutdown_script : Option ℕ
  pub counterparty_points : ℕ
  pub counterparty_selected_contest_delay : ℕ
  pub counterparty_shutdown_script : Option ℕ
  pub commitment_type : CommitmentType

-- The derived `==` with `AnchorsZeroFeeHtlc`, and so on.
abbrev is_legacy : CommitmentType → Bool
is_legacy CommitmentType.legacy = true
is_legacy _ = false

abbrev pub is_plain_anchors : CommitmentType → Bool
is_plain_anchors CommitmentType.anchors = true
is_plain_anchors _ = false

abbrev is_zero_fee : CommitmentType → Bool
is_zero_fee CommitmentType.anchors_zero_fee_htlc = true
is_zero_fee _ = false

unfoldable pub is_static_remotekey : ChannelSetup → Bool
is_static_remotekey setup = not (is_legacy setup.commitment_type)

unfoldable pub is_anchors : ChannelSetup → Bool
is_anchors setup = is_plain_anchors setup.commitment_type || is_zero_fee setup.commitment_type

unfoldable pub is_zero_fee_htlc : ChannelSetup → Bool
is_zero_fee_htlc setup = is_zero_fee setup.commitment_type

pub record ChannelBalance : Type 0 where
  pub claimable : ℕ
  pub received_htlc : ℕ
  pub offered_htlc : ℕ
  pub sweeping : ℕ
  pub channel_count : ℕ
  pub received_htlc_count : ℕ
  pub offered_htlc_count : ℕ

-- `ChannelBalance::zero`
abbrev pub zero_balance : ChannelBalance
zero_balance = record {
  claimable = 0;
  received_htlc = 0;
  offered_htlc = 0;
  sweeping = 0;
  channel_count = 0;
  received_htlc_count = 0;
  offered_htlc_count = 0;
}

unfoldable pub accumulate : ChannelBalance → ChannelBalance → ChannelBalance
accumulate b other = record {
  claimable = add_u64 b.claimable other.claimable;
  received_htlc = add_u64 b.received_htlc other.received_htlc;
  offered_htlc = add_u64 b.offered_htlc other.offered_htlc;
  sweeping = add_u64 b.sweeping other.sweeping;
  channel_count = add_u32 b.channel_count other.channel_count;
  received_htlc_count = add_u32 b.received_htlc_count other.received_htlc_count;
  offered_htlc_count = add_u32 b.offered_htlc_count other.offered_htlc_count;
}
