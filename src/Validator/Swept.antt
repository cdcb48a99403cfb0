-- ===== src/Validator/Swept.antt =====
-- What a sweep satisfies that passed the checks of an enforcing policy.
use mathlib.Core.List.{Memᴰ}
use vls.Prelude.{
  ℕ, ◌+◌, ◌≤◌, ◌<◌, ◌≡◌, ◌⊎◌, inl, inr, ap, ◌∙◌, refl, Bool, true, not, Option, some, List, [], ◌∷◌,
  All, arith, ok, err, panic, Outcome, ok_or, unwrap, get_elem?, ltb, leb, ◌==◌, ==_iff,
  if◌then◌else◌, u32_mod, add_u32, ValidationErrorKind, Bool-cases, >>=-eq-ok, >>-eq-ok, ◌>>◌,
}
use vls.Policy.Laws.{Enforces, policy_err_if-ok}
use vls.Validator.{SimplePolicy}
use vls.Validator.Closed.{ok_or-eq}
use vls.Validator.Sweeps.{
  Sweep, check_destinations, validate_sweep, validate_delayed_sweep, validate_justice_sweep,
  validate_counterparty_htlc_sweep, contains_seq, check_sequence, check_locktime,
  check_htlc_locktime, out_of_u32, later, anchor_seqs, non_anchor_seqs,
}
use vls.Setup.{ChannelSetup, is_anchors}
use vls.Script.{ℤ, Script, parse_received_htlc_script, parse_offered_htlc_script}
use vls.Decode.{if_ok, err_if}
use vls.Decode.Values.{err_if-ok}
use vls.Monitor.Blocks.{ChainState}

module _ (p : SimplePolicy) (can_spend : List ℕ → ℕ → Option Bool)
    (allowlist_contains : ℕ → List ℕ → Bool)
    (e : Enforces p.filter "policy-sweep-destination-allowlisted") where
  -- The wallet can spend the script, or has it in its allowlist.
  abbrev pub Ours : List ℕ → ℕ → Type 0
  Ours path script = (can_spend path script ≡ some true) ⊎ (allowlist_contains script path ≡ true)

  check_destinations-Ours :
      (path scripts : List ℕ)
      → check_destinations p can_spend allowlist_contains path scripts ≡ ok tt
      → All (λ (script : ℕ). Ours path script) scripts
  unfolding check_destinations
  check_destinations-Ours path [] h = tt
  check_destinations-Ours path (script ∷ scripts) h =
      let (spendable, h1, r1) =
        >>=-eq-ok (ok_or ValidationErrorKind.policy (can_spend path script)) _ h in
      let (h2, r2) = >>-eq-ok _ _ r1 in
      let allowed = policy_err_if-ok p.filter _ _ e h2 in
      let ours : Ours path script = elim (Bool-cases spendable) [
        | inl true_is ↦ inl (ok_or-eq _ (can_spend path script) h1 ∙ ap some true_is)
        | inr false_is ↦ inr (ground (arith, allowed, false_is))
      ] in
      (ours, check_destinations-Ours path scripts r2)

  -- Every output of a sweep that passes under an enforcing policy pays to a script of the wallet
  -- or of its allowlist.
  pub validate_sweep-Ours :
      (tx : Sweep) (path : List ℕ)
      → validate_sweep p can_spend allowlist_contains tx path ≡ ok tt
      → All (λ (script : ℕ). Ours path script) tx.scripts
  unfolding validate_sweep
  validate_sweep-Ours tx path h = check_destinations-Ours path tx.scripts (>>-eq-ok _ _ h).1

  -- The same for the sweep of a delayed output.
  pub validate_delayed_sweep-Ours :
      (setup : ChannelSetup) (cstate : ChainState) (tx : Sweep) (path : List ℕ)
      → validate_delayed_sweep p can_spend allowlist_contains setup cstate tx path ≡ ok tt
      → All (λ (script : ℕ). Ours path script) tx.scripts
  unfolding validate_delayed_sweep
  validate_delayed_sweep-Ours setup cstate tx path h =
      validate_sweep-Ours tx path (>>-eq-ok _ _ h).0

  -- The same for a justice sweep.
  pub validate_justice_sweep-Ours :
      (cstate : ChainState) (tx : Sweep) (path : List ℕ)
      → validate_justice_sweep p can_spend allowlist_contains cstate tx path ≡ ok tt
      → All (λ (script : ℕ). Ours path script) tx.scripts
  unfolding validate_justice_sweep
  validate_justice_sweep-Ours cstate tx path h = validate_sweep-Ours tx path (>>-eq-ok _ _ h).0

  -- The same for the sweep of an HTLC of the counterparty's commitment.
  pub validate_counterparty_htlc_sweep-Ours :
      (classify : ℕ → Option ℤ) (read_scriptint : List ℕ → Option ℤ) (setup : ChannelSetup)
      (cstate : ChainState) (tx : Sweep) (redeemscript : Script) (path : List ℕ)
      → validate_counterparty_htlc_sweep p can_spend allowlist_contains classify read_scriptint
          setup cstate tx redeemscript path
        ≡ ok tt
      → All (λ (script : ℕ). Ours path script) tx.scripts
  unfolding validate_counterparty_htlc_sweep
  validate_counterparty_htlc_sweep-Ours classify read_scriptint setup cstate tx redeemscript path
        h =
      validate_sweep-Ours tx path (>>-eq-ok _ _ h).0

unwrap-eq : (o : Option ℕ) {a : ℕ} → unwrap o ≡ ok a → o ≡ some a
unwrap-eq o h = ground arith

contains_seq-Memᴰ : (seq : ℕ) (seqs : List ℕ) → contains_seq seq seqs ≡ true → Memᴰ seq seqs
contains_seq-Memᴰ seq [] h = cc
contains_seq-Memᴰ seq (s ∷ seqs) h = elim (Bool-cases (seq == s)) [
  | inl same ↦ Memᴰ.head ((==_iff seq s).0 same)
  | inr other ↦ Memᴰ.tail (contains_seq-Memᴰ seq seqs (ground (arith, other, h)))
]

check_sequence-ok :
    (tx : Sweep) (seqs : List ℕ)
    → check_sequence tx seqs ≡ ok tt
    → (seq : ℕ) × (get_elem? tx.sequences 0 ≡ some seq) × Memᴰ seq seqs
unfolding check_sequence
check_sequence-ok tx seqs h =
    let (seq, h1, h2) = >>=-eq-ok (unwrap (get_elem? tx.sequences 0)) _ h in
    let missing = err_if-ok (not (contains_seq seq seqs)) _ h2 in
    (
      seq,
      unwrap-eq (get_elem? tx.sequences 0) h1,
      contains_seq-Memᴰ seq seqs (ground (arith, missing)),
    )

check_locktime-ok :
    (cstate : ChainState) (tx : Sweep)
    → check_locktime cstate tx ≡ ok tt
    → cstate.current_height + 2 < u32_mod
    → tx.lock_time ≤ cstate.current_height + 2
unfolding check_locktime add_u32
check_locktime-ok cstate tx h small = let e = err_if-ok _ _ h in ground (arith, e)

cltv_checked :
    (lock_time : ℕ) (cltv_expiry : ℤ)
    → (err_if (out_of_u32 cltv_expiry) ValidationErrorKind.transaction_format
        >> err_if (later lock_time cltv_expiry) ValidationErrorKind.transaction_format)
      ≡ ok tt
    → (n : ℕ) × (cltv_expiry ≡ ℤ.pos n) × (n < u32_mod) × (lock_time ≤ n)
cltv_checked lock_time (ℤ.pos n) h =
    let (h1, h2) = >>-eq-ok _ _ h in
    let e1 = err_if-ok (leb u32_mod n) _ h1 in
    let e2 = err_if-ok (ltb n lock_time) _ h2 in (n, refl, ground (arith, e1), ground (arith, e2))
cltv_checked lock_time (ℤ.negsuc n) h = cc

if_ok-inv {ℓ κ} :
    {A : Type ℓ} {B : Type κ} (vals : Outcome A) (handle : A → Outcome B) (rest : Outcome B) {b : B}
    → if_ok vals handle rest ≡ ok b
    → ((a : A) × (vals ≡ ok a) × (handle a ≡ ok b)) ⊎ (rest ≡ ok b)
if_ok-inv (ok a) handle rest h = inl (a, refl, h)
if_ok-inv (err kind) handle rest h = inr h
if_ok-inv panic handle rest h = cc

module _ (classify : ℕ → Option ℤ) (read_scriptint : List ℕ → Option ℤ) where
  -- The lock time is at most the expiry of a received HTLC, or two past the height.
  abbrev pub InTime : ChannelSetup → ChainState → Sweep → Script → Type 0
  InTime setup cstate tx redeemscript =
      ((hash : List ℕ) × (n : ℕ) × (parse_received_htlc_script classify read_scriptint redeemscript
            (is_anchors setup)
          ≡ ok (hash, ℤ.pos n))
        × (n < u32_mod)
        × (tx.lock_time ≤ n))
      ⊎ ((hash : List ℕ) × (parse_offered_htlc_script classify read_scriptint redeemscript
              (is_anchors setup)
            ≡ ok hash)
          × (tx.lock_time ≤ cstate.current_height + 2))

  module _ (p : SimplePolicy) (can_spend : List ℕ → ℕ → Option Bool)
      (allowlist_contains : ℕ → List ℕ → Bool) where
    check_htlc_locktime-InTime :
        (setup : ChannelSetup) (cstate : ChainState) (tx : Sweep) (redeemscript : Script)
        → cstate.current_height + 2 < u32_mod
        → check_htlc_locktime p can_spend allowlist_contains classify read_scriptint setup cstate tx
            redeemscript
          ≡ ok tt
        → InTime setup cstate tx redeemscript
    unfolding check_htlc_locktime
    check_htlc_locktime-InTime setup cstate tx redeemscript small h =
        let received =
          parse_received_htlc_script classify read_scriptint redeemscript (is_anchors setup) in
        let offered =
          parse_offered_htlc_script classify read_scriptint redeemscript (is_anchors setup) in
        elim (if_ok-inv received _ _ h) [
          | inl (vals, is, checked) ↦
              let (n, expiry, range, late) = cltv_checked tx.lock_time vals.1 checked in
              inl (vals.0, n, is ∙ ap (λ e. ok (vals.0, e)) expiry, range, late)
          | inr rest ↦ elim (if_ok-inv offered _ _ rest) [
            | inl (hash, is, checked) ↦ inr (hash, is, check_locktime-ok cstate tx checked small)
            | inr unknown ↦ cc
          ]
        ]

    -- The sweep of an HTLC of a counterparty's commitment that passes under a policy that enforces
    -- the tag of the destinations, at a height at least two below the largest 32-bit number, has
    -- version 2; each of its outputs pays to a script that the wallet can spend or has in its
    -- allowlist; its first input has one of the sequences of the channel's kind. Its redeem script
    -- is either that of a received HTLC, with a 32-bit expiry that its lock time does not exceed,
    -- or that of an offered HTLC, and its lock time is then at most two past the height.
    pub validate_counterparty_htlc_sweep-ok :
        (setup : ChannelSetup) (cstate : ChainState) (tx : Sweep) (redeemscript : Script)
        (path : List ℕ)
        → Enforces p.filter "policy-sweep-destination-allowlisted"
        → cstate.current_height + 2 < u32_mod
        → validate_counterparty_htlc_sweep p can_spend allowlist_contains classify read_scriptint
            setup cstate tx redeemscript path
          ≡ ok tt
        → (tx.version ≡ 2)
          × All
              (λ (script : ℕ).
                (can_spend path script ≡ some true) ⊎ (allowlist_contains script path ≡ true))
              tx.scripts
          × ((seq : ℕ) × (get_elem? tx.sequences 0 ≡ some seq)
              × Memᴰ seq (if is_anchors setup then anchor_seqs else non_anchor_seqs))
          × InTime setup cstate tx redeemscript
    unfolding validate_counterparty_htlc_sweep validate_sweep
    validate_counterparty_htlc_sweep-ok setup cstate tx redeemscript path e small h =
        let (h1, r1) = >>-eq-ok (validate_sweep p can_spend allowlist_contains tx path) _ h in
        let (h2, h3) = >>-eq-ok _ _ r1 in
        let (v, rest) = >>-eq-ok _ _ h1 in
        let version = err_if-ok (not (tx.version == 2)) _ v in
        (
          ground (arith, version),
          check_destinations-Ours p can_spend allowlist_contains e path tx.scripts rest,
          check_sequence-ok tx (if is_anchors setup then anchor_seqs else non_anchor_seqs) h3,
          check_htlc_locktime-InTime setup cstate tx redeemscript small h2,
        )
