-- ===== src/Monitor/Depths.antt =====
-- The depths that the validator reads grow by one with each block (vls-core/src/monitor.rs).
use vls.Prelude.{
  ℕ, ◌+◌, ◌≤◌, ◌<◌, ◌≡◌, not, ◌&&◌, ◌==◌, if◌then◌else◌, Option, none, some, is_some, arith,
  u32_mod, add_u32, ok,
}
use vls.Monitor.{BlockDecodeState, State}
use vls.Monitor.Blocks.{Watches, is_confirmed, on_add_block_end, as_chain_state}
use vls.Monitor.Undo.{any, is_spent, is_closing}
use vls.Monitor.RoundTrip.{on_add_block_end-done}

-- No event is recorded past the tip.
abbrev pub AtMost : ℕ → Option ℕ → Type 0
AtMost height none = Unit
AtMost height (some h) = h ≤ height

pub record Past (s : State) : Type 0 where
  pub funding : AtMost s.height s.funding_height
  pub double_spent : AtMost s.height s.funding_double_spent_height
  pub closing : AtMost s.height s.closing_height

-- The depth of what has happened grows.
abbrev pub grown : ℕ → ℕ
grown depth = if depth == 0 then 0 else depth + 1

-- When a block was added whose changes are those of `d`, to a state in which no event is recorded
-- past the tip and whose height is at least two below the largest 32-bit number, the height and the
-- depth of each event that was recorded before are greater by one, the depth of each event that the
-- block brings is one, and no event is recorded past the new tip; the block brings a double spend if
-- a funding input is spent in it, no funding transaction is confirmed in it, and there was no double
-- spend before.
pub on_add_block_end-as_chain_state :
    (s : State) (d : BlockDecodeState) (block_hash : ℕ) (r : State × Watches)
    → s.height + 2 < u32_mod
    → Past s
    → s.decode_state ≡ some d
    → on_add_block_end s block_hash ≡ ok r
    → let c = as_chain_state s in
      let c' = as_chain_state r.0 in
      (c'.current_height ≡ c.current_height + 1)
      × (c'.funding_depth ≡ (if any is_confirmed d.changes then 1 else grown c.funding_depth))
      × (c'.funding_double_spent_depth ≡ (
          if (any is_spent d.changes && not (any is_confirmed d.changes))
            && not (is_some s.funding_double_spent_height)
          then 1
          else grown c.funding_double_spent_depth))
      × (c'.closing_depth ≡ (if any is_closing d.changes then 1 else grown c.closing_depth))
      × Past r.0
unfolding as_chain_state add_u32
on_add_block_end-as_chain_state s d block_hash r small past is h =
    let (right, after, seen) = on_add_block_end-done s d block_hash r is h in
    (
      ground (arith, after),
      ground (arith, after, past.funding),
      ground (arith, after, past.double_spent),
      ground (arith, after, past.closing),
      record {
        funding = ground (arith, after, past.funding);
        double_spent = ground (arith, after, past.double_spent);
        closing = ground (arith, after, past.closing);
      },
    )
