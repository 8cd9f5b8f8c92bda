-- ===== src/Tests/Receipts.antt =====
-- Chains of events and acknowledgements at concrete inputs.
use Prim.Native.String.{String}
use lictor.Prelude.{◌≡◌, refl, ◌↔◌, true, none, some, List, [], ◌∷◌, ok}
use lictor.Float.Sample.{Sample, sample_float}
use lictor.Core.State.{FuseMode, AckDecision, held}
use lictor.Fuse.Fsm.{next}
use lictor.Fuse.Guard.{guard}
use lictor.Fuse.Decide.{decide, fault_tick}
use lictor.Receipt.Tick.{
  TickEvent, TimingEvent, zero_hash, tick_event, tick_links, timing_event, timing_links, walk,
  walk_from, tick_recompute_hash, timing_recompute_hash, verify_tick_chain,
}
use lictor.Receipt.Tick.Chain.{Reports, walk-Reports}
use lictor.Receipt.Tick.Tamper.{verify_tick_chain_same}
use lictor.Receipt.Handoff.{AckToken, verify_ack, handoff_schema}
use lictor.Receipt.Handoff.Accepted.{Genuine, verified, verify_ack-Genuine}
use lictor.Tests.Setup.{config, fuse, first_tick}

abbrev digest_by_prev : TimingEvent → String
digest_by_prev e = String.◌∷◌ "x" e.prev

-- Two timings, the second with the number of a third.
abbrev first_timing : TimingEvent
first_timing = timing_event digest_by_prev zero_hash 0 1180 41000

abbrev skipping : List TimingEvent
skipping = first_timing ∷ timing_event digest_by_prev first_timing.hash 2 1200 39000 ∷ []

walk-Reports_example :
    Reports
      (timing_links digest_by_prev)
      skipping
      zero_hash
      (walk (timing_links digest_by_prev) skipping zero_hash)
walk-Reports_example = walk-Reports (timing_links digest_by_prev) skipping zero_hash

-- The walk stops at the number that is missing.
skipping_breaks : (walk (timing_links digest_by_prev) skipping zero_hash).break_at ≡ some 1
unfolding walk walk_from timing_links timing_event timing_recompute_hash
skipping_breaks = refl

abbrev pub digest_of_tick : TickEvent Sample → String
digest_of_tick e = String.◌∷◌ "t" e.prev

abbrev pub first_event : TickEvent Sample
first_event =
    tick_event digest_of_tick zero_hash
      (decide (config FuseMode.enforce) (fuse held) (first_tick [] none)).1

pub first_verifies : (verify_tick_chain digest_of_tick (first_event ∷ []) zero_hash).ok ≡ true
unfolding verify_tick_chain walk walk_from tick_links tick_event tick_recompute_hash decide guard
    fault_tick next
first_verifies = refl

verify_tick_chain_same_example : (first_event ∷ []) ≡ (first_event ∷ [])
verify_tick_chain_same_example =
    verify_tick_chain_same digest_of_tick (first_event ∷ []) (first_event ∷ []) zero_hash zero_hash
      refl ((λ same. refl), tt) first_verifies first_verifies refl

abbrev token : AckToken
token = record {
  schema = handoff_schema;
  handoff_digest = "d";
  decision = AckDecision.resume;
  operator = "bob";
  nonce = 5;
  note = "go on";
  sig = "s";
}

verify_ack-Genuine_example :
    (verify_ack (λ key sig core. true) token ("ann" ∷ "bob" ∷ []) (some "d") 7 (9 ∷ 4 ∷ [])
      ≡ ok (verified token 1 7))
    ↔ (Genuine (λ key sig core. true) token ("ann" ∷ "bob" ∷ []) (some "d") (9 ∷ 4 ∷ []) 1
        × (verified token 1 7 ≡ verified token 1 7))
verify_ack-Genuine_example =
    verify_ack-Genuine (λ key sig core. true) token ("ann" ∷ "bob" ∷ []) (some "d") 7 (9 ∷ 4 ∷ [])
      (verified token 1 7)
