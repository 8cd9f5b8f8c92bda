-- ===== src/Receipt/Tick.antt =====
-- The events of the verdict chain and of the timing chain, and the walk that verifies a chain:
-- crates/lictor-receipt/src/tick.rs. The digest of an event, SHA-256 of its canonical JSON with an
-- empty `hash`, is a parameter; an `F64Hex` is the number that it wraps.
pub mod Chain
pub mod Tamper
pub mod Built
pub mod Tails
use Prim.Native.String.{String}
use lictor.Prelude.{
  ℕ, zero, suc, ◌+◌, ◌%◌, ◌^◌, Bool, true, false, ◌&&◌, not, Option, none, some, List, [], ◌∷◌,
  length, take, min, if◌then◌else◌, ◌==◌, same_text, option,
}
use lictor.Core.State.{FuseState}
use lictor.Core.Reason.{ReasonCode}
use lictor.Core.Scores.{nfeat}
use lictor.Core.Verdict.{Status, ActionSource, SafetyVerdict}

abbrev pub zero_hash : String
zero_hash = "0000000000000000000000000000000000000000000000000000000000000000"

-- Numbers with their shape (crates/lictor-canon/src/f64enc.rs).
pub record F64Array (F : Type 0) : Type 0 where
  pub data_of : List F
  pub shape : List ℕ

pub record TickEvent (F : Type 0) : Type 0 where
  pub seq : ℕ
  pub t : ℕ
  pub state : FuseState
  pub prev_state : FuseState
  pub status : Status
  pub trips : ℕ
  pub action_src : ActionSource
  pub substituted : Bool
  pub clamped_dims : ℕ
  pub action : F64Array F
  pub f : F64Array F
  pub z : F64Array F
  pub valid : ℕ
  pub fired : ℕ
  pub s : F
  pub tau : F
  pub window_hits : ℕ
  pub brake_margin : F
  pub reason : ReasonCode
  pub handoff_seq : Option ℕ
  pub violation_reached_env : Bool
  pub prev : String
  pub hash : String

pub record TimingEvent : Type 0 where
  pub seq : ℕ
  pub decide_ns : ℕ
  pub io_ns : ℕ
  pub prev : String
  pub hash : String

pub record ChainReport : Type 0 where
  pub ok : Bool
  pub break_at : Option ℕ
  pub head : String
  pub n : ℕ

-- What `walk` asks of an event.
pub record Links (T : Type 0) : Type 0 where
  pub seq_of : T → ℕ
  pub prev_of : T → String
  pub hash_of : T → String
  pub recompute : T → String

abbrev is_none : Option ℕ → Bool
is_none none = true
is_none (some b) = false

module _ {T : Type 0} where
  abbrev pub is_good : Links T → ℕ → String → T → Bool
  is_good l expected prev e =
      (l.seq_of e == expected)
      && same_text (l.prev_of e) prev
      && same_text (l.recompute e) (l.hash_of e)

  abbrev pub break_from : Links T → ℕ → String → T → Option ℕ → Option ℕ
  break_from l expected prev e (some b) = some b
  break_from l expected prev e none =
      if is_good l expected prev e
      then none
      else some (if l.seq_of e == expected then l.seq_of e else expected)

  -- The loop from event i on.
  unfoldable pub walk_from : Links T → ℕ → ℕ → List T → String → Option ℕ → String × Option ℕ
  walk_from l first i [] prev break_at = (prev, break_at)
  walk_from l first i (e ∷ es) prev break_at =
      let expected = (first + i) % 2 ^ 32 in
      walk_from l first (suc i) es (l.hash_of e) (break_from l expected prev e break_at)

  abbrev pub first_seq : Links T → List T → ℕ
  first_seq l [] = 0
  first_seq l (e ∷ es) = l.seq_of e

  unfoldable pub walk : Links T → List T → String → ChainReport
  walk l events genesis_prev =
      let (prev, break_at) = walk_from l (first_seq l events) 0 events genesis_prev none in
      record { ok = is_none break_at; break_at = break_at; head = prev; n = length events % 2 ^ 32 }

module _ {F : Type 0} (digest_of : TickEvent F → String) where
  unfoldable pub tick_recompute_hash : TickEvent F → String
  tick_recompute_hash e = digest_of (record e { hash = "" })

  unfoldable pub tick_event : String → SafetyVerdict F → TickEvent F
  tick_event prev v =
      let dim = min v.action_dim (length v.action) in
      let e : TickEvent F = record {
        seq = v.seq;
        t = v.t;
        state = v.state;
        prev_state = v.prev_state;
        status = v.status;
        trips = v.trips;
        action_src = v.action_src;
        substituted = v.substituted;
        clamped_dims = v.clamped_dims;
        action = record { data_of = take dim v.action; shape = dim ∷ [] };
        f = record { data_of = v.scores.f; shape = nfeat ∷ [] };
        z = record { data_of = v.scores.z; shape = nfeat ∷ [] };
        valid = v.scores.valid;
        fired = v.scores.fired;
        s = v.scores.s;
        tau = v.tau;
        window_hits = v.window_hits;
        brake_margin = v.brake_margin;
        reason = v.reason;
        handoff_seq = v.handoff_seq;
        violation_reached_env = v.violation_reached_env;
        prev = prev;
        hash = "";
      } in
      record e { hash = digest_of e }

  unfoldable pub tick_links : Links (TickEvent F)
  tick_links = record {
    seq_of = λ e. e.seq;
    prev_of = λ e. e.prev;
    hash_of = λ e. e.hash;
    recompute = tick_recompute_hash;
  }

  unfoldable pub verify_tick_chain : List (TickEvent F) → String → ChainReport
  verify_tick_chain events genesis_prev = walk tick_links events genesis_prev

module _ (digest_of : TimingEvent → String) where
  unfoldable pub timing_recompute_hash : TimingEvent → String
  timing_recompute_hash e = digest_of (record e { hash = "" })

  unfoldable pub timing_event : String → ℕ → ℕ → ℕ → TimingEvent
  timing_event prev seq decide_ns io_ns =
      let e : TimingEvent = record {
        seq = seq;
        decide_ns = decide_ns;
        io_ns = io_ns;
        prev = prev;
        hash = "";
      } in
      record e { hash = digest_of e }

  unfoldable pub timing_links : Links TimingEvent
  timing_links = record {
    seq_of = λ e. e.seq;
    prev_of = λ e. e.prev;
    hash_of = λ e. e.hash;
    recompute = timing_recompute_hash;
  }

  unfoldable pub verify_timing_chain : List TimingEvent → ChainReport
  verify_timing_chain events = walk timing_links events zero_hash
