-- ===== src/Runtime/Session/Bodies.antt =====
-- What the clock puts into the body of a receipt: `episode_end` of
-- crates/lictor-runtime/src/session.rs, with the signing of crates/lictor-receipt/src/sign.rs.
use Prim.Native.String.{String}
use lictor.Prelude.{◌<◌, ◌^◌, ◌≡◌, refl, inl, inr, none, Option, Option-cases, arith}
use lictor.Float.{Float}
use lictor.Receipt.Body.{LatencySummary, ReceiptBody}
use lictor.Runtime.Wire.{EpisodeEndReq}
use lictor.Runtime.Session.{Session, Host, Reading, Episode}
use lictor.Runtime.Session.Tick.{fold_episode}
use lictor.Runtime.Session.Greeting.{is_some}
use lictor.Runtime.Session.Closing.{receipt_body}
use lictor.Runtime.Session.Clock.{timeless, timeless_episode}

-- A body without its date, its durations and its place in the ledger.
abbrev pub untimed : {F : Type 0} → ReceiptBody F → ReceiptBody F
untimed b = record b {
  created_epoch = 0;
  timing_events = 0;
  timing_chain_head = "";
  latency = record {
    n = 0;
    p50_ns = 0;
    p90_ns = 0;
    p99_ns = 0;
    p999_ns = 0;
    max_ns = 0;
    label = "";
  };
  ledger_prev = none;
}

-- The numbers of the summary are integers that the canonical form carries.
pub record TimesFit (l : LatencySummary) : Type 0 where
  pub n_fits : l.n < 2 ^ 53
  pub p50_fits : l.p50_ns < 2 ^ 53
  pub p90_fits : l.p90_ns < 2 ^ 53
  pub p99_fits : l.p99_ns < 2 ^ 53
  pub p999_fits : l.p999_ns < 2 ^ 53
  pub max_fits : l.max_ns < 2 ^ 53

-- So are the date and the numbers of the timing.
pub record Timed {F : Type 0} (b : ReceiptBody F) : Type 0 where
  pub epoch_fits : b.created_epoch < 2 ^ 53
  pub events_fit : b.timing_events < 2 ^ 53
  pub latency_fits : TimesFit b.latency

module _ {F H : Type 0} (host : Host F H) where
  -- Whether a body can be signed does not depend on its date, its durations and its place in the
  -- ledger, as long as their numbers are carried by the canonical form.
  abbrev pub SignsAlike : Type 0
  SignsAlike =
      (a b : ReceiptBody F)
      → Timed a
      → Timed b
      → untimed a ≡ untimed b
      → is_some (host.sign_body a) ≡ is_some (host.sign_body b)

  -- The histogram keeps its bounds.
  abbrev pub SummaryFits : Type 0
  SummaryFits = (h : H) (label : String) → TimesFit (host.hist_summary h label)

module _ {F H : Type 0} ⦃fl : Float F⦄ (host : Host F H) where
  pub body-Timed :
      (now : Reading) (s : Session F H) (ep : Episode F) (e : EpisodeEndReq F)
      (prev : Option String)
      → SummaryFits host
      → now.epoch < 2 ^ 53
      → Timed (receipt_body host now s ep e prev)
  unfolding receipt_body
  body-Timed now s ep e prev fits small = record {
    epoch_fits = small;
    events_fit = ground arith;
    latency_fits = fits s.hist s.cfg.latency_label;
  }

  pub body-untimed :
      (now later : Reading) (s : Session F H) (ep : Episode F) (e : EpisodeEndReq F)
      (p q : Option String)
      → untimed (receipt_body host now s (fold_episode host ep) e p)
        ≡ untimed (receipt_body host later (timeless host s) (timeless_episode ep) e q)
  unfolding receipt_body fold_episode
  body-untimed now later s ep e p q = elim (Option-cases ep.pending_timing) [
    | inl h ↦ rw h refl
    | inr (t, h) ↦ rw h refl
  ]
