-- ===== src/Tests/Replays.antt =====
-- A trace, replayed under other keys and clocks.
use lictor.Prelude.{
  ℕ, ◌+◌, ◌==◌, if◌then◌else◌, ◌%◌, ◌^◌, ◌≡◌, refl, none, [], ◌∷◌, ok, ltb, length, arith, ◌&&◌,
  ◌<◌, some, ap,
}
use lictor.Float.Sample.{Sample, sample_float}
use lictor.Runtime.Wire.{Request}
use lictor.Runtime.Session.{Session, Host, start, session_of}
use lictor.Runtime.Session.Bodies.{SignsAlike, SummaryFits}
use lictor.Receipt.Body.{ReceiptBody}
use lictor.Command.Replay.{
  ReplayInput, World, Pass, replay_host, replay_config, new_pass, feed, one_pass, first_outcome,
  replay,
}
use lictor.Command.Replay.Deterministic.{replay_deterministic}
use lictor.Tests.Envelopes.{served, envelope, envelope_valid, envelope_compiles}
use lictor.Tests.Sessions.{host, settings, begin_with, end_with, tick_with}

abbrev trace : ReplayInput Sample
trace = record {
  lines =
      Request.episode_begin (begin_with 1)
      ∷ (Request.tick (tick_with 2 none)
          ∷ (Request.tick (tick_with 2 none) ∷ (Request.episode_end (end_with 3) ∷ [])));
  envelope = envelope;
  toml_sha = "";
  calibration = none;
  mode = settings.mode;
  git = "";
  sha256 = "";
  latency_label = "";
}

-- Its signature refuses a number that the canonical form does not carry, as sign.rs does.
abbrev strict : Host Sample ℕ
strict = record host {
  sign_body =
      λ b. if ltb b.run.seed (2 ^ 53) && ltb b.created_epoch (2 ^ 53) then some "b" else none;
}

strict-SignsAlike : SignsAlike strict
strict-SignsAlike a b ta tb same =
    let seeds : a.run.seed ≡ b.run.seed = ap (λ (x : ReceiptBody Sample). x.run.seed) same in
    let ea = ta.epoch_fits in let eb = tb.epoch_fits in ground (arith, seeds, ea, eb)

strict-SummaryFits : SummaryFits strict
strict-SummaryFits h label = record {
  n_fits = omega arith;
  p50_fits = omega arith;
  p90_fits = omega arith;
  p99_fits = omega arith;
  p999_fits = omega arith;
  max_fits = omega arith;
}

-- The k-th pass has a key, durations and a date of its own.
abbrev world : ℕ → World
world k = record { pubkey = if k == 0 then "k" else "l"; clock = λ i. (1000 + k, k % 60) }

abbrev replayed : Session Sample ℕ
replayed = session_of (replay_host strict) (replay_config trace) served

trace_starts : start (replay_host strict) (replay_config trace) ≡ ok replayed
unfolding start
trace_starts = rw (envelope_valid, envelope_compiles) refl

abbrev first_pass : Pass
first_pass =
    feed (replay_host strict) (world 0) 0 (record replayed { pubkey = (world 0).pubkey })
      trace.lines new_pass

first_passes : one_pass strict trace (world 0) ≡ ok first_pass
unfolding one_pass
first_passes = rw trace_starts refl

world-Dated : (k i : ℕ) → ((world k).clock i).1 < 2 ^ 53
world-Dated k i = omega arith

replay_deterministic_example :
    replay strict trace world 3
    ≡ ok (record (first_outcome 3 first_pass) {
      identical = 3;
      deterministic = ltb 0 (length first_pass.chains % 2 ^ 32);
    })
replay_deterministic_example =
    replay_deterministic strict trace strict-SignsAlike strict-SummaryFits world world-Dated
      first_passes 3 (omega arith)
