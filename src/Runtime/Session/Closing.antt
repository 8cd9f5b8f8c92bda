-- ===== src/Runtime/Session/Closing.antt =====
-- The end of an episode: `episode_end` of crates/lictor-runtime/src/session.rs.
use Prim.Native.String.{String}
use lictor.Prelude.{
  ℕ, ◌-◌, false, Option, none, some, List, [], ◌∷◌, length, drop, if◌then◌else◌, option, same_text,
  ◌%◌, ◌^◌,
}
use lictor.Float.{Float}
use lictor.Core.Scores.{nfeat}
use lictor.Fuse.Decide.{finish}
use lictor.Receipt.Tick.{zero_hash, TickEvent}
use lictor.Receipt.Body.{ReceiptBody, receipt_schema, canonical_id, counts_of, evaluate_fuse}
use lictor.Runtime.Wire.{EpisodeEndReq, Code, Complaint, Response}
use lictor.Runtime.Staging.{nan_or}
use lictor.Runtime.Session.{Session, Host, Reading, Episode}
use lictor.Runtime.Session.Tick.{error_response, fold_episode}
use lictor.Runtime.Session.Greeting.{fail}

-- The events that the receipt embeds.
unfoldable pub embedded_ticks : {F : Type 0} → String → List (TickEvent F) → List (TickEvent F)
embedded_ticks policy ticks =
    if same_text policy "all"
    then ticks
    else if same_text policy "none"
    then []
    else drop (length ticks - 32) ticks

-- The receipt's message, once the body is signed and the files, if any, are written.
abbrev receipt_response :
    {F : Type 0}
    → EpisodeEndReq F
    → ReceiptBody F
    → String
    → String × String
    → ℕ × String
    → Response F
receipt_response e body digest (receipt_path, ticks_path) (ledger_seq, ledger_head) =
    Response.episode_receipt (record {
      id = e.id;
      receipt_path = receipt_path;
      ticks_path = ticks_path;
      body_digest = digest;
      verdict_chain_head = body.verdict_chain_head;
      timing_chain_head = body.timing_chain_head;
      fuse_ok = body.fuse_ok;
      fuse_notes = body.fuse_notes;
      counts = body.counts;
      ledger_seq = ledger_seq;
      ledger_head = ledger_head;
    })

module _ {F H : Type 0} ⦃fl : Float F⦄ where
  -- The body of the receipt, of an episode whose timing is folded.
  unfoldable pub receipt_body :
      Host F H → Reading → Session F H → Episode F → EpisodeEndReq F → Option String → ReceiptBody F
  unfolding finish counts_of evaluate_fuse embedded_ticks
  receipt_body host now s ep e ledger_prev =
      let tally = finish s.fuse_rt in
      let counts = counts_of tally in
      let (fuse_ok, notes) = evaluate_fuse ep.budget counts s.calibration_digest s.ephemeral in
      record {
        schema = receipt_schema;
        canonical = canonical_id;
        created_epoch = now.epoch;
        lictor_git = s.cfg.lictor_git;
        lictor_sha256 = s.cfg.lictor_sha256;
        client = s.client;
        run = ep.run;
        budget = ep.budget;
        fault_injection = ep.fault_injection;
        envelope = s.cfg.envelope;
        envelope_digest = s.envelope_digest;
        calibration_digest = s.calibration_digest;
        inputs = ep.inputs;
        counts = counts;
        outcome = record {
          steps = e.outcome.steps;
          success = e.outcome.success;
          terminated = e.outcome.terminated;
          truncated = e.outcome.truncated;
          max_coverage = nan_or e.outcome.max_coverage;
          final_coverage = nan_or e.outcome.final_coverage;
          reward_sum = nan_or e.outcome.reward_sum;
          ended_by = e.outcome.ended_by;
          max_s = tally.max_s;
          max_z = record { data_of = tally.max_z; shape = nfeat ∷ [] };
        };
        handoffs = ep.handoffs;
        verdict_events = length ep.ticks % 2 ^ 32;
        verdict_chain_head = ep.verdict_head;
        timing_events = length ep.timing % 2 ^ 32;
        timing_chain_head = ep.timing_head;
        latency = host.hist_summary s.hist s.cfg.latency_label;
        ticks_policy = s.cfg.ticks_policy;
        ticks = embedded_ticks s.cfg.ticks_policy ep.ticks;
        fuse_ok = fuse_ok;
        fuse_notes = notes;
        ledger_prev = ledger_prev;
      }

  -- The answer for a body: an error when it cannot be signed.
  abbrev signed : Host F H → EpisodeEndReq F → ReceiptBody F → (String → Response F) → Response F
  signed host e body done =
      option (host.sign_body body) (error_response e.id Code.internal Complaint.sign_failed) done

  -- Signing and writing: the first failure is the answer.
  unfoldable pub write_receipt :
      Host F H → Reading → Session F H → Episode F → EpisodeEndReq F → Response F
  unfolding receipt_body
  write_receipt host now s ep e = elim ep.paths [
    | none ↦
        let body = receipt_body host now s ep e none in
        signed host e body (λ digest. receipt_response e body digest ("", "") (0, zero_hash))
    | some paths ↦
        option now.ledger (error_response e.id Code.internal Complaint.ledger_failed) λ ledger_prev.
          let body = receipt_body host now s ep e ledger_prev in
          signed host e body λ digest.
            option now.written (error_response e.id Code.internal Complaint.write_failed)
              λ entry. receipt_response e body digest paths entry
  ]

  -- The episode ends whatever comes of its receipt.
  unfoldable pub episode_end :
      Host F H → Reading → Session F H → EpisodeEndReq F → Session F H × Response F
  unfolding fail fold_episode write_receipt
  episode_end host now s e =
      option s.ep (fail s e.id Code.state Complaint.end_without_episode) λ ep.
        let closed : Session F H = record s { ep = none; faulted = false } in
        (closed, write_receipt host now closed (fold_episode host ep) e)
