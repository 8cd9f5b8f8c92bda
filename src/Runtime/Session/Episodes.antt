-- ===== src/Runtime/Session/Episodes.antt =====
-- The start of an episode: `episode_begin` of crates/lictor-runtime/src/session.rs, with
-- `fuse_inputs` of episode.rs.
use lictor.Prelude.{
  Bool, false, not, none, some, [], ◌∷◌, if◌then◌else◌, option, lookup, extend, same_text,
}
use lictor.Float.{Float}
use lictor.Core.State.{EpisodeInit}
use lictor.Fuse.Runtime
use lictor.Receipt.Tick.{zero_hash}
use lictor.Receipt.Body.{Texts}
use lictor.Runtime.Wire.{EpisodeBeginReq, Code, Complaint, Response}
use lictor.Runtime.Staging
use lictor.Runtime.Staging.{nan_or}
use lictor.Runtime.Session.{Session, SessionConfig, Host, Episode}
use lictor.Runtime.Session.Records.{budget_binding}
use lictor.Runtime.Session.Tick.{error_response}
use lictor.Runtime.Session.Greeting.{fail, is_some}

-- The entries that the fuse computes itself, written over the host's.
unfoldable pub fuse_inputs : {F : Type 0} → SessionConfig F → Texts
fuse_inputs cfg =
    ("lictor:bin", cfg.lictor_sha256)
    ∷ ("lictor:envelope", cfg.envelope_toml_sha)
    ∷ option cfg.calibration [] (λ c. ("lictor:calibration", c.file_sha256) ∷ [])

abbrev pub init_of : EpisodeBeginReq → EpisodeInit
init_of b = record {
  episode_index = b.run.episode_index;
  seed = b.run.seed;
  delay_steps = b.budget.delay_steps;
  exec = b.budget.exec_mode;
}

module _ {F H : Type 0} where
  -- The policy's weights are not those that the calibration was made for.
  abbrev pub weights_differ : Session F H → EpisodeBeginReq → Bool
  weights_differ s b =
      option s.policy_digest false
        λ pd. not (same_text (option (lookup b.binding.policy "weights_sha256") "" (λ w. w)) pd)

module _ {F H : Type 0} ⦃fl : Float F⦄ where
  unfoldable pub new_episode : Host F H → Session F H → EpisodeBeginReq → Episode F
  unfolding budget_binding fuse_inputs
  new_episode host s b = record {
    run = record {
      run_id = b.run.run_id;
      arm_id = b.run.arm_id;
      episode_index = b.run.episode_index;
      seed = b.run.seed;
      seed_pool = b.run.seed_pool;
      init_state_digest = b.run.init_state_digest;
      env = b.binding.env;
      policy = b.binding.policy;
      host = b.binding.host;
    };
    budget = budget_binding s b.budget;
    fault_injection =
        option b.fault_injection none
          λ f. some (record { kind = f.kind; params = f.params; stream_seed = f.stream_seed });
    inputs = extend b.inputs (fuse_inputs s.cfg);
    paths = host.episode_paths b.run.run_id b.run.arm_id b.run.episode_index;
    verdict_head = zero_hash;
    timing_head = zero_hash;
    ticks = [];
    timing = [];
    pending_timing = none;
    handoffs = [];
    pending_handoff = none;
  }

  unfoldable pub episode_begin : Host F H → Session F H → EpisodeBeginReq → Session F H × Response F
  unfolding fail new_episode Runtime.reset Staging.new
  episode_begin host s b =
      if is_some s.ep
      then fail s b.id Code.state Complaint.episode_is_open
      else if weights_differ s b
      then (s, error_response b.id Code.envelope Complaint.weights_differ)
      else let rt = Runtime.reset s.fuse_rt (init_of b) in
        (
          record s {
            fuse_rt = rt;
            staging = Staging.new;
            hist = host.hist_new;
            faulted = false;
            phantom = false;
            ep = some (new_episode host s b);
          },
          Response.episode_ok b.id rt.state rt.seq,
        )
