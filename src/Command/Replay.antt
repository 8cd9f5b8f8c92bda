-- ===== src/Command/Replay.antt =====
-- `lictor replay`: crates/lictor-cli/src/cmd/replay.rs. The trace is the list of its requests; what a
-- pass asks of the world, a generated key and the clock, is a `World`. The printed lines are left out.
pub mod Deterministic
use Prim.Native.String.{String}
use lictor.Prelude.{
  ℕ, zero, suc, ◌+◌, ◌-◌, ◌%◌, ◌^◌, Bool, true, false, not, ◌&&◌, Option, none, some, List, [], ◌∷◌,
  ◌++◌, length, option, ltb, if◌then◌else◌, ◌==◌, Result, ok, err, ◌>>=◌, same_text, same_texts,
  lookup, insert, wrapping_suc_u32, max,
}
use lictor.Float.{Float}
use lictor.Core.State.{FuseMode}
use lictor.Core.Verdict.{Status}
use lictor.Core.Envelope.{SafetyEnvelope}
use lictor.Runtime.Wire.{Request, Response, ErrorMsg}
use lictor.Runtime.Session.{
  CalibrationLoaded, SessionConfig, Host, Reading, Session, StartError, start,
}
use lictor.Runtime.Session.Handle.{handle}

-- The digest of the envelope's text and the label of the host stand for what they are computed from.
pub record ReplayInput (F : Type 0) : Type 0 where
  pub lines : List (Request F)
  pub envelope : SafetyEnvelope F
  pub toml_sha : String
  pub calibration : Option (CalibrationLoaded F)
  pub mode : FuseMode
  pub git : String
  pub sha256 : String
  pub latency_label : String

-- A public key, and for each line the duration of its decision and the time of the day.
pub record World : Type 0 where
  pub pubkey : String
  pub clock : ℕ → ℕ × ℕ

pub record Divergence : Type 0 where
  pub repeat : ℕ
  pub tick : ℕ
  pub seq : ℕ
  pub first : String
  pub other : String

-- A verdict of a pass: its tick, its number and the value of the chain.
abbrev pub Link : Type 0
Link = ℕ × ℕ × String

pub record Pass : Type 0 where
  pub chains : List Link
  pub heads : List String
  pub states : List (String × ℕ)
  pub errors : ℕ
  pub first_error : Option ErrorMsg

pub record ReplayOutcome : Type 0 where
  pub ticks : ℕ
  pub repeats : ℕ
  pub identical : ℕ
  pub verdict_chain : String
  pub heads : List String
  pub states : List (String × ℕ)
  pub errors : ℕ
  pub first_error : Option ErrorMsg
  pub divergence : Option Divergence
  pub deterministic : Bool
  pub expect : Option String
  pub expect_ok : Option Bool

unfoldable state_name : Status → String
state_name Status.nominal = "nominal"
state_name Status.watching = "watching"
state_name Status.clamped = "clamped"
state_name Status.braking = "braking"
state_name Status.held = "held"
state_name Status.escalated = "escalated"
state_name Status.fault = "fault"
state_name Status.terminated = "terminated"

abbrev pub new_pass : Pass
new_pass = record {
  chains = [];
  heads = [];
  states =
      ("nominal", 0)
      ∷ (("watching", 0)
          ∷ (("clamped", 0)
              ∷ (("braking", 0)
                  ∷ (("held", 0)
                      ∷ (("escalated", 0) ∷ (("fault", 0) ∷ (("terminated", 0) ∷ [])))))));
  errors = 0;
  first_error = none;
}

-- One more verdict with the status.
abbrev count_state : List (String × ℕ) → Status → List (String × ℕ)
count_state states status =
    let name = state_name status in
    insert states name (wrapping_suc_u32 (option (lookup states name) 0 (λ n. n)))

-- What a pass keeps of an answer.
unfoldable pub note_response : {F : Type 0} → Pass → Response F → Pass
unfolding state_name
note_response p (Response.verdict v) = record p {
  states = count_state p.states v.status;
  chains = p.chains ++ ((v.t, v.seq, v.chain) ∷ []);
}
note_response p (Response.episode_receipt m) = record p {
  heads = p.heads ++ (m.verdict_chain_head ∷ []);
}
note_response p (Response.error e) = record p {
  errors = wrapping_suc_u32 p.errors;
  first_error = some (option p.first_error e (λ f. f));
}
note_response p (Response.hello_ok m) = p
note_response p (Response.episode_ok id state seq) = p
note_response p (Response.bye_ok id) = p

-- A session without an output directory writes nothing.
abbrev pub reading : World → ℕ → Reading
reading w i =
    let (decide_ns, epoch) = w.clock i in
    record { decide_ns = decide_ns; epoch = epoch; ledger = some none; written = some (0, "") }

abbrev pub replay_config : {F : Type 0} → ReplayInput F → SessionConfig F
replay_config inp = record {
  envelope = inp.envelope;
  envelope_toml_sha = inp.toml_sha;
  calibration = inp.calibration;
  mode = inp.mode;
  tier0_override = none;
  tier1 = true;
  ticks_policy = "tail32";
  lictor_git = inp.git;
  lictor_sha256 = inp.sha256;
  latency_label = inp.latency_label;
}

module _ {F H : Type 0} ⦃fl : Float F⦄ where
  -- No key and no output directory.
  abbrev pub replay_host : Host F H → Host F H
  replay_host host = record host {
    episode_paths = λ run arm index. none;
    has_key = false;
    saved_nonces = [];
  }

  -- The lines from the i-th on.
  unfoldable pub feed : Host F H → World → ℕ → Session F H → List (Request F) → Pass → Pass
  unfolding handle note_response
  feed host w i s [] p = p
  feed host w i s (req ∷ lines) p =
      let (after, answer) = handle host (reading w i) s req in
      feed host w (i + 1) after lines (note_response p answer)

  -- A pass through a fresh session, under a key of its own.
  unfoldable pub one_pass : Host F H → ReplayInput F → World → Result StartError Pass
  unfolding start feed
  one_pass host inp w = do
    s ← start (replay_host host) (replay_config inp)
    ok (feed (replay_host host) w 0 (record s { pubkey = w.pubkey }) inp.lines new_pass)

abbrev same_link : Link → Link → Bool
same_link (t, seq, chain) (u, num, other) = (t == u) && (seq == num) && same_text chain other

abbrev pub same_links : List Link → List Link → Bool
same_links [] [] = true
same_links (a ∷ links) (b ∷ others) = same_link a b && same_links links others
same_links _ _ = false

-- The last element, if any.
abbrev pub last_of {ℓ} : {A : Type ℓ} → List A → Option A
last_of [] = none
last_of (a ∷ rest) = some (option (last_of rest) a (λ b. b))

abbrev pub head_or_empty : List String → String
head_or_empty heads = option (last_of heads) "" (λ h. h)

-- The first pair of verdicts that differ.
abbrev first_differing : List Link → List Link → Option (Link × Link)
first_differing (a ∷ links) (b ∷ others) =
    let rest = first_differing links others in if same_link a b then rest else some (a, b)
first_differing _ _ = none

-- The last verdict of the first pass that has a partner in the other.
abbrev last_paired : List Link → List Link → Option Link
last_paired (a ∷ links) (b ∷ others) = some (option (last_paired links others) a (λ c. c))
last_paired _ _ = none

-- Where the k-th pass left the first.
abbrev pub divergence_of : ℕ → Pass → Pass → Divergence
divergence_of k first p =
    let whole : Link → Divergence = λ a. record {
      repeat = k;
      tick = a.0;
      seq = a.1;
      first = head_or_empty first.heads;
      other = head_or_empty p.heads;
    } in
    option (first_differing first.chains p.chains)
      (option (last_paired first.chains p.chains) (whole (0, 0, "")) whole)
      λ pair. record {
        repeat = k;
        tick = pair.0.0;
        seq = pair.0.1;
        first = pair.0.2;
        other = pair.1.2;
      }

-- The outcome after the k-th pass.
unfoldable pub compare_pass : ℕ → Pass → ReplayOutcome → Pass → ReplayOutcome
compare_pass k first out p =
    if same_links p.chains first.chains && same_texts p.heads first.heads
    then record out { identical = wrapping_suc_u32 out.identical }
    else record out { divergence = some (option out.divergence (divergence_of k first p) (λ d. d)) }

unfoldable pub first_outcome : ℕ → Pass → ReplayOutcome
first_outcome repeat first = record {
  ticks = length first.chains % 2 ^ 32;
  repeats = repeat;
  identical = 1;
  verdict_chain =
      option (last_of first.heads) (option (last_of first.chains) "" (λ c. c.2)) (λ h. h);
  heads = first.heads;
  states = first.states;
  errors = first.errors;
  first_error = first.first_error;
  divergence = none;
  deterministic = false;
  expect = none;
  expect_ok = none;
}

module _ {F H : Type 0} ⦃fl : Float F⦄ (host : Host F H) (inp : ReplayInput F)
    (worlds : ℕ → World) where
  -- The passes from the k-th on, n of them.
  unfoldable pub compare_passes : ℕ → ℕ → Pass → ReplayOutcome → Result StartError ReplayOutcome
  unfolding one_pass compare_pass
  compare_passes k zero first out = ok out
  compare_passes k (suc n) first out = one_pass host inp (worlds k) >>= λ p.
      compare_passes (k + 1) n first (compare_pass k first out p)

  -- The first pass is the reference.
  unfoldable pub replay : ℕ → Result StartError ReplayOutcome
  unfolding one_pass compare_passes first_outcome
  replay asked = do
    let repeat = max asked 1
    first ← one_pass host inp (worlds 0)
    out ← compare_passes 1 (repeat - 1) first (first_outcome repeat first)
    ok (record out { deterministic = (out.identical == repeat) && ltb 0 out.ticks })

-- `--expect`, trimmed and in lower case.
abbrev pub expecting : (String → String) → Option String → ReplayOutcome → ReplayOutcome
expecting normal none out = out
expecting normal (some e) out = record out {
  expect_ok = some (same_text (normal e) out.verdict_chain);
  expect = some (normal e);
}

unfoldable pub exit_code : ReplayOutcome → ℕ
exit_code out = if out.deterministic && option out.expect_ok true (λ b. b) then 0 else 1
