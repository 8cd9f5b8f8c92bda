-- ===== src/Receipt/Handoff.antt =====
-- The handoff to an operator and the acknowledgement: crates/lictor-receipt/src/handoff.rs. The
-- signature check and the digest of a record are parameters; the files that keep the nonces are not
-- modelled.
pub mod Accepted
use Prim.Native.String.{String}
use lictor.Prelude.{
  ℕ, Bool, not, Option, none, some, List, ltb, leb, get_or, same_text, text_length, Result, ok, err,
  ◌>>=◌, ◌>>◌, reject_if, or_err,
}
use lictor.Core.State.{AckDecision, VerifiedAck}
use lictor.Core.Reason.{ReasonCode}
use lictor.Core.Names.{position_from}

abbrev pub max_note_chars : ℕ
max_note_chars = 200

abbrev pub handoff_schema : String
handoff_schema = "lictor-handoff/v1"

pub record AckToken : Type 0 where
  pub schema : String
  pub handoff_digest : String
  pub decision : AckDecision
  pub operator : String
  pub nonce : ℕ
  pub note : String
  pub sig : String

pub record HandoffRecord (F : Type 0) : Type 0 where
  pub schema : String
  pub run_id : String
  pub arm_id : String
  pub episode_index : ℕ
  pub seq : ℕ
  pub tick : ℕ
  pub reason : ReasonCode
  pub reason_text : String
  pub reasons : List String
  pub trips : ℕ
  pub fired : ℕ
  pub window_hits : ℕ
  pub top_z : List (String × F)
  pub chain_at : String
  pub envelope_digest : String
  pub calibration_digest : Option String
  pub digest : String
  pub ack : Option AckToken
  pub resolved_tick : Option ℕ
  pub outcome : String

-- The fields that a signature covers.
pub record AckCore : Type 0 where
  pub schema : String
  pub handoff_digest : String
  pub decision : AckDecision
  pub operator : String
  pub nonce : ℕ
  pub note : String

unfoldable pub ack_core : AckToken → AckCore
ack_core t = record {
  schema = t.schema;
  handoff_digest = t.handoff_digest;
  decision = t.decision;
  operator = t.operator;
  nonce = t.nonce;
  note = t.note;
}

pub data AckError : Type 0 where
  unknown_operator bad_signature wrong_handoff nonce_replay no_pending_handoff too_long_note :
      AckError

module _ {F : Type 0} (digest_of : HandoffRecord F → String) where
  unfoldable pub compute_digest : HandoffRecord F → String
  compute_digest h =
      digest_of (record h { digest = ""; ack = none; resolved_tick = none; outcome = "" })

  unfoldable pub with_digest : HandoffRecord F → HandoffRecord F
  with_digest h = record h { digest = compute_digest h }

-- Does the signature of the fields verify under the operator's key?
abbrev pub SignatureCheck : Type 0
SignatureCheck = String → String → AckCore → Bool

unfoldable pub verify_ack :
    SignatureCheck
    → AckToken
    → List String
    → Option String
    → ℕ
    → List ℕ
    → Result AckError VerifiedAck
verify_ack verifies t operators pending_digest pending_seq last_nonce = do
  slot ← or_err (position_from 0 operators t.operator) AckError.unknown_operator
  reject_if (ltb max_note_chars (text_length t.note)) AckError.too_long_note
  reject_if (not (same_text t.schema handoff_schema)) AckError.bad_signature
  reject_if (not (verifies t.operator t.sig (ack_core t))) AckError.bad_signature
  pending ← or_err pending_digest AckError.no_pending_handoff
  reject_if (not (same_text t.handoff_digest pending)) AckError.wrong_handoff
  reject_if (leb t.nonce (get_or last_nonce slot 0)) AckError.nonce_replay
  reject_if (ltb 255 slot) AckError.unknown_operator
  ok (record {
    decision = t.decision;
    operator_slot = slot;
    nonce = t.nonce;
    handoff_seq = pending_seq;
  })
