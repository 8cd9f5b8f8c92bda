-- ===== src/Receipt/Handoff/Accepted.antt =====
-- Which acknowledgements are accepted, and for what: `verify_ack` of
-- crates/lictor-receipt/src/handoff.rs.
use Prim.Native.String.{String}
use mathlib.Core.Path.{subst}
use lictor.Prelude.{
  ℕ, zero, suc, ◌+◌, ◌-◌, ◌≤◌, ◌<◌, ◌≡◌, refl, ap, sym, ◌∙◌, ◌↔◌, true, Option, none, some, List,
  [], ◌∷◌, length, get_or, arith, Bool-cases, inl, inr, same_text, same_text_iff, text_length, ok,
}
use lictor.Core.State.{VerifiedAck}
use lictor.Core.Names.{position_from}
use lictor.Receipt.Handoff.{
  AckToken, SignatureCheck, ack_core, verify_ack, max_note_chars, handoff_schema,
}

later-get_or :
    (n : String) (ns : List String) (k : ℕ) (s : String)
    → 0 < k
    → get_or ns (k - 1) "" ≡ s
    → get_or (n ∷ ns) k "" ≡ s
later-get_or n ns zero s h e = absurd (omega arith)
later-get_or n ns (suc k) s h e = subst (λ j. get_or ns j "" ≡ s) (omega arith) e

-- The position found, counted from i, holds the text.
pub position_from-some :
    (i : ℕ) (names : List String) (s : String) (k : ℕ)
    → position_from i names s ≡ some k
    → (i ≤ k) × (k < i + length names) × (get_or names (k - i) "" ≡ s)
unfolding position_from
position_from-some i [] s k h = absurd (ground arith)
position_from-some i (n ∷ ns) s k h = elim (Bool-cases (same_text n s)) [
  | inl e ↦ ground (arith, (same_text_iff n s).0 e)
  | inr e ↦
      let (low, high, found) = position_from-some (suc i) ns s k (ground arith) in
      (
        omega arith,
        omega arith,
        later-get_or n ns (k - i) s (omega arith)
            (subst (λ j. get_or ns j "" ≡ s) (omega arith) found),
      )
]

-- An acknowledgement by a listed operator, signed, for the pending handoff, and not used before.
pub record Genuine (verifies : SignatureCheck) (t : AckToken) (operators : List String)
    (pending : Option String) (last_nonce : List ℕ) (slot : ℕ) : Type 0 where
  pub listed : position_from 0 operators t.operator ≡ some slot
  pub short : text_length t.note ≤ max_note_chars
  pub schema : t.schema ≡ handoff_schema
  pub signed : verifies t.operator t.sig (ack_core t) ≡ true
  pub handoff : pending ≡ some t.handoff_digest
  pub unused : get_or last_nonce slot 0 < t.nonce
  pub small : slot ≤ 255

-- The acknowledgement that the state machine is handed.
abbrev pub verified : AckToken → ℕ → ℕ → VerifiedAck
verified t slot seq = record {
  decision = t.decision;
  operator_slot = slot;
  nonce = t.nonce;
  handoff_seq = seq;
}

accepted-Genuine :
    (verifies : SignatureCheck) (t : AckToken) (operators : List String) (pending : Option String)
    (seq : ℕ) (last_nonce : List ℕ) (a : VerifiedAck)
    → verify_ack verifies t operators pending seq last_nonce ≡ ok a
    → Genuine verifies t operators pending last_nonce a.operator_slot
      × (a ≡ verified t a.operator_slot seq)
unfolding verify_ack
accepted-Genuine verifies t operators none seq last_nonce a h = absurd (ground arith)
accepted-Genuine verifies t operators (some digest) seq last_nonce a h = (
  record {
    listed = ground arith;
    short = ground arith;
    schema = (same_text_iff t.schema handoff_schema).0 (ground arith);
    signed = ground arith;
    handoff = ap some (sym ((same_text_iff t.handoff_digest digest).0 (ground arith)));
    unused = ground arith;
    small = ground arith;
  },
  ground arith,
)

verify_ack_if :
    (verifies : SignatureCheck) (t : AckToken) (operators : List String) (pending : Option String)
    (seq : ℕ) (last_nonce : List ℕ) (slot : ℕ)
    → Genuine verifies t operators pending last_nonce slot
    → verify_ack verifies t operators pending seq last_nonce ≡ ok (verified t slot seq)
unfolding verify_ack
verify_ack_if verifies t operators pending seq last_nonce slot g =
    let schema = (same_text_iff t.schema handoff_schema).1 g.schema in
    let handoff = (same_text_iff t.handoff_digest t.handoff_digest).1 refl in
    rw (g.listed, schema, g.signed, g.handoff, handoff) (ground (arith, g.short, g.unused, g.small))

-- An acknowledgement is accepted exactly when its operator is listed, in a slot of at most 255, its
-- note is short, its schema is
-- that of a handoff, its signature verifies under the operator's key, its digest is the pending one
-- and its nonce is above the last one of the operator's slot; and it then passes on its decision.
pub verify_ack-Genuine :
    (verifies : SignatureCheck) (t : AckToken) (operators : List String) (pending : Option String)
    (seq : ℕ) (last_nonce : List ℕ) (a : VerifiedAck)
    → (verify_ack verifies t operators pending seq last_nonce ≡ ok a) ↔ (
        Genuine verifies t operators pending last_nonce a.operator_slot
        × (a ≡ verified t a.operator_slot seq))
verify_ack-Genuine verifies t operators pending seq last_nonce a = (
  accepted-Genuine verifies t operators pending seq last_nonce a,
  λ (g, e).
      verify_ack_if verifies t operators pending seq last_nonce a.operator_slot g ∙ ap ok (sym e),
)
