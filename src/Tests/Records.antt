-- ===== src/Tests/Records.antt =====
-- Signed receipts, ledgers and companions at concrete inputs.
use Prim.Native.Char.{code}
use Prim.Native.String.{String}
use lictor.Prelude.{
  ℕ, ◌+◌, ◌==◌, if◌then◌else◌, ◌∙◌, zero, suc, ◌≡◌, ◌↔◌, refl, ap, true, false, Option, none, some,
  List, [], ◌∷◌, ok, arith, replicate, inl, inr,
}
use lictor.Float.Sample.{Sample, sample_float}
use lictor.Core.Envelope.Compile.{flatten}
use lictor.Fuse.Fsm.{next}
use lictor.Fuse.Guard.{guard}
use lictor.Fuse.Decide.{decide, fault_tick}
use lictor.Runtime.Staging.{input, stage, check_obs, stage_obs, copy_opt}
use lictor.Receipt.Tick.{
  zero_hash, verify_tick_chain, walk, walk_from, tick_links, tick_event, tick_recompute_hash,
}
use lictor.Receipt.Body.{ReceiptBody, evaluate_fuse}
use lictor.Receipt.Signed.{Crypto, Signed, sign, sign_bytes, intact}
use lictor.Receipt.Verify.{Verifier, verify}
use lictor.Receipt.Verify.Signing.{CryptoLaws}
use lictor.Receipt.Verify.Intact.{IsIntact, verify-IsIntact}
use lictor.Runtime.Wire.{EpisodeReceiptMsg, EpisodeEndReq, Request, Response}
use lictor.Runtime.Session.{start, session_of}
use lictor.Runtime.Session.Closing.{receipt_body, episode_end, write_receipt}
use lictor.Runtime.Session.Handle.{handle, serve, step, note_io_ns, dispatch}
use lictor.Runtime.Session.Tick.{
  tick, open_tick, check_ack, fold_pending_timing, fold_episode, chain_tick, resolve_pending,
  open_handoff,
}
use lictor.Runtime.Session.Episodes.{episode_begin, new_episode}
use lictor.Runtime.Session.Issued.{IsSigner, episode_end-intact}
use lictor.Receipt.Verify.Held.{Held, evaluate_fuse-Held}
use lictor.Receipt.Ledger.{
  LedgerEntry, verify_ledger, append_ledger, ledger_head, ledger_loop, ledger_links,
  ledger_recompute_hash, ledger_entry,
}
use lictor.Receipt.Ledger.Grown.{Grows, append_ledger-Grows}
use lictor.Command.Verify.{Opts, run_checks, exit_code}
use lictor.Command.Verify.Companions.{
  FileHeader, Outside, ticks_schema, ledger_schema, check_ticks, check_header, check_report,
  check_tail,
}
use lictor.Command.Verify.Accepted.{Vouched, run_checks-Vouched}
use lictor.Command.Verify.Same.{Names, check_ticks_same}
use lictor.Tests.Receipts.{digest_of_tick, first_event, first_verifies}
use lictor.Tests.Sessions.{
  host, settings, now, end_with, fresh, one_tick, ticked, ticked_open, ticked_length,
}
use lictor.Tests.Envelopes.{envelope_valid, envelope_compiles}

-- Numbers in strokes, each ended by a dot.
abbrev stroke_text : ℕ → String → String
stroke_text zero rest = String.◌∷◌ "." rest
stroke_text (suc n) rest = String.◌∷◌ "i" (stroke_text n rest)

abbrev pub strokes : List ℕ → String
strokes [] = String.[]
strokes (n ∷ ns) = stroke_text n (strokes ns)

abbrev counted_on : ℕ → Option (List ℕ) → Option (List ℕ)
counted_on n none = none
counted_on n (some ns) = some (n ∷ ns)

-- A text of strokes, n of which are read.
abbrev pub read_strokes : ℕ → String → Option (List ℕ)
read_strokes n String.[] = some []
read_strokes n (String.◌∷◌ c rest) =
    let ended = counted_on n (read_strokes 0 rest) in
    let more = read_strokes (suc n) rest in if code c == b'.' then ended else more

read-stroke_text :
    (k n : ℕ) (rest : String)
    → read_strokes k (stroke_text n rest) ≡ counted_on (k + n) (read_strokes 0 rest)
read-stroke_text k zero rest = ap (λ i. counted_on i (read_strokes 0 rest)) (omega arith)
read-stroke_text k (suc n) rest =
    read-stroke_text (suc k) n rest ∙ ap (λ i. counted_on i (read_strokes 0 rest)) (omega arith)

pub read-strokes : (ns : List ℕ) → read_strokes 0 (strokes ns) ≡ some ns
read-strokes [] = refl
read-strokes (n ∷ ns) =
    read-stroke_text 0 n (strokes ns)
    ∙ ap (λ i. counted_on i (read_strokes 0 (strokes ns))) (omega arith)
    ∙ ap (counted_on n) (read-strokes ns)

-- Two messages, told apart by their first byte.
abbrev digest_text : List ℕ → String
digest_text [] = "e"
digest_text (n ∷ bytes) = "b"

abbrev crypto : Crypto
crypto = record {
  hex_decode = read_strokes 0;
  hex_encode = strokes;
  public_of = λ seed. replicate 32 1;
  sign_with = λ seed bytes. replicate 64 1;
  is_point = λ key. true;
  verify_strict = λ key bytes sig. true;
  sha256_hex = digest_text;
}

crypto_laws : CryptoLaws crypto
crypto_laws = record {
  decode-encode = read-strokes;
  length-public_of = λ seed. refl;
  public_of-point = λ seed. refl;
  length-sign_with = λ seed bytes. refl;
  verify-sign_with = λ seed bytes. refl;
}

abbrev pub verifier : Verifier Sample
verifier = record {
  crypto = crypto;
  canonical = λ body. ok (0 ∷ []);
  canon_envelope = λ env. ok [];
  tick_digest = host.tick_digest;
}

-- A body, signed.
abbrev pub signed_by : ReceiptBody Sample → Signed (ReceiptBody Sample)
signed_by body = record {
  body = body;
  body_digest = "b";
  pubkey = strokes (replicate 32 1);
  sig = strokes (replicate 64 1);
}

signer : IsSigner host verifier []
unfolding sign sign_bytes
signer = record {
  tick_digest = refl;
  envelope_encoded = λ env. ([], refl, refl);
  signed = λ body digest h. (signed_by body, refl, cc);
}

pub session_starts : start host settings ≡ ok fresh
unfolding start
session_starts = rw (envelope_valid, envelope_compiles) refl

-- The end of the episode of one tick.
abbrev ending : EpisodeEndReq Sample
ending = end_with 4

abbrev receipt_of : Response Sample → EpisodeReceiptMsg → EpisodeReceiptMsg
receipt_of (Response.episode_receipt m) d = m
receipt_of _ d = d

abbrev answered : EpisodeReceiptMsg
answered =
    receipt_of (handle host now (serve host fresh one_tick) (Request.episode_end ending)).1
      (record {
        id = 0;
        receipt_path = "";
        ticks_path = "";
        body_digest = "";
        verdict_chain_head = "";
        timing_chain_head = "";
        fuse_ok = false;
        fuse_notes = [];
        counts = (receipt_body host now fresh ticked ending none).counts;
        ledger_seq = 0;
        ledger_head = "";
      })

receipt_answered :
    (handle host now (serve host fresh one_tick) (Request.episode_end ending)).1
    ≡ Response.episode_receipt answered
unfolding serve step handle note_io_ns dispatch fold_pending_timing fold_episode episode_begin
    new_episode tick open_tick chain_tick resolve_pending open_handoff session_of check_ack
    episode_end write_receipt decide guard flatten input stage check_obs stage_obs copy_opt
    fault_tick next
receipt_answered = refl

episode_end-intact_example :
    (sr : Signed (ReceiptBody Sample)) × (sr.body_digest ≡ answered.body_digest)
    × (intact (verify verifier sr (some (strokes (replicate 32 1)))) ≡ true)
episode_end-intact_example =
    episode_end-intact host verifier [] settings fresh one_tick ticked now ending answered
      crypto_laws signer session_starts (inr (inl refl)) ticked_open (omega (arith, ticked_length))
      (omega (arith, ticked_length)) receipt_answered

-- The receipt of the episode, as it is signed.
abbrev receipt : Signed (ReceiptBody Sample)
receipt = signed_by (receipt_body host now fresh ticked ending none)

verify-IsIntact_example :
    (intact (verify verifier receipt (some "other")) ≡ true)
    ↔ IsIntact verifier receipt (some "other")
verify-IsIntact_example = verify-IsIntact verifier receipt (some "other")

evaluate_fuse-Held_example :
    ((evaluate_fuse receipt.body.budget receipt.body.counts none false).0 ≡ true)
    ↔ Held receipt.body.budget receipt.body.counts none false
evaluate_fuse-Held_example = evaluate_fuse-Held receipt.body.budget receipt.body.counts none false

abbrev digest_of_entry : LedgerEntry → String
digest_of_entry e = String.◌∷◌ "l" e.prev

-- A ledger of one receipt.
abbrev ledger : List LedgerEntry
ledger = append_ledger digest_of_entry [] receipt

ledger_verifies : (verify_ledger digest_of_entry ledger).chain_ok ≡ true
unfolding append_ledger ledger_head verify_ledger ledger_loop ledger_links ledger_recompute_hash
    ledger_entry
ledger_verifies = refl

append_ledger-Grows_example :
    Grows digest_of_entry ledger receipt
      (verify_ledger digest_of_entry ledger)
      (verify_ledger digest_of_entry (append_ledger digest_of_entry ledger receipt))
append_ledger-Grows_example = append_ledger-Grows digest_of_entry ledger receipt ledger_verifies

abbrev outside : Outside Sample
outside = record {
  timing_digest = host.timing_digest;
  ledger_digest = digest_of_entry;
  canon_curve = λ body. ok (0 ∷ []);
}

-- The header of the files.
abbrev file_header : FileHeader
file_header = record {
  schema = ticks_schema;
  run_id = "r";
  arm_id = "a";
  episode_index = some 0;
  genesis = zero_hash;
}

-- A receipt with its ledger, and nothing else.
abbrev given : Opts Sample
given = record {
  receipt = some receipt;
  ticks = none;
  timing = none;
  ledger = some (some (record file_header { schema = ledger_schema }), some ledger);
  curve = none;
  calibration = none;
  pubkey = none;
}

run_checks-Vouched_example :
    (exit_code (run_checks verifier outside given) ≡ 0) ↔ Vouched verifier outside given
run_checks-Vouched_example = run_checks-Vouched verifier outside given

-- A receipt that binds a file of one tick.
abbrev binding : Signed (ReceiptBody Sample)
binding =
    signed_by (record receipt.body {
      verdict_events = 1;
      verdict_chain_head = first_event.hash;
      ticks = [];
    })

abbrev of_ticks : Verifier Sample
of_ticks = record verifier { tick_digest = digest_of_tick }

file_accepted : check_ticks of_ticks binding (some (file_header, first_event ∷ [])) ≡ ok tt
unfolding check_ticks check_header check_report check_tail verify_tick_chain walk walk_from
    tick_links tick_event tick_recompute_hash decide guard fault_tick next receipt_body serve
    session_of dispatch episode_begin tick flatten input stage check_obs stage_obs copy_opt
file_accepted = refl

check_ticks_same_example : Names file_header binding × ((first_event ∷ []) ≡ (first_event ∷ []))
unfolding tick_event verify_tick_chain walk walk_from tick_links
check_ticks_same_example =
    check_ticks_same of_ticks binding file_header (first_event ∷ []) (first_event ∷ [])
      file_accepted first_verifies refl refl (omega arith) ((λ same. refl), tt)
