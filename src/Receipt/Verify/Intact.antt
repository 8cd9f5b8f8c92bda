-- ===== src/Receipt/Verify/Intact.antt =====
-- What an intact receipt is: `verify` and `VerifyReport::intact` of
-- crates/lictor-receipt/src/sign.rs.
use Prim.Native.String.{String}
use lictor.Prelude.{
  ℕ, ◌≡◌, ◌↔◌, refl, sym, ap, ◌∙◌, Bool, true, false, not, Option, none, some, List, length, or_err,
  arith, Result, ok, err, >>=-eq-ok, reject_if, reject_if-eq-ok, same_text, same_text_iff, option,
}
use mathlib.Core.Path.{subst}
use lictor.Receipt.Body.{ReceiptBody, receipt_schema, canonical_id}
use lictor.Receipt.Signed.{
  CanonError, Crypto, Signed, SignatureDefect, VerifyReport, intact, sized, succeeds, verify_bytes,
  check_bytes, from_signature_checks,
}
use lictor.Receipt.Verify.{
  Verifier, TicksCheck, verify, check_embedded_ticks, passed, envelope_matches,
}
use lictor.Receipt.Verify.Embedded.{IsEmbedded, check_embedded_iff}

-- The signature of some bytes: a key and a signature of the right sizes, which verify.
pub record Signs (c : Crypto) (pubkey sig : String) (bytes : List ℕ) : Type 0 where
  pub key : List ℕ
  pub key_read : c.hex_decode pubkey ≡ some key
  pub key_size : length key ≡ 32
  pub key_point : c.is_point key ≡ true
  pub signature : List ℕ
  pub signature_read : c.hex_decode sig ≡ some signature
  pub signature_size : length signature ≡ 64
  pub verified : c.verify_strict key bytes signature ≡ true

sized-some :
    (n : ℕ) (o : Option (List ℕ)) (b : List ℕ) → sized n o ≡ some b → (o ≡ some b) × (length b ≡ n)
sized-some n none b h = cc
sized-some n (some a) b h = (ground arith, ground arith)

or_err-some :
    {E : Type 0} (o : Option (List ℕ)) (e : E) (b : List ℕ) → or_err o e ≡ ok b → o ≡ some b
or_err-some none e b h = cc
or_err-some (some a) e b h = cc

not-not : (b : Bool) → not b ≡ false → b ≡ true
not-not true h = refl
not-not false h = cc

verify_bytes-Signs :
    (c : Crypto) (pubkey sig : String) (bytes : List ℕ)
    → (verify_bytes c pubkey sig bytes ≡ ok tt) ↔ Signs c pubkey sig bytes
unfolding verify_bytes
verify_bytes-Signs c pubkey sig bytes = (
  λ h.
      let (key, read, rest) =
        >>=-eq-ok (or_err (sized 32 (c.hex_decode pubkey)) SignatureDefect.key_not_hex) _ h in
      let (_, point, last) =
        >>=-eq-ok (reject_if (not (c.is_point key)) SignatureDefect.key_not_a_point) _ rest in
      let (signature, sig_read, good) =
        >>=-eq-ok (or_err (sized 64 (c.hex_decode sig)) SignatureDefect.signature_not_hex) _ last in
      let (key_read, key_size) =
        sized-some 32 (c.hex_decode pubkey) key (or_err-some _ _ key read) in
      let (signature_read, signature_size) =
        sized-some 64 (c.hex_decode sig) signature (or_err-some _ _ signature sig_read) in
      record {
        key = key;
        key_read = key_read;
        key_size = key_size;
        key_point = not-not (c.is_point key) (reject_if-eq-ok _ _ point);
        signature = signature;
        signature_read = signature_read;
        signature_size = signature_size;
        verified = not-not (c.verify_strict key bytes signature) (reject_if-eq-ok _ _ good);
      },
  λ k.
      ground (
        arith, k.key_read, k.key_size, k.key_point, k.signature_read, k.signature_size, k.verified,
      ),
)

seven_parts :
    (r : VerifyReport)
    → (intact r ≡ true) ↔ (
        (r.schema_ok ≡ true)
        × (r.sig_ok ≡ true)
        × (r.digest_ok ≡ true)
        × (r.ticks_ok ≡ true)
        × (r.pubkey_ok ≡ true)
        × (r.envelope_digest_ok ≡ true)
        × (r.counts_ok ≡ true))
unfolding intact
seven_parts r = (λ h. ground arith, λ h. ground arith)

passed_iff : (t : TicksCheck) → (passed t ≡ true) ↔ (t ≡ ok tt)
passed_iff (ok u) = (λ h. refl, λ h. refl)
passed_iff (err e) = (λ h. cc, λ h. cc)

succeeds_iff : (r : Result SignatureDefect (Unit {0})) → (succeeds r ≡ true) ↔ (r ≡ ok tt)
succeeds_iff (ok u) = (λ h. refl, λ h. refl)
succeeds_iff (err e) = (λ h. cc, λ h. cc)

expected_iff :
    (o : Option String) (key : String)
    → (option o true (λ p. same_text p key) ≡ true) ↔ ((p : String) → o ≡ some p → p ≡ key)
expected_iff none key = (λ h p e. cc, λ h. refl)
expected_iff (some p) key =
    (λ h q e. let same = (same_text_iff p key).0 h in cc, λ h. (same_text_iff p key).1 (h p refl))

check_bytes_iff :
    (c : Crypto) (r : Result CanonError (List ℕ)) (digest pubkey sig : String)
    → (((check_bytes c r digest pubkey sig).0 ≡ true)
        × ((check_bytes c r digest pubkey sig).1 ≡ true))
      ↔ ((bytes : List ℕ) × (r ≡ ok bytes)
          × (c.sha256_hex bytes ≡ digest)
          × Signs c pubkey sig bytes)
unfolding check_bytes
check_bytes_iff c (ok bytes) digest pubkey sig = (
  λ (same, good). (
    bytes,
    refl,
    (same_text_iff (c.sha256_hex bytes) digest).0 same,
    (verify_bytes-Signs c pubkey sig bytes).0
        ((succeeds_iff (verify_bytes c pubkey sig bytes)).0 good),
  ),
  λ (other, e, same, good).
      let here : other ≡ bytes = cc in
      (
        (same_text_iff (c.sha256_hex bytes) digest).1 (ap c.sha256_hex (sym here) ∙ same),
        (succeeds_iff (verify_bytes c pubkey sig bytes)).1 (
            (verify_bytes-Signs c pubkey sig bytes).1
              (subst (λ b. Signs c pubkey sig b) here good)),
      ),
)
check_bytes_iff c (err e) digest pubkey sig = (λ (a, b). cc, λ (bytes, e, same, good). cc)

envelope_iff :
    (c : Crypto) (r : Result CanonError (List ℕ)) (digest : String)
    → (envelope_matches c r digest ≡ true)
      ↔ ((bytes : List ℕ) × (r ≡ ok bytes) × (c.sha256_hex bytes ≡ digest))
envelope_iff c (ok bytes) digest = (
  λ h. (bytes, refl, (same_text_iff (c.sha256_hex bytes) digest).0 h),
  λ (other, e, same).
      let here : bytes ≡ other = cc in
      (same_text_iff (c.sha256_hex bytes) digest).1 (ap c.sha256_hex here ∙ same),
)
envelope_iff c (err e) digest = (λ h. cc, λ (bytes, e, same). cc)

module _ {F : Type 0} where
  -- What an intact receipt holds, for a verifier that may expect a key.
  pub record IsIntact (v : Verifier F) (sr : Signed (ReceiptBody F)) (expected : Option String)
      : Type 0 where
    pub schema : sr.body.schema ≡ receipt_schema
    pub encoding : sr.body.canonical ≡ canonical_id
    pub bytes : List ℕ
    pub encoded : v.canonical sr.body ≡ ok bytes
    pub digest : v.crypto.sha256_hex bytes ≡ sr.body_digest
    pub signed : Signs v.crypto sr.pubkey sr.sig bytes
    pub key : (p : String) → expected ≡ some p → p ≡ sr.pubkey
    pub envelope_bytes : List ℕ
    pub envelope_encoded : v.canon_envelope sr.body.envelope ≡ ok envelope_bytes
    pub envelope_digest : v.crypto.sha256_hex envelope_bytes ≡ sr.body.envelope_digest
    pub counted : sr.body.counts.ticks ≡ sr.body.verdict_events
    pub timed : sr.body.verdict_events ≡ sr.body.timing_events
    pub stepped : sr.body.timing_events ≡ sr.body.outcome.steps
    pub embedded : IsEmbedded v.tick_digest sr.body

  -- An accepted receipt is exactly an intact one: the known schema and encoding, a signature over the
  -- canonical bytes by the expected key, matching digests, counts that agree, and embedded ticks as
  -- the policy asks.
  pub verify-IsIntact :
      (v : Verifier F) (sr : Signed (ReceiptBody F)) (expected : Option String)
      → (intact (verify v sr expected) ≡ true) ↔ IsIntact v sr expected
  unfolding verify from_signature_checks
  verify-IsIntact v sr expected =
      let body = sr.body in
      let parts = seven_parts (verify v sr expected) in
      let bytes = check_bytes_iff v.crypto (v.canonical body) sr.body_digest sr.pubkey sr.sig in
      let env = envelope_iff v.crypto (v.canon_envelope body.envelope) body.envelope_digest in
      let ticks = check_embedded_ticks v.tick_digest body in
      let schema = same_text_iff body.schema receipt_schema in
      let encoding = same_text_iff body.canonical canonical_id in
      (
        λ h.
            let (hs, hsig, hd, ht, hk, he, hc) = parts.0 h in
            let (b, coded, dig, signed) = bytes.0 (hd, hsig) in
            let (eb, ecoded, edig) = env.0 he in
            record {
              schema = schema.0 (ground arith);
              encoding = encoding.0 (ground arith);
              bytes = b;
              encoded = coded;
              digest = dig;
              signed = signed;
              key = (expected_iff expected sr.pubkey).0 hk;
              envelope_bytes = eb;
              envelope_encoded = ecoded;
              envelope_digest = edig;
              counted = ground arith;
              timed = ground arith;
              stepped = ground arith;
              embedded = (check_embedded_iff v.tick_digest body).0 ((passed_iff ticks).0 ht);
            },
        λ k.
            let (hd, hsig) = bytes.1 (k.bytes, k.encoded, k.digest, k.signed) in
            let hs = schema.1 k.schema in
            let hc = encoding.1 k.encoding in
            parts.1 (
              ground arith,
              hsig,
              hd,
              (passed_iff ticks).1 ((check_embedded_iff v.tick_digest body).1 k.embedded),
              (expected_iff expected sr.pubkey).1 k.key,
              env.1 (k.envelope_bytes, k.envelope_encoded, k.envelope_digest),
              ground (arith, k.counted, k.timed, k.stepped),
            ),
      )
