-- ===== src/Receipt/Verify/Signing.antt =====
-- A signed body becomes an intact receipt: `sign` and `verify` of crates/lictor-receipt/src/sign.rs.
use lictor.Prelude.{ℕ, ◌≡◌, refl, sym, true, some, List, length, ok, >>=-eq-ok}
use mathlib.Core.Path.{subst}
use lictor.Receipt.Body.{ReceiptBody, receipt_schema, canonical_id}
use lictor.Receipt.Signed.{Crypto, Signed, intact, sign, sign_bytes}
use lictor.Receipt.Verify.{Verifier, verify}
use lictor.Receipt.Verify.Embedded.{IsEmbedded}
use lictor.Receipt.Verify.Intact.{Signs, verify-IsIntact}

-- What is documented of the primitives: a text of hexadecimal digits reads back, and a signature
-- verifies under the key of its seed.
pub record CryptoLaws (c : Crypto) : Type 0 where
  pub decode-encode : (bytes : List ℕ) → c.hex_decode (c.hex_encode bytes) ≡ some bytes
  pub length-public_of : (seed : List ℕ) → length (c.public_of seed) ≡ 32
  pub public_of-point : (seed : List ℕ) → c.is_point (c.public_of seed) ≡ true
  pub length-sign_with : (seed bytes : List ℕ) → length (c.sign_with seed bytes) ≡ 64
  pub verify-sign_with :
      (seed bytes : List ℕ)
      → c.verify_strict (c.public_of seed) bytes (c.sign_with seed bytes) ≡ true

sign_bytes-Signs :
    (c : Crypto) (seed bytes : List ℕ)
    → CryptoLaws c
    → Signs c (sign_bytes c seed bytes).0 (sign_bytes c seed bytes).1 bytes
unfolding sign_bytes
sign_bytes-Signs c seed bytes laws = record {
  key = c.public_of seed;
  key_read = laws.decode-encode (c.public_of seed);
  key_size = laws.length-public_of seed;
  key_point = laws.public_of-point seed;
  signature = c.sign_with seed bytes;
  signature_read = laws.decode-encode (c.sign_with seed bytes);
  signature_size = laws.length-sign_with seed bytes;
  verified = laws.verify-sign_with seed bytes;
}

module _ {F : Type 0} where
  -- What a body must hold for its signed receipt to be intact.
  pub record IsSound (v : Verifier F) (body : ReceiptBody F) : Type 0 where
    pub schema : body.schema ≡ receipt_schema
    pub encoding : body.canonical ≡ canonical_id
    pub envelope_bytes : List ℕ
    pub envelope_encoded : v.canon_envelope body.envelope ≡ ok envelope_bytes
    pub envelope_digest : v.crypto.sha256_hex envelope_bytes ≡ body.envelope_digest
    pub counted : body.counts.ticks ≡ body.verdict_events
    pub timed : body.verdict_events ≡ body.timing_events
    pub stepped : body.timing_events ≡ body.outcome.steps
    pub embedded : IsEmbedded v.tick_digest body

  signed_parts :
      (v : Verifier F) (body : ReceiptBody F) (seed : List ℕ) (sr : Signed (ReceiptBody F))
      → sign v.crypto v.canonical body seed ≡ ok sr
      → (bytes : List ℕ) × (v.canonical body ≡ ok bytes)
        × (sr ≡ record {
          body = body;
          body_digest = v.crypto.sha256_hex bytes;
          pubkey = (sign_bytes v.crypto seed bytes).0;
          sig = (sign_bytes v.crypto seed bytes).1;
        })
  unfolding sign
  signed_parts v body seed sr h =
      let (bytes, e, same) = >>=-eq-ok (v.canonical body) _ h in (bytes, e, cc)

  -- A sound body that is signed verifies as intact, under any expected key that is the seed's.
  pub intact-sign :
      (v : Verifier F) (body : ReceiptBody F) (seed : List ℕ) (sr : Signed (ReceiptBody F))
      → CryptoLaws v.crypto
      → IsSound v body
      → sign v.crypto v.canonical body seed ≡ ok sr
      → intact (verify v sr (some (v.crypto.hex_encode (v.crypto.public_of seed)))) ≡ true
  unfolding sign_bytes
  intact-sign v body seed sr laws k h =
      let (bytes, coded, same) = signed_parts v body seed sr h in
      let expected = v.crypto.hex_encode (v.crypto.public_of seed) in
      subst (λ r. intact (verify v r (some expected)) ≡ true) (sym same)
        ((verify-IsIntact v _ (some expected)).1 (record {
          schema = k.schema;
          encoding = k.encoding;
          bytes = bytes;
          encoded = coded;
          digest = refl;
          signed = sign_bytes-Signs v.crypto seed bytes laws;
          key = λ p e. cc;
          envelope_bytes = k.envelope_bytes;
          envelope_encoded = k.envelope_encoded;
          envelope_digest = k.envelope_digest;
          counted = k.counted;
          timed = k.timed;
          stepped = k.stepped;
          embedded = k.embedded;
        }))
