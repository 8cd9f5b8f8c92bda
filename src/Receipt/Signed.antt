-- ===== src/Receipt/Signed.antt =====
-- Signed receipts and their verification: crates/lictor-receipt/src/sign.rs. The curve and the hash
-- come from libraries, and so does the canonical encoding's walk over a struct: they are parameters.
use Prim.Native.String.{String}
use lictor.Prelude.{
  ℕ, Bool, true, false, not, ◌&&◌, Option, none, some, List, [], ◌∷◌, ◌++◌, length, if◌then◌else◌,
  ◌==◌, same_text, option, Result, ok, err, ◌>>=◌, ◌>>◌, reject_if, or_err,
}
use lictor.Receipt.Body.{Note}

-- Why a value has no canonical bytes.
pub data CanonError : Type 0 where
  float_in_body integer_out_of_range bad_key bad_f64 serialize : String → CanonError

-- Ed25519, hexadecimal texts and SHA-256.
pub record Crypto : Type 0 where
  pub hex_decode : String → Option (List ℕ)
  pub hex_encode : List ℕ → String
  pub public_of : List ℕ → List ℕ  -- of a seed
  pub sign_with : List ℕ → List ℕ → List ℕ  -- with a seed, a message
  pub is_point : List ℕ → Bool
  pub verify_strict : List ℕ → List ℕ → List ℕ → Bool  -- of a key, a message and a signature
  pub sha256_hex : List ℕ → String

pub data SignatureDefect : Type 0 where
  key_not_hex key_not_a_point signature_not_hex signature_wrong : SignatureDefect

-- A body with its digest, the key and the signature.
pub record Signed (B : Type 0) : Type 0 where
  pub body : B
  pub body_digest : String
  pub pubkey : String
  pub sig : String

pub data VerifyNote : Type 0 where
  digest_differs pubkey_differs schema_unknown envelope_differs counts_disagree : VerifyNote
  signature : SignatureDefect → VerifyNote
  not_canonical : CanonError → VerifyNote
  unknown_policy : String → VerifyNote
  embedded_count : ℕ → ℕ → VerifyNote
  head_not_genesis tail_misplaced head_differs flag_differs notes_differ : VerifyNote
  chain_breaks : Option ℕ → VerifyNote
  fuse : Note → VerifyNote

pub record VerifyReport : Type 0 where
  pub schema_ok : Bool
  pub sig_ok : Bool
  pub digest_ok : Bool
  pub ticks_ok : Bool
  pub pubkey_ok : Bool
  pub envelope_digest_ok : Bool
  pub counts_ok : Bool
  pub fuse_ok : Bool
  pub break_at : Option ℕ
  pub notes : List VerifyNote

unfoldable pub intact : VerifyReport → Bool
intact r =
    r.schema_ok && r.sig_ok && r.digest_ok && r.ticks_ok && r.pubkey_ok && r.envelope_digest_ok
    && r.counts_ok

-- `b.try_into().ok()`, into an array of n bytes.
abbrev pub sized : ℕ → Option (List ℕ) → Option (List ℕ)
sized n none = none
sized n (some b) = if length b == n then some b else none

abbrev pub succeeds {ℓ κ} : {E : Type ℓ} {A : Type κ} → Result E A → Bool
succeeds (ok a) = true
succeeds (err e) = false

abbrev note_unless : Bool → VerifyNote → List VerifyNote
note_unless true n = []
note_unless false n = n ∷ []

abbrev signature_notes : Result SignatureDefect (Unit {0}) → List VerifyNote
signature_notes (ok u) = []
signature_notes (err e) = VerifyNote.signature e ∷ []

module _ (c : Crypto) where
  unfoldable pub sign_bytes : List ℕ → List ℕ → String × String
  sign_bytes seed bytes = (c.hex_encode (c.public_of seed), c.hex_encode (c.sign_with seed bytes))

  unfoldable pub verify_bytes : String → String → List ℕ → Result SignatureDefect (Unit {0})
  verify_bytes pubkey_hex sig_hex bytes = do
    pk ← or_err (sized 32 (c.hex_decode pubkey_hex)) SignatureDefect.key_not_hex
    reject_if (not (c.is_point pk)) SignatureDefect.key_not_a_point
    sig ← or_err (sized 64 (c.hex_decode sig_hex)) SignatureDefect.signature_not_hex
    reject_if (not (c.verify_strict pk bytes sig)) SignatureDefect.signature_wrong

  unfoldable pub sign :
      {B : Type 0} → (B → Result CanonError (List ℕ)) → B → List ℕ → Result CanonError (Signed B)
  unfolding sign_bytes
  sign canonical body seed = canonical body >>= λ bytes.
      let (pubkey, sig) = sign_bytes seed bytes in
      ok (record { body = body; body_digest = c.sha256_hex bytes; pubkey = pubkey; sig = sig })

  -- The digest and the signature of the bytes, if there are any, with the notes on them.
  unfoldable pub check_bytes :
      Result CanonError (List ℕ) → String → String → String → Bool × Bool × List VerifyNote
  check_bytes (ok bytes) body_digest pubkey sig =
      let digest_ok = same_text (c.sha256_hex bytes) body_digest in
      let checked = verify_bytes pubkey sig bytes in
      (
        digest_ok,
        succeeds checked,
        note_unless digest_ok VerifyNote.digest_differs ++ signature_notes checked,
      )
  check_bytes (err e) body_digest pubkey sig = (false, false, VerifyNote.not_canonical e ∷ [])

  -- The report, and the notes that go to the caller: its own list of notes stays empty.
  unfoldable pub from_signature_checks :
      Bool
      → Result CanonError (List ℕ)
      → String
      → String
      → String
      → Option String
      → VerifyReport × List VerifyNote
  unfolding check_bytes
  from_signature_checks schema_ok canonical body_digest pubkey sig expect_pubkey =
      let (digest_ok, sig_ok, notes) = check_bytes canonical body_digest pubkey sig in
      let pubkey_ok = option expect_pubkey true (λ p. same_text p pubkey) in
      (
        record {
          schema_ok = schema_ok;
          sig_ok = sig_ok;
          digest_ok = digest_ok;
          ticks_ok = true;
          pubkey_ok = pubkey_ok;
          envelope_digest_ok = true;
          counts_ok = true;
          fuse_ok = true;
          break_at = none;
          notes = [];
        },
        notes
            ++ note_unless pubkey_ok VerifyNote.pubkey_differs
            ++ note_unless schema_ok VerifyNote.schema_unknown,
      )
