-- ===== src/Core/Envelope/Gate.antt =====
-- The gate of an envelope: `GateSpec` of crates/lictor-core/src/envelope.rs.
use Prim.Native.String.{String}
use lictor.Prelude.{
  ℕ, suc, List, [], ◌∷◌, length, set, take, if◌then◌else◌, ltb, bit_or, map, split_on, append_text,
  Result, ok, ◌>>=◌, ◌>>◌, reject_if, or_err,
}
use lictor.Core.Scores.{GateSpec, feat_bit, max_terms, disarmed_gate}
use lictor.Core.Names.{feat_from_name, names_from, feat_names}
use lictor.Core.Envelope.{Problem, EnvelopeError}

-- The bits of the names of one term.
unfoldable pub term_bits : List String → ℕ → Result EnvelopeError ℕ
term_bits [] bits = ok bits
term_bits (name ∷ names) bits = do
  f ← or_err (feat_from_name name) (EnvelopeError.invalid Problem.gate_feature)
  term_bits names (bit_or bits (feat_bit f))

-- The terms from index i on, written into the array.
unfoldable pub parse_terms : List String → ℕ → List ℕ → Result EnvelopeError (List ℕ)
unfolding term_bits
parse_terms [] i terms = ok terms
parse_terms (t ∷ ts) i terms = do
  bits ← term_bits (split_on 0x7c t) 0
  parse_terms ts (suc i) (set terms i bits)

unfoldable pub parse_gate : List String → Result EnvelopeError GateSpec
unfolding parse_terms
parse_gate ts = do
  reject_if (ltb max_terms (length ts)) (EnvelopeError.invalid Problem.gate_too_long)
  terms ← parse_terms ts 0 disarmed_gate.terms
  ok (record { n_terms = length ts; terms = terms })

unfoldable pub active_terms : GateSpec → ℕ
active_terms g = if ltb g.n_terms max_terms then g.n_terms else max_terms

unfoldable pub union_terms : List ℕ → ℕ → ℕ
union_terms [] m = m
union_terms (t ∷ ts) m = union_terms ts (bit_or m t)

unfoldable pub gate_mask : GateSpec → ℕ
unfolding active_terms union_terms
gate_mask g = union_terms (take (active_terms g) g.terms) 0

abbrev join_bars : List String → String
join_bars [] = ""
join_bars (part ∷ []) = part
join_bars (part ∷ parts) = append_text part (append_text "|" (join_bars parts))

-- The names of the bits that are set, of one term.
unfoldable pub term_names : ℕ → List String
unfolding names_from feat_names
term_names bits = names_from bits 0 feat_names

unfoldable pub gate_names : GateSpec → List String
unfolding active_terms
gate_names g = map (λ bits. join_bars (term_names bits)) (take (active_terms g) g.terms)
