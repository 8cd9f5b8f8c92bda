-- ===== src/Receipt/Tick/Tamper.antt =====
-- What the head of a verdict chain commits to: crates/lictor-receipt/src/tick.rs.
use Prim.Native.String.{String}
use lictor.Prelude.{ℕ, suc, ◌≡◌, refl, sym, ap, ◌∙◌, true, List, [], ◌∷◌, length, arith, inl, inr}
use lictor.Receipt.Tick.{
  Links, TickEvent, walk, first_seq, tick_links, tick_recompute_hash, verify_tick_chain,
}
use lictor.Receipt.Tick.Chain.{IsChained, walk-Reports}

module _ {T : Type 0} (l : Links T) where
  -- Events at the same place that agree in their hash and in what it is recomputed from are the same.
  abbrev Separates : List T → List T → Type 0
  Separates (e ∷ es) (d ∷ ds) =
      (l.recompute e ≡ l.recompute d → l.hash_of e ≡ l.hash_of d → e ≡ d) × Separates es ds
  Separates es ds = Unit

  -- Chains of one length with one head are the same chain, and start at the same hash.
  chains_same :
      (first second i : ℕ) (p q : String) (es ds : List T) (head : String)
      → length es ≡ length ds
      → Separates es ds
      → IsChained l first i p es head
      → IsChained l second i q ds head
      → (es ≡ ds) × (p ≡ q)
  chains_same first second i p q [] [] head n s h k = (refl, h ∙ sym k)
  chains_same first second i p q [] (d ∷ ds) head n s h k = absurd (omega arith)
  chains_same first second i p q (e ∷ es) [] head n s h k = absurd (omega arith)
  chains_same first second i p q (e ∷ es) (d ∷ ds) head n (same, s) (a, h) (b, k) =
      let (rest, hash) =
        chains_same first second (suc i) (l.hash_of e) (l.hash_of d) es ds head (omega arith) s h
          k in
      let content : l.recompute e ≡ l.recompute d = a.content ∙ hash ∙ sym b.content in
      let event : e ≡ d = same content hash in (cc, sym a.link ∙ ap l.prev_of event ∙ b.link)

  walk-chained :
      (es : List T) (genesis : String)
      → (walk l es genesis).ok ≡ true
      → IsChained l (first_seq l es) 0 genesis es (walk l es genesis).head
  walk-chained es genesis h = elim (walk-Reports l es genesis) [
    | inl (o, b, chained) ↦ chained
    | inr (b, o, f, k) ↦ absurd (ground arith)
  ]

  walks_same :
      (es ds : List T) (p q : String)
      → length es ≡ length ds
      → Separates es ds
      → (walk l es p).ok ≡ true
      → (walk l ds q).ok ≡ true
      → (walk l es p).head ≡ (walk l ds q).head
      → es ≡ ds
  walks_same es ds p q n s h k same =
      (chains_same (first_seq l es) (first_seq l ds) 0 p q es ds (walk l ds q).head n s
        (rw (sym same) (walk-chained es p h)) (walk-chained ds q k)).0

module _ {F : Type 0} (digest_of : TickEvent F → String) where
  -- What is digested of an event.
  abbrev pub blank : TickEvent F → TickEvent F
  blank e = record e { hash = "" }

  -- The digest tells the events at each place apart.
  abbrev pub NoCollision : List (TickEvent F) → List (TickEvent F) → Type 0
  NoCollision (e ∷ es) (d ∷ ds) =
      (digest_of (blank e) ≡ digest_of (blank d) → blank e ≡ blank d) × NoCollision es ds
  NoCollision es ds = Unit

  separates :
      (es ds : List (TickEvent F)) → NoCollision es ds → Separates (tick_links digest_of) es ds
  unfolding tick_links tick_recompute_hash
  separates [] [] h = tt
  separates [] (d ∷ ds) h = tt
  separates (e ∷ es) [] h = tt
  separates (e ∷ es) (d ∷ ds) (h, hs) =
      (λ content hash. let b = h content in cc, separates es ds hs)

  -- The head of the chain commits to every event: two lists of one length that both verify, each from
  -- its own genesis, and end in the same head are equal, when the digest tells apart the events that
  -- stand at the same place.
  pub verify_tick_chain_same :
      (es ds : List (TickEvent F)) (p q : String)
      → length es ≡ length ds
      → NoCollision es ds
      → (verify_tick_chain digest_of es p).ok ≡ true
      → (verify_tick_chain digest_of ds q).ok ≡ true
      → (verify_tick_chain digest_of es p).head ≡ (verify_tick_chain digest_of ds q).head
      → es ≡ ds
  unfolding verify_tick_chain
  verify_tick_chain_same es ds p q n s h k same =
      walks_same (tick_links digest_of) es ds p q n (separates es ds s) h k same
