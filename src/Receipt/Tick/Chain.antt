-- ===== src/Receipt/Tick/Chain.antt =====
-- What `walk` accepts and where it reports a break: crates/lictor-receipt/src/tick.rs.
use Prim.Native.String.{String}
use mathlib.Core.Path.{subst}
use lictor.Prelude.{
  ℕ, suc, ◌+◌, ◌%◌, ◌^◌, ◌≡◌, refl, sym, ap, ◌↔◌, ◌⊎◌, inl, inr, true, false, Option, none, some,
  List, [], ◌∷◌, ◌++◌, length, arith, Bool-cases, same_text_iff,
}
use lictor.Receipt.Tick.{Links, ChainReport, is_good, break_from, walk_from, walk, first_seq}

module _ {T : Type 0} (l : Links T) where
  -- An event that continues the chain after a hash, at a sequence number.
  pub record IsLinked (expected : ℕ) (prev : String) (e : T) : Type 0 where
    pub number : l.seq_of e ≡ expected
    pub link : l.prev_of e ≡ prev
    pub content : l.recompute e ≡ l.hash_of e

  -- Events i and on link one to the next, up to a head.
  abbrev pub IsChained : ℕ → ℕ → String → List T → String → Type 0
  IsChained first i prev [] head = prev ≡ head
  IsChained first i prev (e ∷ es) head =
      IsLinked ((first + i) % 2 ^ 32) prev e × IsChained first (suc i) (l.hash_of e) es head

  is_good_iff :
      (expected : ℕ) (prev : String) (e : T)
      → (is_good l expected prev e ≡ true) ↔ IsLinked expected prev e
  is_good_iff expected prev e = (
    λ h. record {
      number = ground arith;
      link = (same_text_iff (l.prev_of e) prev).0 (ground arith);
      content = (same_text_iff (l.recompute e) (l.hash_of e)).0 (ground arith);
    },
    λ k. ground (
      arith,
      k.number,
      (same_text_iff (l.prev_of e) prev).1 k.link,
      (same_text_iff (l.recompute e) (l.hash_of e)).1 k.content,
    ),
  )

  -- A break, once found, stays.
  walk_from_broken :
      (first i : ℕ) (es : List T) (prev : String) (b : ℕ)
      → (walk_from l first i es prev (some b)).1 ≡ some b
  unfolding walk_from
  walk_from_broken first i [] prev b = refl
  walk_from_broken first i (e ∷ es) prev b = walk_from_broken first (suc i) es (l.hash_of e) b

  -- The first event that does not continue the chain, after some that do.
  pub record Break (first i : ℕ) (prev : String) (es : List T) (b : ℕ) : Type 0 where
    pub before : List T
    pub head : String
    pub event : T
    pub after : List T
    pub split : es ≡ before ++ (event ∷ after)
    pub chained : IsChained first i prev before head
    pub position : b ≡ (first + (i + length before)) % 2 ^ 32
    pub unlinked : ¬ IsLinked b head event

  break_from_bad :
      (expected : ℕ) (prev : String) (e : T)
      → is_good l expected prev e ≡ false
      → break_from l expected prev e none ≡ some expected
  break_from_bad expected prev e h = ground arith

  break_from_good :
      (expected : ℕ) (prev : String) (e : T)
      → is_good l expected prev e ≡ true
      → break_from l expected prev e none ≡ none
  break_from_good expected prev e h = ground arith

  -- How the loop ends: a chain up to the last hash, or the first break.
  abbrev Ends : ℕ → ℕ → String → List T → String × Option ℕ → Type 0
  Ends first i prev es (head, found) =
      ((found ≡ none) × IsChained first i prev es head)
      ⊎ ((b : ℕ) × (found ≡ some b) × Break first i prev es b)

  cons-Break :
      (first i : ℕ) (prev : String) (e : T) (es : List T) (b : ℕ)
      → IsLinked ((first + i) % 2 ^ 32) prev e
      → Break first (suc i) (l.hash_of e) es b
      → Break first i prev (e ∷ es) b
  cons-Break first i prev e es b good k = record {
    before = e ∷ k.before;
    head = k.head;
    event = k.event;
    after = k.after;
    split = ap (◌∷◌ e) k.split;
    chained = (good, k.chained);
    position = omega (arith, k.position);
    unlinked = k.unlinked;
  }

  cons-Ends :
      (first i : ℕ) (prev : String) (e : T) (es : List T) (r : String × Option ℕ)
      → IsLinked ((first + i) % 2 ^ 32) prev e
      → Ends first (suc i) (l.hash_of e) es r
      → Ends first i prev (e ∷ es) r
  cons-Ends first i prev e es r good (inl (none_found, chained)) = inl (none_found, (good, chained))
  cons-Ends first i prev e es r good (inr (b, found, k)) =
      inr (b, found, cons-Break first i prev e es b good k)

  first-Break :
      (first i : ℕ) (prev : String) (e : T) (es : List T)
      → is_good l ((first + i) % 2 ^ 32) prev e ≡ false
      → Break first i prev (e ∷ es) ((first + i) % 2 ^ 32)
  first-Break first i prev e es bad = record {
    before = [];
    head = prev;
    event = e;
    after = es;
    split = refl;
    chained = refl;
    position = omega arith;
    unlinked = λ k. ground (arith, (is_good_iff ((first + i) % 2 ^ 32) prev e).1 k);
  }

  walk_from-Ends :
      (first i : ℕ) (es : List T) (prev : String)
      → Ends first i prev es (walk_from l first i es prev none)
  unfolding walk_from
  walk_from-Ends first i [] prev = inl (refl, refl)
  walk_from-Ends first i (e ∷ es) prev =
      let expected = (first + i) % 2 ^ 32 in
      elim (Bool-cases (is_good l expected prev e)) [
        | inl h ↦
            rw (walk_from, break_from_good expected prev e h)
              (cons-Ends first i prev e es _ ((is_good_iff expected prev e).0 h)
                (walk_from-Ends first (suc i) es (l.hash_of e)))
        | inr h ↦
            rw (walk_from, break_from_bad expected prev e h)
              (inr (
                expected,
                walk_from_broken first (suc i) es (l.hash_of e) expected,
                first-Break first i prev e es h,
              ))
      ]

  -- What the walk of some events reports: a chain, or a break.
  abbrev pub Reports : List T → String → ChainReport → Type 0
  Reports es genesis r =
      ((r.ok ≡ true) × (r.break_at ≡ none) × IsChained (first_seq l es) 0 genesis es r.head)
      ⊎ ((b : ℕ) × (r.ok ≡ false) × (r.break_at ≡ some b) × Break (first_seq l es) 0 genesis es b)

  -- The walk accepts a chain, with its last hash as the head; of anything else it reports the number
  -- at which the first event stands that does not continue the chain.
  pub walk-Reports : (es : List T) (genesis : String) → Reports es genesis (walk l es genesis)
  unfolding walk
  walk-Reports es genesis = elim (walk_from-Ends (first_seq l es) 0 es genesis) [
    | inl (e, chained) ↦ inl (rw e refl, e, chained)
    | inr (b, e, k) ↦ inr (b, rw e refl, e, k)
  ]

  pub walk_from-chained :
      (first i : ℕ) (es : List T) (prev head : String)
      → IsChained first i prev es head
      → (walk_from l first i es prev none).1 ≡ none
  unfolding walk_from
  walk_from-chained first i [] prev head h = refl
  walk_from-chained first i (e ∷ es) prev head (good, h) =
      let expected = (first + i) % 2 ^ 32 in
      rw (walk_from, break_from_good expected prev e ((is_good_iff expected prev e).1 good))
        (walk_from-chained first (suc i) es (l.hash_of e) head h)

  -- The verdict of the walk: it accepts a list of events exactly when they chain up.
  pub walk-ok :
      (es : List T) (genesis head : String)
      → IsChained (first_seq l es) 0 genesis es head
      → (walk l es genesis).ok ≡ true
  unfolding walk
  walk-ok es genesis head h = rw (walk_from-chained (first_seq l es) 0 es genesis head h) refl

  pub chained-first :
      (es : List T) (genesis head : String) → IsChained 0 0 genesis es head → first_seq l es ≡ 0
  chained-first [] genesis head h = refl
  chained-first (e ∷ es) genesis head (good, h) = good.number

  walk_from-head :
      (first i : ℕ) (es : List T) (prev head : String) (b : Option ℕ)
      → IsChained first i prev es head
      → (walk_from l first i es prev b).0 ≡ head
  unfolding walk_from
  walk_from-head first i [] prev head b h = h
  walk_from-head first i (e ∷ es) prev head b (good, h) =
      walk_from-head first (suc i) es (l.hash_of e) head _ h

  -- A chain that starts at number 0 is accepted, with its head.
  pub walk-from_zero :
      (es : List T) (genesis head : String)
      → IsChained 0 0 genesis es head
      → ((walk l es genesis).ok ≡ true) × ((walk l es genesis).head ≡ head)
  unfolding walk
  walk-from_zero es genesis head h =
      let h' =
        subst (λ n. IsChained n 0 genesis es head) (sym (chained-first es genesis head h)) h in
      (walk-ok es genesis head h', walk_from-head (first_seq l es) 0 es genesis head none h')

  -- The loop finds no break and ends in a head exactly when the events chain up to it.
  pub walk_from_iff :
      (first i : ℕ) (es : List T) (prev head : String)
      → (((walk_from l first i es prev none).1 ≡ none)
          × ((walk_from l first i es prev none).0 ≡ head))
        ↔ IsChained first i prev es head
  walk_from_iff first i es prev head = (
    λ (unbroken, same). elim (walk_from-Ends first i es prev) [
      | inl (_, chained) ↦ subst (λ h. IsChained first i prev es h) same chained
      | inr (b, broken, _) ↦ absurd (ground arith)
    ],
    λ h. (walk_from-chained first i es prev head h, walk_from-head first i es prev head none h),
  )

  -- The walk accepts some events and ends in a head exactly when they chain up to it.
  pub walk_iff :
      (es : List T) (genesis head : String)
      → (((walk l es genesis).ok ≡ true) × ((walk l es genesis).head ≡ head))
        ↔ IsChained (first_seq l es) 0 genesis es head
  unfolding walk
  walk_iff es genesis head = (
    λ (accepted, same). elim (walk-Reports es genesis) [
      | inl (_, _, chained) ↦ subst (λ h. IsChained (first_seq l es) 0 genesis es h) same chained
      | inr (b, broken, _, _) ↦ absurd (ground arith)
    ],
    λ h. (walk-ok es genesis head h, walk_from-head (first_seq l es) 0 es genesis head none h),
  )
