-- ===== src/Data/Binance/Chains.antt =====
-- Updates of Binance that follow on one another, and what a snapshot leaves of them.
use Prim.Native.Nat.{max}
use polymarket_btc.Prelude.{
  ltb, ltb→lt, Bool-cases, nat_eq, string_eq, pair_eq, ok, ℕ, ◌+◌, ◌≤◌, ◌≡◌, refl, subst, inl, inr,
  true, false, none, List, [], ◌∷◌, arith,
}
use polymarket_btc.Data.Binance.{nonnegative_int}
use polymarket_btc.Data.Binance.Synchronizer.{BufferedDepthUpdate, retained_after, is_too_old}

-- The update tells of the identifiers from `first` to `final`, and names no update before it.
pub record Spans (item : BufferedDepthUpdate) (first final : ℕ) : Type 0 where
  pub starts : nonnegative_int item.payload.first_update_id ≡ ok first
  pub ends : nonnegative_int item.payload.final_update_id ≡ ok final
  pub unnamed : item.payload.previous_final ≡ none

-- Updates that follow on one another, from the identifier before the first to the last one.
abbrev pub Chain : ℕ → List BufferedDepthUpdate → ℕ → Type 0
Chain n [] last = n ≡ last
Chain n (item ∷ items) last =
    (final : ℕ) × Spans item (n + 1) final × (n + 1 ≤ final) × Chain final items last

-- The same, where the first may start before the identifier.
abbrev pub Overlaps : ℕ → List BufferedDepthUpdate → ℕ → Type 0
Overlaps n [] last = n ≡ last
Overlaps n (item ∷ items) last =
    (first : ℕ) × (final : ℕ) × Spans item first final
    × (first ≤ n + 1)
    × (n + 1 ≤ final)
    × Chain final items last

pub Chain-Overlaps :
    (n : ℕ) (items : List BufferedDepthUpdate) (last : ℕ)
    → Chain n items last
    → Overlaps n items last
Chain-Overlaps n [] last h = h
Chain-Overlaps n (item ∷ items) last (final, spans, lt, rest) =
    (n + 1, final, spans, omega arith, lt, rest)

-- Nothing of a chain that starts at the snapshot or after it is left out.
retained_after-all :
    (n m : ℕ) (items : List BufferedDepthUpdate) (last : ℕ)
    → n ≤ m
    → Chain m items last
    → (retained_after n items ≡ ok items) × (m ≤ last)
unfolding retained_after
retained_after-all n m [] last le h = (refl, omega arith)
retained_after-all n m (item ∷ items) last le (final, spans, lt, rest) =
    let (same, up) = retained_after-all n final items last (omega arith) rest in
    let after : ltb n final ≡ true = ground arith in
    (rw (spans.ends, same, after) refl, omega arith)

-- What is left of a chain that starts before the snapshot overlaps with it.
pub retained_after-Overlaps :
    (n m : ℕ) (items : List BufferedDepthUpdate) (last : ℕ)
    → m ≤ n
    → Chain m items last
    → (kept : List BufferedDepthUpdate) × (retained_after n items ≡ ok kept)
      × Overlaps n kept (max n last)
unfolding retained_after
retained_after-Overlaps n m [] last le h = ([], refl, ground arith)
retained_after-Overlaps n m (item ∷ items) last le (final, spans, lt, rest) =
    elim (Bool-cases (ltb n final)) [
      | inl after ↦
          let (same, up) =
            retained_after-all n final items last (omega (arith, ltb→lt n final after)) rest in
          let top : last ≡ max n last = ground (arith, ltb→lt n final after) in
          (
            item ∷ items,
            rw (spans.ends, same, after) refl,
            (
              m + 1,
              final,
              spans,
              omega arith,
              ground (arith, ltb→lt n final after),
              subst (Chain final items) top rest,
            ),
          )
      | inr before ↦
          let (kept, same, over) = retained_after-Overlaps n final items last (ground arith) rest in
          (kept, rw (spans.ends, same, before) refl, over)
    ]

pub is_too_old-Overlaps :
    (n : ℕ) (items : List BufferedDepthUpdate) (last : ℕ)
    → Overlaps n items last
    → is_too_old n items ≡ ok false
unfolding is_too_old
is_too_old-Overlaps n [] last h = refl
is_too_old-Overlaps n (item ∷ items) last (first, final, spans, lo, hi, rest) =
    rw (spans.starts, spans.ends) (ground arith)
