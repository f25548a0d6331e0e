-- ===== src/Data/Books/Views.antt =====
-- What the two sides of a book say of every price, whatever the order of their entries.
use polymarket_btc.Prelude.{
  ◌==◌, if◌then◌else◌, nat_eq, string_eq, pair_eq, lookup, insert, lookup-insert, ℕ, ◌≡◌, refl, ap,
  ◌∙◌, Bool, true, none, List, [], ◌∷◌, arith,
}
use mathlib.Core.Path.{fun_ext}
use polymarket_btc.Data.Books.{Levels, pop, change, apply_levels, update_all, size_at}

-- The sizes after a list of changes: the last one given for the price, or the one before.
abbrev pub overlay : List (ℕ × ℕ) → (ℕ → ℕ) → ℕ → ℕ
overlay [] sizes p = sizes p
overlay ((q, n) ∷ cs) sizes p = overlay cs (λ r. if q == r then n else sizes r) p

lookup-pop : (q p : ℕ) (d : Levels) → lookup p (pop q d) ≡ (if q == p then none else lookup p d)
unfolding lookup pop
lookup-pop q p [] = ground arith
lookup-pop q p ((r, n) ∷ d) = ground (arith, lookup-pop q p d)

size_at-change :
    (q n p : ℕ) (d : Levels) → size_at (change (q, n) d) p ≡ (if q == p then n else size_at d p)
unfolding size_at change
size_at-change q n p d = ground (arith, lookup-pop q p d, lookup-insert q p n d)

size_at-insert :
    (q n p : ℕ) (d : Levels) → size_at (insert q n d) p ≡ (if q == p then n else size_at d p)
unfolding size_at
size_at-insert q n p d = ground (arith, lookup-insert q p n d)

overlay_cong :
    (cs : List (ℕ × ℕ)) (f g : ℕ → ℕ)
    → ((p : ℕ) → f p ≡ g p)
    → (p : ℕ) → overlay cs f p ≡ overlay cs g p
overlay_cong cs f g h p = ap (λ sizes. overlay cs sizes p) (fun_ext h)

-- The size of one price depends on what that price had.
overlay_at : (cs : List (ℕ × ℕ)) (f g : ℕ → ℕ) (p : ℕ) → f p ≡ g p → overlay cs f p ≡ overlay cs g p
overlay_at [] f g p h = h
overlay_at ((q, n) ∷ cs) f g p h = overlay_at cs _ _ p (rw h refl)

-- Both ways of writing changes into a side leave the sizes that the changes say.
size_at-apply_levels :
    (cs : List (ℕ × ℕ)) (d : Levels) (p : ℕ)
    → size_at (apply_levels cs d) p ≡ overlay cs (size_at d) p
unfolding apply_levels
size_at-apply_levels [] d p = refl
size_at-apply_levels ((q, n) ∷ cs) d p =
    size_at-apply_levels cs (change (q, n) d) p
    ∙ overlay_cong cs _ _ (λ r. size_at-change q n r d) p

size_at-update_all :
    (cs : List (ℕ × ℕ)) (d : Levels) (p : ℕ)
    → size_at (update_all cs d) p ≡ overlay cs (size_at d) p
unfolding update_all
size_at-update_all [] d p = refl
size_at-update_all ((q, n) ∷ cs) d p =
    size_at-update_all cs (insert q n d) p ∙ overlay_cong cs _ _ (λ r. size_at-insert q n r d) p

-- The sizes on the two sides of the venue's book.
pub record VenueBook : Type 0 where
  pub bids : ℕ → ℕ
  pub asks : ℕ → ℕ

-- The two sides are those of the venue.
abbrev pub SameSizes : Levels → Levels → VenueBook → Type 0
SameSizes bids asks book = (r : ℕ) → (size_at bids r ≡ book.bids r) × (size_at asks r ≡ book.asks r)

-- A venue: its book after each update identifier, and the prices in the range of every snapshot of it
-- that is taken.
pub record Venue : Type 0 where
  pub book : ℕ → VenueBook
  pub is_covered_price : ℕ → Bool

-- The two sides are those of the venue at every price in that range.
abbrev pub SameInRange : Levels → Levels → Venue → ℕ → Type 0
SameInRange bids asks venue n =
    (r : ℕ)
    → venue.is_covered_price r ≡ true
    → (size_at bids r ≡ (venue.book n).bids r) × (size_at asks r ≡ (venue.book n).asks r)

-- A snapshot gives the sizes of the prices in that range, and need not give others.
abbrev pub ShowsRange : List (ℕ × ℕ) → List (ℕ × ℕ) → Venue → ℕ → Type 0
ShowsRange bids asks venue n =
    (r : ℕ)
    → venue.is_covered_price r ≡ true
    → (overlay bids (λ q. 0) r ≡ (venue.book n).bids r)
      × (overlay asks (λ q. 0) r ≡ (venue.book n).asks r)

-- The book of the venue after each identifier.
module _ (venue : ℕ → VenueBook) where
  -- Absolute sizes that lead from one book to that after an identifier.
  abbrev pub Leads : List (ℕ × ℕ) → List (ℕ × ℕ) → (ℕ → ℕ) → (ℕ → ℕ) → ℕ → Type 0
  Leads bids asks from_bids from_asks n =
      (r : ℕ)
      → (overlay bids from_bids r ≡ (venue n).bids r)
        × (overlay asks from_asks r ≡ (venue n).asks r)

  pub apply_levels-Leads :
      (new_bids new_asks : List (ℕ × ℕ)) (bids asks : Levels) (m n : ℕ)
      → SameSizes bids asks (venue m)
      → Leads new_bids new_asks (venue m).bids (venue m).asks n
      → SameSizes (apply_levels new_bids bids) (apply_levels new_asks asks) (venue n)
  apply_levels-Leads new_bids new_asks bids asks m n same leads r = (
    size_at-apply_levels new_bids bids r
        ∙ overlay_cong new_bids _ _ (λ q. (same q).0) r
        ∙ (leads r).0,
    size_at-apply_levels new_asks asks r
        ∙ overlay_cong new_asks _ _ (λ q. (same q).1) r
        ∙ (leads r).1,
  )

  pub update_all-Leads :
      (bids asks : List (ℕ × ℕ)) (n : ℕ)
      → Leads bids asks (λ r. 0) (λ r. 0) n
      → SameSizes (update_all bids []) (update_all asks []) (venue n)
  unfolding size_at lookup
  update_all-Leads bids asks n leads r =
      (size_at-update_all bids [] r ∙ (leads r).0, size_at-update_all asks [] r ∙ (leads r).1)

pub apply_levels-SameInRange :
    (venue : Venue) (new_bids new_asks : List (ℕ × ℕ)) (bids asks : Levels) (m n : ℕ)
    → SameInRange bids asks venue m
    → Leads venue.book new_bids new_asks (venue.book m).bids (venue.book m).asks n
    → SameInRange (apply_levels new_bids bids) (apply_levels new_asks asks) venue n
apply_levels-SameInRange venue new_bids new_asks bids asks m n same leads r seen = (
  size_at-apply_levels new_bids bids r ∙ overlay_at new_bids _ _ r (same r seen).0 ∙ (leads r).0,
  size_at-apply_levels new_asks asks r ∙ overlay_at new_asks _ _ r (same r seen).1 ∙ (leads r).1,
)

pub update_all-SameInRange :
    (venue : Venue) (bids asks : List (ℕ × ℕ)) (n : ℕ)
    → ShowsRange bids asks venue n
    → SameInRange (update_all bids []) (update_all asks []) venue n
unfolding size_at lookup
update_all-SameInRange venue bids asks n shows r seen = (
  size_at-update_all bids [] r ∙ (shows r seen).0,
  size_at-update_all asks [] r ∙ (shows r seen).1,
)
