-- ===== src/Research/WalkForward/Folds.antt =====
-- btc_short_horizon/research/walk_forward.py: no fold looks into its future, and the loop ends.
use polymarket_btc.Prelude.{
  Bool-cases, if_holds, ◌+ℤ◌, ◌-ℤ◌, ◌≤ℤ◌, leb_ℤ, +ℤ_parts, int_laws, ℤ, All, ◌>>=◌, bind-ok, Result,
  string_eq, pair_eq, pos, ok, err, ℕ, zero, suc, ◌≡◌, refl, ◌∙◌, ◌≢◌, ◌⊎◌, inl, inr, true, false,
  none, some, List, [], ◌∷◌, arith,
}
use polymarket_btc.Research.WalkForward.{
  WalkForwardError, out_of_fuel, WalkForwardConfig, Entry, WalkForwardFold, make_fold, groups_from,
  belongs,
}
use polymarket_btc.Research.WalkForward.Plan.{Development, fold_at, is_kept, with_fold, folds_from}
use polymarket_btc.Research.WalkForward.Groups.{partition_indices-All}

-- The samples of each partition lie in its bounds, the labels of training and calibration were
-- available when the partition ended, an embargo separates the partitions, and the test ends before
-- the sealed holdout.
pub record IsCausal (c : WalkForwardConfig) (sealed : ℤ) (f : WalkForwardFold) : Type 0 where
  pub train :
      All (λ (e : Entry). belongs f.train_start f.train_end (some f.train_end) e ≡ true) f.train
  pub calibration :
      All
        (λ (e : Entry).
          belongs f.calibration_start f.calibration_end (some f.calibration_end) e ≡ true)
        f.calibration
  pub test : All (λ (e : Entry). belongs f.test_start f.test_end none e ≡ true) f.test
  pub first_embargo : f.train_end +ℤ c.embargo_duration ≤ℤ f.calibration_start
  pub second_embargo : f.calibration_end +ℤ c.embargo_duration ≤ℤ f.test_start
  pub before_holdout : f.test_end ≤ℤ sealed

made_fold : (f g : WalkForwardFold) → make_fold f ≡ ok g → g ≡ f
unfolding make_fold
made_fold f g h = ground arith

sub_add : (a b : ℤ) → a -ℤ b +ℤ b ≤ℤ a
sub_add a b = omega int_laws

make_fold-out_of_fuel : (f : WalkForwardFold) → make_fold f ≢ err out_of_fuel
unfolding make_fold
make_fold-out_of_fuel f h = ground arith

ended : ◌≢◌ {A = Result WalkForwardError (List WalkForwardFold)} (ok []) (err out_of_fuel)
ended h = ground arith

unmade :
    (r : Result WalkForwardError (List WalkForwardFold)) (m : WalkForwardFold)
    → (r >>= λ fs. ok (m ∷ fs)) ≡ err out_of_fuel
    → r ≡ err out_of_fuel
unmade (ok fs) m h = absurd (ground arith)
unmade (err e) m h = let same : e ≡ out_of_fuel = ground arith in rw same refl

after_made :
    (made : Result WalkForwardError WalkForwardFold)
    (later : ℕ → Result WalkForwardError (List WalkForwardFold)) (number : ℕ)
    → ((n : ℕ) → later n ≢ err out_of_fuel)
    → made ≢ err out_of_fuel
    → (made >>= λ m. later (suc number) >>= λ fs. ok (m ∷ fs)) ≢ err out_of_fuel
after_made (err e) later number ends fine h =
    fine (let same : e ≡ out_of_fuel = ground arith in rw same refl)
after_made (ok m) later number ends fine h = ends (suc number) (unmade (later (suc number)) m h)

past_end : (t d sealed : ℤ) → pos 1 ≤ℤ d → sealed ≤ℤ t +ℤ pos 0 → leb_ℤ (t +ℤ d) sealed ≡ false
past_end t d sealed h k =
    let above : sealed +ℤ pos 1 ≤ℤ t +ℤ d = omega int_laws in
    ground (arith, above, +ℤ_parts sealed (pos 1))

step_on :
    (d t sealed : ℤ) (fuel : ℕ)
    → pos 1 ≤ℤ d
    → sealed ≤ℤ t +ℤ pos (suc fuel)
    → sealed ≤ℤ t +ℤ d +ℤ pos fuel
step_on d t sealed fuel h k = omega int_laws

module _ (c : WalkForwardConfig) (dev : Development) where
  fold_at-IsCausal :
      (number : ℕ) (test_start : ℤ)
      → dev.groups ≡ groups_from [] dev.entries
      → leb_ℤ (test_start +ℤ c.test_duration) dev.sealed_holdout_start ≡ true
      → IsCausal c dev.sealed_holdout_start (fold_at c dev number test_start)
  unfolding fold_at
  fold_at-IsCausal number test_start g h =
      let taken = partition_indices-All dev.entries in
      rw g (record {
        train = taken _ _ _;
        calibration = taken _ _ _;
        test = taken _ _ _;
        first_embargo =
            sub_add (test_start -ℤ c.embargo_duration -ℤ c.calibration_duration) c.embargo_duration;
        second_embargo = sub_add test_start c.embargo_duration;
        before_holdout = ground arith;
      })

  with_fold-ok :
      (f : WalkForwardFold) (later : ℕ → Result WalkForwardError (List WalkForwardFold))
      (number : ℕ) (fs : List WalkForwardFold)
      → with_fold c dev f later number ≡ ok fs
      → (later number ≡ ok fs)
        ⊎ ((rest : List WalkForwardFold) × (later (suc number) ≡ ok rest) × (fs ≡ f ∷ rest))
  unfolding with_fold
  with_fold-ok f later number fs h = elim (Bool-cases (is_kept c dev f)) [
    | inl kept ↦
        let (made, eq, next) = bind-ok (make_fold f) _ (rw kept at h) in
        let (rest, eq', last) = bind-ok (later (suc number)) _ next in
        let e : fs ≡ made ∷ rest = ground arith in
        inr (rest, eq', e ∙ rw (made_fold f made eq) refl)
    | inr skipped ↦ inl (rw skipped at h)
  ]

  pub folds_from-IsCausal :
      (fuel : ℕ) (test_start : ℤ) (number : ℕ) (fs : List WalkForwardFold)
      → dev.groups ≡ groups_from [] dev.entries
      → folds_from c dev fuel test_start number ≡ ok fs
      → All (IsCausal c dev.sealed_holdout_start) fs
  unfolding folds_from
  folds_from-IsCausal zero test_start number fs g h =
      if_holds
        (λ (r : Result WalkForwardError (List WalkForwardFold)).
          r ≡ ok fs → All (IsCausal c dev.sealed_holdout_start) fs)
        (leb_ℤ (test_start +ℤ c.test_duration) dev.sealed_holdout_start)
        (λ _ q. absurd (ground arith)) (λ _ q. let e : fs ≡ [] = ground arith in rw e tt) h
  folds_from-IsCausal (suc fuel) test_start number fs g h =
      elim (Bool-cases (leb_ℤ (test_start +ℤ c.test_duration) dev.sealed_holdout_start)) [
        | inl inside ↦
            elim (with_fold-ok (fold_at c dev number test_start)
              (folds_from c dev fuel (test_start +ℤ c.step_duration)) number fs (rw inside at h)) [
                | inl skipped ↦
                    folds_from-IsCausal fuel (test_start +ℤ c.step_duration) number fs g skipped
                | inr (rest, eq, same) ↦ rw same (
                  fold_at-IsCausal number test_start g inside,
                  folds_from-IsCausal fuel (test_start +ℤ c.step_duration) (suc number) rest g eq,
                )
              ]
        | inr past ↦ let e : fs ≡ [] = ground arith in rw e tt
      ]

  with_fold-out_of_fuel :
      (f : WalkForwardFold) (later : ℕ → Result WalkForwardError (List WalkForwardFold))
      (number : ℕ)
      → ((n : ℕ) → later n ≢ err out_of_fuel)
      → with_fold c dev f later number ≢ err out_of_fuel
  unfolding with_fold
  with_fold-out_of_fuel f later number ends h = elim (Bool-cases (is_kept c dev f)) [
    | inl kept ↦ after_made (make_fold f) later number ends (make_fold-out_of_fuel f) (rw kept at h)
    | inr skipped ↦ ends number (rw skipped at h)
  ]

  -- The fuel covers the distance to the holdout, since a step takes at least one unit.
  pub folds_from-ends :
      (fuel : ℕ) (test_start : ℤ) (number : ℕ)
      → pos 1 ≤ℤ c.step_duration
      → pos 1 ≤ℤ c.test_duration
      → dev.sealed_holdout_start ≤ℤ test_start +ℤ pos fuel
      → folds_from c dev fuel test_start number ≢ err out_of_fuel
  unfolding folds_from
  folds_from-ends zero test_start number s t d h =
      let past : leb_ℤ (test_start +ℤ c.test_duration) dev.sealed_holdout_start ≡ false =
        past_end test_start c.test_duration dev.sealed_holdout_start t d in
      ended (rw past at h)
  folds_from-ends (suc fuel) test_start number s t d h =
      elim (Bool-cases (leb_ℤ (test_start +ℤ c.test_duration) dev.sealed_holdout_start)) [
        | inl inside ↦
            with_fold-out_of_fuel (fold_at c dev number test_start)
              (folds_from c dev fuel (test_start +ℤ c.step_duration)) number
              (λ n.
                folds_from-ends fuel (test_start +ℤ c.step_duration) n s t
                  (step_on c.step_duration test_start dev.sealed_holdout_start fuel s d))
              (rw inside at h)
        | inr past ↦ ended (rw past at h)
      ]
