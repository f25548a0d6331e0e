-- ===== src/Data/Binance/Scenario.antt =====
-- A snapshot of Binance and an update that follows it, and the venue's books that they tell of.
use polymarket_btc.Prelude.{
  leb, ◌==◌, if◌then◌else◌, ok-inj, nat_eq, string_eq, pair_eq, pos, fin, ℕ, ◌+◌, ◌≤◌, ◌≡◌, refl,
  sym, subst, none, some, List, [], ◌∷◌, arith,
}
use polymarket_btc.Data.Books.{finite_of, RawLevel, row, rows}
use polymarket_btc.Data.Books.Views.{Venue, overlay}
use polymarket_btc.Data.Binance
use polymarket_btc.Data.Binance.{Payload, nonnegative_int, levels}
use polymarket_btc.Data.Binance.Truth.{IsTrueDelta, IsTrueSnapshot}

abbrev pub raw : ℕ → ℕ → RawLevel
raw price size = row (some (fin (pos price)) ∷ some (fin (pos size)) ∷ [])

-- A payload with nothing in it.
abbrev pub no_payload : Payload
no_payload = record {
  symbol = some "BTCUSDT";
  first_update_id = none;
  final_update_id = none;
  last_update_id = none;
  previous_final = none;
  bids = none;
  asks = none;
  b = none;
  a = none;
  transaction_time = none;
  event_time = some (some (pos 1_000));
}

abbrev pub snapshot_at_5 : Payload
snapshot_at_5 = record no_payload {
  last_update_id = some (pos 5);
  bids = some (rows (raw 100 5 ∷ []));
  asks = some (rows (raw 200 7 ∷ []));
}

-- The identifiers 6 and 7: the bid at 100 goes, and one at 99 comes.
abbrev pub delta_to_7 : Payload
delta_to_7 = record no_payload {
  first_update_id = some (pos 6);
  final_update_id = some (pos 7);
  b = some (rows (raw 100 0 ∷ raw 99 3 ∷ []));
}

abbrev pub venue_bids : ℕ → ℕ → ℕ
venue_bids n p = if leb n 5 then (if p == 100 then 5 else 0) else (if p == 99 then 3 else 0)

abbrev pub venue_asks : ℕ → ℕ
venue_asks p = if p == 200 then 7 else if p == 900 then 4 else 0

-- The snapshot stops before the ask at 900.
abbrev pub venue : Venue
venue = record {
  book = λ n. record { bids = venue_bids n; asks = venue_asks };
  is_covered_price = λ p. leb p 500;
}

delta-bids :
    (final n r : ℕ)
    → final ≡ 7
    → n + 1 ≤ final
    → overlay ((100, 0) ∷ (99, 3) ∷ []) (venue_bids n) r ≡ venue_bids final r
delta-bids final n r e h = ground arith

pub delta-IsTrueDelta : IsTrueDelta venue delta_to_7
unfolding levels Binance.levels_of_rows Binance.level_of finite_of nonnegative_int
delta-IsTrueDelta = record {
  new_bids = (100, 0) ∷ (99, 3) ∷ [];
  new_asks = [];
  bids_read = refl;
  asks_read = refl;
  leads = λ first final n hf hl lo hi r. (delta-bids final n r (sym (ok-inj hl)) hi, refl);
}

pub snapshot-IsTrueSnapshot : IsTrueSnapshot venue snapshot_at_5
unfolding Binance.snapshot_parts levels Binance.levels_of_rows Binance.level_of finite_of
    nonnegative_int
snapshot-IsTrueSnapshot n bids asks h r seen =
    subst
      (λ (x : ℕ × List (ℕ × ℕ) × List (ℕ × ℕ)).
        (overlay x.1 (λ q. 0) r ≡ venue_bids x.0 r) × (overlay x.2 (λ q. 0) r ≡ venue_asks r))
      (ok-inj h) (ground (arith, seen), ground (arith, seen))
