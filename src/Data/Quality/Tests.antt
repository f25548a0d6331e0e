-- ===== src/Data/Quality/Tests.antt =====
-- btc_short_horizon/data/quality.py at concrete inputs.
use polymarket_btc.Prelude.{
  ◌-ℤ◌, string_eq, pair_eq, member, add, discard, pos, ok, ℕ, ◌+◌, String, ◌≡◌, refl, true, some,
  List, [], ◌∷◌,
}
use polymarket_btc.Data.Quality.{
  TimedMarketEvent, Validator, init, initial, after_gap, mark_gap, remember, stale_of, observe,
}
use polymarket_btc.Data.Quality.Invariant.{IsValid, init-IsValid, observe-IsValid}
use polymarket_btc.Data.Quality.Streams.{
  Input, event, gap_declared, feed_all, store_all, feed_all-IsValid, IsOrdered, store_all-IsOrdered,
}

-- A trade that was received 0.2 s after its time at the source.
abbrev trade : ℕ → String → TimedMarketEvent
trade t id = record {
  source_ts = pos t;
  collector_receive_ts = some (pos (t + 200_000));
  available_ts = pos (t + 200_000);
  sequence_or_hash = id;
  source = "binance";
  instrument = "btcusdt";
  schema_version = "1";
  ingest_version = "v6";
}

-- Two places in the window, and a second of transport delay.
abbrev new_validator : Validator
new_validator = initial (pos 2) (pos 1_000_000)

init_new : init (pos 2) (pos 1_000_000) ≡ ok new_validator
unfolding init
init_new = refl

new_validator-IsValid : IsValid new_validator
new_validator-IsValid = init-IsValid (pos 2) (pos 1_000_000) init_new

-- A duplicate and a regression are not stored; the regression and the gap each start an epoch.
abbrev stream : List Input
stream =
    event (trade 1_000_000 "a")
    ∷ event (trade 2_000_000 "b")
    ∷ event (trade 2_000_000 "b")
    ∷ event (trade 1_500_000 "c")
    ∷ event (trade 1_600_000 "d")
    ∷ gap_declared "disconnect"
    ∷ event (trade 1_700_000 "e")
    ∷ []

stream_stored :
    store_all stream new_validator
    ≡ (0, pos 1_200_000) ∷ (0, pos 2_200_000) ∷ (1, pos 1_800_000) ∷ (2, pos 1_900_000) ∷ []
unfolding store_all observe remember mark_gap after_gap stale_of member add discard ◌-ℤ◌ pair_eq
stream_stored = refl

observe-IsValid_example : IsValid (observe (trade 0 "a") new_validator).1
observe-IsValid_example = observe-IsValid (trade 0 "a") new_validator new_validator-IsValid

feed_all-IsValid_example : IsValid (feed_all stream new_validator)
feed_all-IsValid_example = feed_all-IsValid stream new_validator new_validator-IsValid

store_all-IsOrdered_example : IsOrdered (store_all stream new_validator)
store_all-IsOrdered_example = store_all-IsOrdered stream new_validator

first_accepted : (observe (trade 0 "a") new_validator).0.is_accepted ≡ true
unfolding observe remember stale_of member
first_accepted = refl
