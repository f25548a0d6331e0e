-- ===== src/Data/Okx/Clocks.antt =====
-- When the messages of the two exchanges pass their normalization: the time of receipt.
use polymarket_btc.Prelude.{
  Bool-cases, ◌+ℤ◌, ltb_ℤ, ℤ, is_ok, bind-ok, ok-inj, Result, nat_eq, string_eq, pair_eq,
  str_is_empty, pos, ok, err, ℕ, String, ◌≡◌, refl, ap, ◌∙◌, inl, inr, Bool, false, not, ◌&&◌,
  Option, none, some, arith, str_eq, eq_iff,
}
use polymarket_btc.Data.Events.{make_event, precedes_receipt, has_text-not_empty, make_event-is_ok}
use polymarket_btc.Data.Books.{DepthError, bad_source}
use polymarket_btc.Data.Okx.{
  Action, is_other, Payload, Message, require_source, message_of, nonnegative, signed_integer,
  levels, available_time, normalize_okx_book_update, action_text,
}
use polymarket_btc.Data.Books.{timestamp_of}
use polymarket_btc.Prelude.Digits.{show, text_append, has_text_append, has_text-show}

-- The local clock shows a time before the one that the exchange gave.
abbrev pub is_before : Option ℤ → ℤ → Bool
is_before none source_ts = false
is_before (some receive_ts) source_ts = ltb_ℤ receive_ts source_ts

is_ok-available_time :
    (source_ts : ℤ) (receive_ts : Option ℤ)
    → (not (ltb_ℤ (available_time source_ts receive_ts (pos 0)) source_ts)
        && not (precedes_receipt (available_time source_ts receive_ts (pos 0)) receive_ts))
      ≡ not (is_before receive_ts source_ts)
unfolding available_time precedes_receipt ◌+ℤ◌
is_ok-available_time source_ts none = ground arith
is_ok-available_time source_ts (some receive_ts) = ground arith

require_source-nonempty :
    (source : String) (u : Unit) → require_source source ≡ ok u → str_is_empty source ≡ false
unfolding require_source
require_source-nonempty source u h = elim (Bool-cases (str_eq source "okx_spot")) [
  | inl spot ↦ rw ((eq_iff source "okx_spot").0 spot) refl
  | inr other ↦ elim (Bool-cases (str_eq source "okx_swap")) [
    | inl swap ↦ rw ((eq_iff source "okx_swap").0 swap) refl
    | inr neither ↦ absurd (refused (rw (other, neither) at h))
  ]
]
  where
    refused : ◌≡◌ {A = Result DepthError Unit} (err bad_source) (ok tt) → ⊥
    refused e = cc

-- The texts of the event are there, so that only its times can refuse it.
event-is_ok :
    (source_ts : ℤ) (receive_ts : Option ℤ) (action : Action) (sequence : ℕ)
    (source instrument : String)
    → str_is_empty source ≡ false
    → str_is_empty instrument ≡ false
    → is_ok (
        make_event (record {
          source_ts = source_ts;
          collector_receive_ts = receive_ts;
          available_ts = available_time source_ts receive_ts (pos 0);
          sequence_or_hash = text_append (action_text action) (show sequence);
          source = source;
          instrument = instrument;
          schema_version = "okx-books-v1";
          ingest_version = "btc-short-horizon-v1";
        }))
      ≡ not (is_before receive_ts source_ts)
event-is_ok source_ts receive_ts action sequence source instrument hs hi =
    make_event-is_ok _
      (has_text-not_empty _
        (has_text_append (action_text action) (show sequence) (has_text-show sequence)))
      hs hi refl refl
    ∙ is_ok-available_time source_ts receive_ts

-- For a source, an action and an instrument that are allowed, and a payload that the synchronizer can
-- read: `normalize_okx_book_update` returns an event exactly if the local clock, where there is a time
-- of receipt, does not show a time before the one that the exchange gave.
pub normalize_okx_book_update-is_ok :
    (p : Payload) (action : Action) (instrument source : String) (receive_ts : Option ℤ)
    (m : Message)
    → require_source source ≡ ok tt
    → is_other action ≡ false
    → str_is_empty instrument ≡ false
    → message_of p ≡ ok m
    → is_ok (normalize_okx_book_update p action instrument receive_ts source)
      ≡ not (is_before receive_ts m.source_ts)
unfolding normalize_okx_book_update message_of
normalize_okx_book_update-is_ok p action instrument source receive_ts m hs ha hi h =
    let (sequence, h1, r1) = bind-ok (nonnegative p.sequence) _ h in
    let (previous, h2, r2) = bind-ok (signed_integer p.previous_sequence) _ r1 in
    let (bids, h3, r3) = bind-ok (levels p.bids) _ r2 in
    let (asks, h4, r4) = bind-ok (levels p.asks) _ r3 in
    let (source_ts, h5, same) = bind-ok (timestamp_of p.ts) _ r4 in
    let time = ap (λ (x : Message). x.source_ts) (ok-inj same) in
    rw (hs, ha, hi, h1, h2, h3, h4, h5)
      (event-is_ok source_ts receive_ts action sequence source instrument
          (require_source-nonempty source tt hs) hi
        ∙ ap (λ t. not (is_before receive_ts t)) time)
