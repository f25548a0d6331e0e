-- ===== src/Data/Okx/Truth.antt =====
-- A synchronized book of OKX is the venue's: `OkxBookSynchronizer` against the history of the venue's
-- book that the messages tell of.
use polymarket_btc.Prelude.{
  if_holds, ℤ, All, bind-ok, raise_if-ok, ok-inj, Result, nat_eq, string_eq, pair_eq, str_is_empty,
  pos, ok, err, ℕ, String, ◌≡◌, refl, subst, true, Option, none, some, List, [], ◌∷◌, arith,
}
use polymarket_btc.Data.Books.{DepthError, DepthApplyResult}
use polymarket_btc.Data.Books.Views.{
  VenueBook, SameSizes, Leads, apply_levels-Leads, update_all-Leads,
}
use polymarket_btc.Data.Okx.{
  Action, snapshot, update, other_action, is_other, Synchronizer, new_synchronizer, require_source,
  reset, Message, message_of, applied_result, apply_snapshot, Verdict, is_heartbeat, is_covered,
  is_gap, is_next, verdict_of, act_on, update_after, apply_message, apply, Call, applies, resets,
  perform, perform_all,
}

verdict_of-is_next :
    (m : Message) (last : ℕ) → verdict_of m last ≡ is_next → m.previous_sequence ≡ pos last
unfolding verdict_of
verdict_of-is_next m last h = ground arith

-- The book of the venue after each sequence number.
module _ (venue : ℕ → VenueBook) where
  -- A snapshot has the sizes of the venue's book after its number. An update leads from the book after
  -- the number that it names as the previous one to the book after its own.
  abbrev pub IsTrueMessage : Action → Message → Type 0
  IsTrueMessage snapshot m = Leads venue m.new_bids m.new_asks (λ r. 0) (λ r. 0) m.sequence
  IsTrueMessage _ m =
      (n : ℕ)
      → m.previous_sequence ≡ pos n
      → Leads venue m.new_bids m.new_asks (venue n).bids (venue n).asks m.sequence

  -- What the venue sent: a message that cannot be read says nothing.
  abbrev pub IsTrueCall : Call → Type 0
  IsTrueCall (applies action p t) = (m : Message) → message_of p ≡ ok m → IsTrueMessage action m
  IsTrueCall resets = Unit

  -- The book is that of the venue after its last number.
  abbrev pub IsCurrent : Synchronizer → Type 0
  IsCurrent s = (n : ℕ) × (s.last_seq_id ≡ some n) × SameSizes s.bids s.asks (venue n)

  -- There is a book as soon as there is a number.
  abbrev IsFaithful : Synchronizer → Type 0
  IsFaithful s = (s.is_synchronized ≡ true → IsCurrent s)

  act_on-IsFaithful :
      (m : Message) (t : Option ℤ) (n : ℕ) (s : Synchronizer) (v : Verdict)
      → IsTrueMessage update m
      → s.last_seq_id ≡ some n
      → SameSizes s.bids s.asks (venue n)
      → verdict_of m n ≡ v
      → IsFaithful (act_on m t n s v).1
  unfolding act_on applied_result
  act_on-IsFaithful m t n s is_heartbeat d e same h on = (n, e, same)
  act_on-IsFaithful m t n s is_covered d e same h on = (n, e, same)
  act_on-IsFaithful m t n s is_gap d e same h on = cc
  act_on-IsFaithful m t n s is_next d e same h on = (
    m.sequence,
    refl,
    apply_levels-Leads venue m.new_bids m.new_asks s.bids s.asks n m.sequence same
        (d n (verdict_of-is_next m n h)),
  )

  update_after-IsFaithful :
      (m : Message) (t : Option ℤ) (s : Synchronizer) (last : Option ℕ)
      → IsTrueMessage update m
      → s.last_seq_id ≡ last
      → IsFaithful s
      → IsFaithful (update_after m t last s).1
  unfolding update_after
  update_after-IsFaithful m t s none d e v = v
  update_after-IsFaithful m t s (some n) d e v =
      if_holds {A = Result DepthError DepthApplyResult × Synchronizer} (λ y. IsFaithful y.1)
        s.is_synchronized
        (λ on.
          let (n', e', same) = v on in
          let at_n : n' ≡ n = ground arith in
          act_on-IsFaithful m t n s (verdict_of m n) d e
            (subst (λ k. SameSizes s.bids s.asks (venue k)) at_n same) refl)
        (λ _. v)

  apply_message-IsFaithful :
      (action : Action) (t : Option ℤ) (s : Synchronizer) (x : Result DepthError Message)
      → ((m : Message) → x ≡ ok m → IsTrueMessage action m)
      → IsFaithful s
      → IsFaithful (apply_message action t s x).1
  unfolding apply_message apply_snapshot applied_result
  apply_message-IsFaithful snapshot t s (err e) d v = v
  apply_message-IsFaithful update t s (err e) d v = v
  apply_message-IsFaithful other_action t s (err e) d v = v
  apply_message-IsFaithful snapshot t s (ok m) d v =
      λ _. (m.sequence, refl, update_all-Leads venue m.new_bids m.new_asks m.sequence (d m refl))
  apply_message-IsFaithful update t s (ok m) d v =
      update_after-IsFaithful m t s s.last_seq_id (d m refl) refl v
  apply_message-IsFaithful other_action t s (ok m) d v =
      update_after-IsFaithful m t s s.last_seq_id (d m refl) refl v

  perform-IsFaithful :
      (c : Call) (s : Synchronizer) → IsTrueCall c → IsFaithful s → IsFaithful (perform c s)
  unfolding perform apply reset
  perform-IsFaithful (applies action p t) s d v =
      if_holds {A = Result DepthError DepthApplyResult × Synchronizer} (λ y. IsFaithful y.1)
        (is_other action) (λ _. v) (λ _. apply_message-IsFaithful action t s (message_of p) d v)
  perform-IsFaithful resets s d v = λ h. cc

  perform_all-IsFaithful :
      (cs : List Call) (s : Synchronizer)
      → All IsTrueCall cs
      → IsFaithful s
      → IsFaithful (perform_all cs s)
  unfolding perform_all
  perform_all-IsFaithful [] s d v = v
  perform_all-IsFaithful (c ∷ cs) s d v =
      perform_all-IsFaithful cs (perform c s) d.1 (perform-IsFaithful c s d.0 v)

  new_synchronizer-IsFaithful :
      (instrument source : String) (s : Synchronizer)
      → new_synchronizer instrument source ≡ ok s
      → IsFaithful s
  unfolding new_synchronizer
  new_synchronizer-IsFaithful instrument source s h =
      let (b, h') = raise_if-ok (str_is_empty instrument) _ _ h in
      let (u, hu, same) = bind-ok (require_source source) _ h' in
      subst IsFaithful (ok-inj same) (λ e. cc)

  -- From a new synchronizer of OKX, after any messages and resets in any order, of which every one that
  -- can be read is one that the venue sent, lost and repeated ones included: while it says that it is
  -- synchronized, its book is the venue's book after its last number, on both sides and at every price.
  pub perform_all-IsCurrent :
      (instrument source : String) (s : Synchronizer) (cs : List Call)
      → new_synchronizer instrument source ≡ ok s
      → All IsTrueCall cs
      → (perform_all cs s).is_synchronized ≡ true
      → IsCurrent (perform_all cs s)
  perform_all-IsCurrent instrument source s cs new d =
      perform_all-IsFaithful cs s d (new_synchronizer-IsFaithful instrument source s new)
