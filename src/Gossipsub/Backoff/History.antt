-- ===== src/Gossipsub/Backoff/History.antt =====
-- A backoff of protocols/gossipsub/src/backoff.rs lasts as long as it was set for.
use libp2p_rs.Common.{
  ℕ, ◌+◌, ◌≤◌, ◌<◌, ◌≡◌, refl, sym, ◌∙◌, ap, true, false, Option, none, some, List, [], ◌∷◌, ◌==◌,
  ◌&&◌, ltb, get_elem?, All, Bool-cases, Option-cases, inl, inr, arith, lt→ltb, ltb→lt,
  ltb_false→le, true≢false, none_not_some, some_injective,
}
use libp2p_rs.Gossipsub.Backoff.{
  Backoffs, BackoffStorage, backoff_of, put_backoff, update_occupied, update_backoff,
  record_backoff, is_backoff_with_slack, get_backoff_time, erase, is_kept, sweep_pairs, sweep_slot,
  heartbeat,
}
use libp2p_rs.Gossipsub.Backoff.Entries.{
  backoff_of-put, backoff_of-erase, get_backoff_time_lem, is_backoff_with_slack_lem,
}

-- The backoff of a topic and a peer is not over before a time.
pub record Lasts (t p until : ℕ) (bs : Backoffs) : Type 0 where
  pub backoff : ℕ
  pub index : ℕ
  pub here : backoff_of t p bs ≡ some (backoff, index)
  pub long : until ≤ backoff

Lasts-same :
    (t p until : ℕ) (bs cs : Backoffs)
    → backoff_of t p cs ≡ backoff_of t p bs
    → Lasts t p until bs
    → Lasts t p until cs
Lasts-same t p until bs cs e h = record {
  backoff = h.backoff;
  index = h.index;
  here = e ∙ h.here;
  long = h.long;
}

pub data Call : Type 0 where
  updates : (now topic peer time : ℕ) → Call
  heartbeats_at : (now : ℕ) → Call

unfoldable pub call : BackoffStorage → Call → BackoffStorage
call s (updates now topic peer time) = update_backoff s now topic peer time
call s (heartbeats_at now) = heartbeat s now

unfoldable pub run : BackoffStorage → List Call → BackoffStorage
run s [] = s
run s (c ∷ cs) = run (call s c) cs

-- A heartbeat comes before the time.
unfoldable pub IsBefore : ℕ → Call → Type 0
IsBefore until (updates now topic peer time) = Unit
IsBefore until (heartbeats_at now) = now < until

module _ (t p until : ℕ) where
  put-Lasts :
      (u q b i : ℕ) (bs : Backoffs)
      → ((t == u && p == q) ≡ true → until ≤ b)
      → Lasts t p until bs
      → Lasts t p until (put_backoff u q (b, i) bs)
  put-Lasts u q b i bs f h = elim (Bool-cases (t == u && p == q)) [
    | inl e ↦ record {
      backoff = b;
      index = i;
      here = backoff_of-put t p u q (b, i) bs ∙ rw e refl;
      long = f e;
    }
    | inr e ↦ Lasts-same t p until bs _ (backoff_of-put t p u q (b, i) bs ∙ rw e refl) h
  ]

  -- The entry of an equal topic and peer.
  same_entry :
      (u q : ℕ) (bs : Backoffs) → (t == u && p == q) ≡ true → backoff_of u q bs ≡ backoff_of t p bs
  same_entry u q bs e =
      let one : u ≡ t = ground (arith, e) in
      let two : q ≡ p = ground (arith, e) in
      ap (λ (k : ℕ). backoff_of k q bs) one ∙ ap (λ (k : ℕ). backoff_of t k bs) two

  update_occupied-Lasts :
      (s : BackoffStorage) (u q instant time : ℕ) (o : Option (ℕ × ℕ))
      → backoff_of u q s.backoffs ≡ o
      → Lasts t p until s.backoffs
      → Lasts t p until (update_occupied s u q instant time o).backoffs
  unfolding update_occupied record_backoff
  update_occupied-Lasts s u q instant time none at h =
      put-Lasts u q instant _ s.backoffs
        (λ e. absurd (none_not_some _ (sym at ∙ same_entry u q s.backoffs e ∙ h.here))) h
  update_occupied-Lasts s u q instant time (some (b, i)) at h = elim (Bool-cases (ltb b instant)) [
    | inl l ↦
        rw (l, update_occupied)
          (put-Lasts u q instant _ s.backoffs
            (λ e.
              let same = some_injective _ _ (sym at ∙ same_entry u q s.backoffs e ∙ h.here) in
              omega (arith, ltb→lt b instant l, h.long, ap (λ x. x.0) same))
            h)
    | inr l ↦ rw (l, update_occupied) h
  ]

  kept_entry :
      (now slack u q : ℕ) (bs : Backoffs)
      → now < until
      → is_kept now slack (get_backoff_time bs u q) ≡ false
      → Lasts t p until bs
      → (t == u && p == q) ≡ false
  unfolding is_kept
  kept_entry now slack u q bs early k h = elim (Bool-cases (t == u && p == q)) [
    | inl e ↦
        let time : get_backoff_time bs u q ≡ some h.backoff =
          get_backoff_time_lem u q bs ∙ rw (same_entry u q bs e, h.here) refl in
        absurd (
          true≢false (
            sym (lt→ltb now (h.backoff + slack) (omega (arith, early, h.long)))
            ∙ sym (ap (is_kept now slack) time)
            ∙ k))
    | inr e ↦ e
  ]

  sweep_pairs-Lasts :
      (now slack : ℕ) (xs : List (ℕ × ℕ)) (bs : Backoffs)
      → now < until
      → Lasts t p until bs
      → Lasts t p until (sweep_pairs now slack xs bs).1
  unfolding sweep_pairs
  sweep_pairs-Lasts now slack [] bs early h = h
  sweep_pairs-Lasts now slack ((u, q) ∷ xs) bs early h =
      elim (Bool-cases (is_kept now slack (get_backoff_time bs u q))) [
        | inl k ↦ rw (k, sweep_pairs) (sweep_pairs-Lasts now slack xs bs early h)
        | inr k ↦
            rw (k, sweep_pairs)
              (sweep_pairs-Lasts now slack xs (erase u q bs) early (
                Lasts-same t p until bs (erase u q bs)
                  (backoff_of-erase t p u q bs ∙ rw (kept_entry now slack u q bs early k h) refl)
                  h))
      ]

  heartbeat-Lasts :
      (s : BackoffStorage) (now : ℕ)
      → now < until
      → Lasts t p until s.backoffs
      → Lasts t p until (heartbeat s now).backoffs
  unfolding heartbeat sweep_slot
  heartbeat-Lasts s now early h =
      elim (Option-cases (get_elem? s.backoffs_by_heartbeat s.heartbeat_index)) [
        | inl e ↦ rw (e, sweep_slot) h
        | inr (slot, e) ↦ rw (e, sweep_slot) (sweep_pairs-Lasts now _ slot s.backoffs early h)
      ]

  run-Lasts :
      (s : BackoffStorage) (cs : List Call)
      → All (IsBefore until) cs
      → Lasts t p until s.backoffs
      → Lasts t p until (run s cs).backoffs
  unfolding run call IsBefore update_backoff
  run-Lasts s [] early h = h
  run-Lasts s (updates now u q time ∷ cs) early h =
      run-Lasts (update_backoff s now u q time) cs early.1
        (update_occupied-Lasts s u q (now + time) time _ refl h)
  run-Lasts s (heartbeats_at now ∷ cs) early h =
      run-Lasts (heartbeat s now) cs early.1 (heartbeat-Lasts s now early.0 h)

put-Lasts_here :
    (t p instant i : ℕ) (bs : Backoffs) → Lasts t p instant (put_backoff t p (instant, i) bs)
put-Lasts_here t p instant i bs = record {
  backoff = instant;
  index = i;
  here =
      backoff_of-put t p t p (instant, i) bs
      ∙ (let e : (t == t && p == p) ≡ true = ground arith in rw e refl);
  long = omega arith;
}

updated-Lasts :
    (s : BackoffStorage) (t p instant time : ℕ) (o : Option (ℕ × ℕ))
    → backoff_of t p s.backoffs ≡ o
    → Lasts t p instant (update_occupied s t p instant time o).backoffs
unfolding update_occupied record_backoff
updated-Lasts s t p instant time none at = put-Lasts_here t p instant _ s.backoffs
updated-Lasts s t p instant time (some (b, i)) at = elim (Bool-cases (ltb b instant)) [
  | inl l ↦ rw (l, update_occupied) (put-Lasts_here t p instant _ s.backoffs)
  | inr l ↦
      rw (l, update_occupied)
        (record { backoff = b; index = i; here = at; long = ltb_false→le b instant l })
]

-- Once a backoff of a topic and a peer is set at a time for a duration, then after any updates, of
-- this and of other backoffs, and any heartbeats before that time is over, the peer is still
-- backed off, until that time or later.
pub backoff-lasts :
    (s : BackoffStorage) (now t p time : ℕ) (cs : List Call)
    → All (IsBefore (now + time)) cs
    → let r = run (update_backoff s now t p time) cs in
      (is_backoff_with_slack r t p ≡ true)
      × ((b : ℕ) × ((get_backoff_time r.backoffs t p ≡ some b) × (now + time ≤ b)))
unfolding update_backoff
backoff-lasts s now t p time cs early =
    let h =
      run-Lasts t p (now + time) (update_backoff s now t p time) cs early
        (updated-Lasts s t p (now + time) time _ refl) in
    (
      is_backoff_with_slack_lem _ t p (h.backoff, h.index) h.here,
      (h.backoff, (get_backoff_time_lem t p _ ∙ rw h.here refl, h.long)),
    )
