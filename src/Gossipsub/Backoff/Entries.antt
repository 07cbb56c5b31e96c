-- ===== src/Gossipsub/Backoff/Entries.antt =====
-- The backoffs of protocols/gossipsub/src/backoff.rs as a map of topics and peers.
use libp2p_rs.Common.{
  ℕ, ◌≡◌, refl, sym, ◌∙◌, ap, Bool, true, false, Option, none, some, List, [], ◌∷◌, ◌==◌, ◌&&◌,
  if◌then◌else◌, Bool-cases, Option-cases, inl, inr, arith, true≢false,
}
use libp2p_rs.Common.Map
use libp2p_rs.Gossipsub.Backoff.{
  Backoffs, BackoffStorage, peers_of, backoff_of, put_backoff, is_backoff_with_slack,
  get_backoff_time, no_peers, erase,
}

peers_of-insert :
    (t u : ℕ) (m : List (ℕ × (ℕ × ℕ))) (bs : Backoffs)
    → peers_of t (Map.insert u m bs) ≡ (if t == u then m else peers_of t bs)
unfolding peers_of
peers_of-insert t u m bs = ground (arith, Map.get-insert t u m bs)

peers_of-remove :
    (t u : ℕ) (bs : Backoffs)
    → peers_of t (Map.remove u bs) ≡ (if t == u then [] else peers_of t bs)
unfolding peers_of
peers_of-remove t u bs = ground (arith, Map.get-remove t u bs)

same_topic : (t u : ℕ) (bs : Backoffs) → (t == u) ≡ true → peers_of t bs ≡ peers_of u bs
same_topic t u bs h = ap (λ k. peers_of k bs) (ground (arith, h))

-- One topic's peers are replaced, and the entry of one peer with them.
topic_replaced :
    (t p u q : ℕ) (m : List (ℕ × (ℕ × ℕ))) (o : Option (ℕ × ℕ)) (bs cs : Backoffs)
    → peers_of t cs ≡ (if t == u then m else peers_of t bs)
    → Map.get p m ≡ (if p == q then o else Map.get p (peers_of u bs))
    → backoff_of t p cs ≡ (if t == u && p == q then o else backoff_of t p bs)
unfolding backoff_of
topic_replaced t p u q m o bs cs h g = ap (Map.get p) h ∙ elim (Bool-cases (t == u)) [
  | inl e ↦ rw e (g ∙ ap (λ ps. if p == q then o else Map.get p ps) (sym (same_topic t u bs e)))
  | inr e ↦ rw e refl
]

pub backoff_of-put :
    (t p u q : ℕ) (e : ℕ × ℕ) (bs : Backoffs)
    → backoff_of t p (put_backoff u q e bs)
      ≡ (if t == u && p == q then some e else backoff_of t p bs)
unfolding put_backoff
backoff_of-put t p u q e bs =
    topic_replaced t p u q (Map.insert q e (peers_of u bs)) (some e) bs _
      (peers_of-insert t u (Map.insert q e (peers_of u bs)) bs)
      (Map.get-insert p q e (peers_of u bs))

topic_none : (u : ℕ) (bs : Backoffs) → Map.get u bs ≡ none → peers_of u bs ≡ []
unfolding peers_of
topic_none u bs e = rw (e, peers_of) refl

topic_some :
    (u : ℕ) (bs : Backoffs) (m : List (ℕ × (ℕ × ℕ))) → Map.get u bs ≡ some m → peers_of u bs ≡ m
unfolding peers_of
topic_some u bs m e = rw (e, peers_of) refl

no_peers-lem : (m : List (ℕ × (ℕ × ℕ))) → no_peers m ≡ true → m ≡ []
unfolding no_peers
no_peers-lem [] h = refl
no_peers-lem (e ∷ m) h = absurd (true≢false (sym h))

both_true : (a b : Bool) → (a && b) ≡ true → b ≡ true
both_true true b h = h
both_true false b h = absurd (true≢false (sym h))

-- The last peer of a topic is removed.
last_removed :
    (p q : ℕ) (m ps : List (ℕ × (ℕ × ℕ)))
    → ps ≡ m
    → Map.remove q m ≡ []
    → Map.get p [] ≡ (if p == q then none else Map.get p ps)
last_removed p q m ps e h =
    ap (Map.get p) (sym h)
    ∙ Map.get-remove p q m
    ∙ ap (λ xs. if p == q then none else Map.get p xs) (sym e)

nothing_there :
    (t u : ℕ) (bs : Backoffs)
    → peers_of u bs ≡ []
    → peers_of t bs ≡ (if t == u then [] else peers_of t bs)
nothing_there t u bs e = elim (Bool-cases (t == u)) [
  | inl h ↦ rw h (same_topic t u bs h ∙ e)
  | inr h ↦ rw h refl
]

pub backoff_of-erase :
    (t p u q : ℕ) (bs : Backoffs)
    → backoff_of t p (erase u q bs) ≡ (if t == u && p == q then none else backoff_of t p bs)
unfolding erase Map.remove
backoff_of-erase t p u q bs = elim (Option-cases (Map.get u bs)) [
  | inl e ↦
      let here = topic_none u bs e in
      rw (e, erase)
        (topic_replaced t p u q [] none bs bs (nothing_there t u bs here)
          (last_removed p q [] (peers_of u bs) here refl))
  | inr (m, e) ↦ elim (Bool-cases (Map.contains_key q m && no_peers (Map.remove q m))) [
    | inl b ↦
        rw (e, b, erase)
          (topic_replaced t p u q [] none bs (Map.remove u bs) (peers_of-remove t u bs) (
            last_removed p q m (peers_of u bs) (topic_some u bs m e)
              (no_peers-lem (Map.remove q m) (both_true _ _ b))))
    | inr b ↦
        rw (e, b, erase)
          (topic_replaced t p u q (Map.remove q m) none bs (Map.insert u (Map.remove q m) bs)
            (peers_of-insert t u (Map.remove q m) bs)
            (Map.get-remove p q m
              ∙ ap (λ xs. if p == q then none else Map.get p xs) (sym (topic_some u bs m e))))
  ]
]

pub get_backoff_time_lem :
    (t p : ℕ) (bs : Backoffs)
    → get_backoff_time bs t p ≡ elim (backoff_of t p bs) [ none ↦ none | some e ↦ some e.0 ]
unfolding backoff_of get_backoff_time peers_of Map.get
get_backoff_time_lem t p bs = elim (Option-cases (Map.get t bs)) [
  | inl e ↦ rw (e, get_backoff_time) refl
  | inr (m, e) ↦ rw (e, get_backoff_time) refl
]

pub is_backoff_with_slack_lem :
    (s : BackoffStorage) (t p : ℕ) (e : ℕ × ℕ)
    → backoff_of t p s.backoffs ≡ some e
    → is_backoff_with_slack s t p ≡ true
unfolding backoff_of is_backoff_with_slack peers_of Map.get Map.contains_key
is_backoff_with_slack_lem s t p e h = ground (arith, h)
