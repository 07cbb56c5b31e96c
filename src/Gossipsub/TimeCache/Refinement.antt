-- ===== src/Gossipsub/TimeCache/Refinement.antt =====
-- `DuplicateCache` of protocols/gossipsub/src/time_cache.rs against the history of its calls.
use libp2p_rs.Common.{
  ℕ, ◌+◌, ◌≤◌, ◌≡◌, refl, sym, ap, subst, ◌∙◌, Bool, true, false, inl, inr, Option, none, some,
  List, [], ◌∷◌, ◌++◌, ltb, ◌==◌, if◌then◌else◌, All, All-append, All-imp, arith, Bool-cases,
  ==_iff,
}
use libp2p_rs.Common.Map
use libp2p_rs.Gossipsub.TimeCache.{
  ExpiringElement, DuplicateCache, Nothing, new, remove_expired_keys, contains_key, insert_expiring,
  insert,
}
use libp2p_rs.Gossipsub.TimeCache.Expiry.{IsQueue, waits, live, IsQueued, expire-get}
use libp2p_rs.Gossipsub.TimeCache.Queue.{
  IsQueue-push, expire-IsQueue, expire-All, waits-append, waits-push,
}

-- Whether the key was let in less than `ttl` ago; the log has the calls that answered true.
unfoldable pub recent : (ttl now key : ℕ) → List (ℕ × ℕ) → Bool
recent ttl now key [] = false
recent ttl now key ((k, t) ∷ log) =
    if key == k
    then (if ltb now (t + ttl) then true else recent ttl now key log)
    else recent ttl now key log

abbrev is_some : Option (ExpiringElement Nothing) → Bool
is_some none = false
is_some (some e) = true

-- A call comes some time after the one before it, with its key.
unfoldable pub answers : (now : ℕ) → DuplicateCache → List (ℕ × ℕ) → List Bool
answers now c [] = []
answers now c ((elapsed, key) ∷ calls) =
    let next = insert (now + elapsed) key c in next.0 ∷ answers (now + elapsed) next.1 calls

unfoldable pub reference : (ttl now : ℕ) → List (ℕ × ℕ) → List (ℕ × ℕ) → List Bool
reference ttl now log [] = []
reference ttl now log ((elapsed, key) ∷ calls) =
    let rejected = reference ttl (now + elapsed) log calls in
    let accepted = reference ttl (now + elapsed) ((key, now + elapsed) ∷ log) calls in
    if recent ttl (now + elapsed) key log then false ∷ rejected else true ∷ accepted

-- The queue is in order and ends by `now + ttl`, every entry waits in it, and from now on a key is
-- there exactly as long as the log says.
IsRefined : (now : ℕ) → DuplicateCache → List (ℕ × ℕ) → Type 0
IsRefined now c log =
    (IsQueue 0 c.list × All (λ x. x.expires ≤ now + c.ttl) c.list)
    × ((key : ℕ)
        → IsQueued key c.list (Map.get key c.entries)
          × ((later : ℕ)
              → now ≤ later
              → is_some (live later (Map.get key c.entries)) ≡ recent c.ttl later key log))

live-later :
    (now later : ℕ) (o : Option (ExpiringElement Nothing))
    → now ≤ later
    → live later (live now o) ≡ live later o
unfolding live
live-later now later none h = refl
live-later now later (some e) h = ground (arith, h)

expired-IsRefined :
    (now before : ℕ) (c : DuplicateCache) (log : List (ℕ × ℕ))
    → before ≤ now
    → IsRefined before c log
    → IsRefined now (remove_expired_keys now c) log
unfolding IsRefined remove_expired_keys
expired-IsRefined now before c log h r = (
  (
    expire-IsQueue now 0 c.list c.entries r.0.0,
    expire-All now (now + c.ttl) c.list c.entries
        (All-imp _ _ (λ x l. omega (arith, l, h)) c.list r.0.1),
  ),
  λ key.
      let after = expire-get now 0 c.list c.entries key r.0.0 (r.1 key).0 in
      (
        after.1,
        λ later l.
            ap (λ o. is_some (live later o)) after.0
            ∙ (ap is_some (live-later now later (Map.get key c.entries) l)
                ∙ (r.1 key).1 later (omega (arith, l, h))),
      ),
)

IsQueued-append :
    (key : ℕ) (xs ys : List (ExpiringElement ℕ)) (o : Option (ExpiringElement Nothing))
    → IsQueued key xs o
    → IsQueued key (xs ++ ys) o
unfolding IsQueued
IsQueued-append key xs ys none q = tt
IsQueued-append key xs ys (some e) q = waits-append key e.expires xs ys q

stale-later :
    (now later : ℕ) (o : Option (ExpiringElement Nothing))
    → now ≤ later
    → is_some (live now o) ≡ false
    → is_some (live later o) ≡ false
unfolding live
stale-later now later none l h = refl
stale-later now later (some e) l h = ground (arith, l, h)

-- The key that is let in, and the others.
accepted_key :
    (now later key j : ℕ) (ttl : ℕ) (log : List (ℕ × ℕ)) (o : Option (ExpiringElement Nothing))
    → ((j == key) ≡ true → recent ttl later j log ≡ false)
    → is_some (live later o) ≡ recent ttl later j log
    → is_some
        (live later (if j == key then some (record { element = tt; expires = now + ttl }) else o))
      ≡ recent ttl later j ((key, now) ∷ log)
unfolding recent live
accepted_key now later key j ttl log o h r = elim (Bool-cases (j == key)) [
  | inl t ↦ rw t (ground (arith, h t))
  | inr f ↦ rw f r
]

accepted-IsRefined :
    (now key : ℕ) (c : DuplicateCache) (log : List (ℕ × ℕ))
    → IsRefined now c log
    → recent c.ttl now key log ≡ false
    → IsRefined now (insert_expiring now key tt c) ((key, now) ∷ log)
unfolding IsRefined insert_expiring IsQueued
accepted-IsRefined now key c log r n = (
  (
    IsQueue-push 0 key (now + c.ttl) c.list (omega arith) r.0.0 r.0.1,
    All-append _ c.list _ r.0.1 (omega arith, tt),
  ),
  λ j. (
    rw (Map.get-insert j key (record { element = tt; expires = now + c.ttl }) c.entries)
        (waiting j),
    λ later l.
        rw (Map.get-insert j key (record { element = tt; expires = now + c.ttl }) c.entries) (
          accepted_key now later key j c.ttl log (Map.get j c.entries) (stale j later l)
            ((r.1 j).1 later l)),
  ),
)
  where
    last : List (ExpiringElement ℕ)
    last = record { element = key; expires = now + c.ttl } ∷ []

    waiting :
        (j : ℕ)
        → IsQueued j (c.list ++ last) (
            if j == key
            then some (record { element = tt; expires = now + c.ttl })
            else Map.get j c.entries)
    waiting j = elim (Bool-cases (j == key)) [
      | inl t ↦ rw t (
          subst (λ i. waits i (now + c.ttl) (c.list ++ last) ≡ true) (sym ((==_iff j key).0 t))
            (waits-push key (now + c.ttl) c.list))
      | inr f ↦ rw f (IsQueued-append j c.list last (Map.get j c.entries) (r.1 j).0)
    ]

    stale : (j later : ℕ) → now ≤ later → (j == key) ≡ true → recent c.ttl later j log ≡ false
    stale j later l t =
        sym ((r.1 j).1 later l)
        ∙ stale-later now later (Map.get j c.entries) l (
            (r.1 j).1 now (omega arith)
            ∙ subst (λ i. recent c.ttl now i log ≡ false) (sym ((==_iff j key).0 t)) n)

contains-recent :
    (now : ℕ) (c : DuplicateCache) (log : List (ℕ × ℕ)) (key : ℕ)
    → IsRefined now c log
    → contains_key (remove_expired_keys now c) key ≡ recent c.ttl now key log
unfolding IsRefined contains_key remove_expired_keys Map.contains_key
contains-recent now c log key r =
    ap present (expire-get now 0 c.list c.entries key r.0.0 (r.1 key).0).0
    ∙ (present_is_some (live now (Map.get key c.entries)) ∙ (r.1 key).1 now (omega arith))
  where
    present : Option (ExpiringElement Nothing) → Bool
    present o = elim o [ none ↦ false | some e ↦ true ]

    present_is_some : (o : Option (ExpiringElement Nothing)) → present o ≡ is_some o
    present_is_some none = refl
    present_is_some (some e) = refl

later-IsRefined :
    (now before : ℕ) (c : DuplicateCache) (log : List (ℕ × ℕ))
    → before ≤ now
    → IsRefined before c log
    → IsRefined now c log
unfolding IsRefined
later-IsRefined now before c log h r = (
  (r.0.0, All-imp _ _ (λ x l. omega (arith, l, h)) c.list r.0.1),
  λ key. ((r.1 key).0, λ later l. (r.1 key).1 later (omega (arith, l, h))),
)

new-IsRefined : (ttl : ℕ) → IsRefined 0 (new ttl) []
unfolding IsRefined new IsQueue IsQueued Map.get live recent
new-IsRefined ttl = ((tt, tt), λ key. (tt, λ later l. refl))

answers-from :
    (now : ℕ) (c : DuplicateCache) (log calls : List (ℕ × ℕ))
    → IsRefined now c log
    → answers now c calls ≡ reference c.ttl now log calls
unfolding answers reference insert remove_expired_keys insert_expiring
answers-from now c log [] r = refl
answers-from now c log ((elapsed, key) ∷ calls) r =
    let time = now + elapsed in
    let start = later-IsRefined time now c log (omega arith) r in
    let fresh = remove_expired_keys time c in
    let kept = expired-IsRefined time time c log (omega arith) start in
    let known = contains-recent time c log key start in
    elim (Bool-cases (recent c.ttl time key log)) [
      | inl t ↦
          rw (known ∙ t, t, answers, insert)
            (ap (◌∷◌ false) (answers-from time fresh log calls kept))
      | inr f ↦
          rw (known ∙ f, f, answers, insert)
            (ap (◌∷◌ true) (
              answers-from time (insert_expiring time key tt fresh) ((key, time) ∷ log) calls
                (accepted-IsRefined time key fresh log kept f)))
    ]

-- On a new cache of seen messages with any time to live and any sequence of calls at times that do
-- not go back, `insert` answers true exactly for the keys for which it has not answered true less
-- than the time to live ago.
pub answers-reference :
    (ttl : ℕ) (calls : List (ℕ × ℕ)) → answers 0 (new ttl) calls ≡ reference ttl 0 [] calls
unfolding new
answers-reference ttl calls = answers-from 0 (new ttl) [] calls (new-IsRefined ttl)
