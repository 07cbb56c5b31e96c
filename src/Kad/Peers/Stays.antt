-- ===== src/Kad/Peers/Stays.antt =====
-- What a change of the routing table by the handlers of protocols/kad/src/kad.rs keeps.
use libp2p_rs.Common.{
  ℕ, ◌<◌, ◌^◌, ◌≡◌, ◌≢◌, refl, sym, ◌∙◌, ap, subst, true, false, Option, none, some, ◌==◌,
  Bool-cases, inl, inr, some_injective, none_not_some, true≢false, arith,
}
use libp2p_rs.Kad.Key.{U256, Key}
use libp2p_rs.Kad.Table.{KBucketsTable, entry, value, insert, remove, set_value}
use libp2p_rs.Kad.Table.Invariant.{IsValid, insert-IsValid, remove-IsValid, set_value-IsValid}
use libp2p_rs.Kad.Table.History.{insert-local_key, in_present-local_key}
use libp2p_rs.Kad.Table.Lookup.{value_same}
use libp2p_rs.Kad.Table.Writes.{value-insert, value-remove, value-set_value}
use libp2p_rs.Kad.Peers.{PeerInfo, set_aliveness}
use libp2p_rs.Kad.Peers.Changes.{Change, unchanged, noted, added, replaced, dropped}

module _ (u : U256) where
  pub remove-local_key :
      (t : KBucketsTable ℕ PeerInfo) (k : Key ℕ) → (remove u t k).local_key ≡ t.local_key
  unfolding remove
  remove-local_key t k = in_present-local_key u t _ (entry u t k)

  module _ (taken : Option ℕ) (t : KBucketsTable ℕ PeerInfo) where
    pub Change-IsValid :
        (s : KBucketsTable ℕ PeerInfo) → Change u taken t s → IsValid u t → IsValid u s
    Change-IsValid s unchanged h = h
    Change-IsValid s (noted k a info near e) h = set_value-IsValid u t k _ h
    Change-IsValid s (added k info near e) h = insert-IsValid u t k info near h
    Change-IsValid s (replaced k info c near nearc e f p) h =
        insert-IsValid u (remove u t c.key) k info near (remove-IsValid u t c.key h)
    Change-IsValid s (dropped k near e) h = remove-IsValid u t k h

    pub Change-local_key :
        (s : KBucketsTable ℕ PeerInfo) → Change u taken t s → s.local_key ≡ t.local_key
    unfolding set_value
    Change-local_key s unchanged = refl
    Change-local_key s (noted k a info near e) = in_present-local_key u t _ (entry u t k)
    Change-local_key s (added k info near e) = insert-local_key u t k info
    Change-local_key s (replaced k info c near nearc e f p) =
        insert-local_key u (remove u t c.key) k info ∙ remove-local_key t c.key
    Change-local_key s (dropped k near e) = remove-local_key t k

  -- The peer of the key is in the table, to stay, since it was added at the time.
  pub record Stays (j : Key ℕ) (time : ℕ) (t : KBucketsTable ℕ PeerInfo) : Type 0 where
    pub info : PeerInfo
    pub here : value u t j ≡ some info
    pub lasting : info.permanent ≡ true
    pub since : info.added_at ≡ time

  module _ (j : Key ℕ) (time : ℕ) (t : KBucketsTable ℕ PeerInfo) (valid : IsValid u t)
      (near_local : t.local_key.bytes < 2 ^ 256) where
    same-Stays :
        (s : KBucketsTable ℕ PeerInfo)
        → (r : Stays j time t) → value u s j ≡ value u t j
        → Stays j time s
    same-Stays s r e = record {
      info = r.info;
      here = e ∙ r.here;
      lasting = r.lasting;
      since = r.since;
    }

    -- A key that has no value is another.
    other : (k : Key ℕ) → Stays j time t → value u t k ≡ none → (j.bytes == k.bytes) ≡ false
    other k r e = elim (Bool-cases (j.bytes == k.bytes)) [
      | inl h ↦
          absurd
            (none_not_some r.info (sym e ∙ sym (value_same u t j k (ground (arith, h))) ∙ r.here))
      | inr h ↦ h
    ]

    same_info :
        (k : Key ℕ) (info : PeerInfo) (r : Stays j time t)
        → value u t k ≡ some info
        → (j.bytes == k.bytes) ≡ true
        → info ≡ r.info
    same_info k info r e h =
        some_injective info r.info (sym e ∙ sym (value_same u t j k (ground (arith, h))) ∙ r.here)

    noted-Stays :
        (k : Key ℕ) (a : Option ℕ) (info : PeerInfo)
        → k.bytes < 2 ^ 256
        → value u t k ≡ some info
        → Stays j time t
        → Stays j time (set_value u t k (set_aliveness a info))
    unfolding set_aliveness
    noted-Stays k a info near e r = elim (Bool-cases (j.bytes == k.bytes)) [
      | inl h ↦
          let same = same_info k info r e h in
          record {
            info = set_aliveness a info;
            here =
                value-set_value u t valid near_local j k (set_aliveness a info) near
                ∙ rw (h, e) refl;
            lasting = ap (λ i. i.permanent) same ∙ r.lasting;
            since = ap (λ i. i.added_at) same ∙ r.since;
          }
      | inr h ↦
          same-Stays _ r
            (value-set_value u t valid near_local j k (set_aliveness a info) near ∙ rw h refl)
    ]

    removed-Stays :
        (k : Key ℕ)
        → k.bytes < 2 ^ 256
        → (j.bytes == k.bytes) ≡ false
        → Stays j time t
        → Stays j time (remove u t k)
    removed-Stays k near h r =
        same-Stays (remove u t k) r (value-remove u t valid near_local j k near ∙ rw h refl)

    added-Stays :
        (k : Key ℕ) (info : PeerInfo)
        → k.bytes < 2 ^ 256
        → value u t k ≡ none
        → Stays j time t
        → Stays j time (insert u t k info).0
    added-Stays k info near e r =
        same-Stays (insert u t k info).0 r
          (value-insert u t valid near_local j k info near ∙ ground (arith, other k r e))

    not_evicted :
        (k : Key ℕ) (info : PeerInfo) (r : Stays j time t)
        → value u t k ≡ some info
        → info.permanent ≡ false
        → (j.bytes == k.bytes) ≡ false
    not_evicted k info r e p = elim (Bool-cases (j.bytes == k.bytes)) [
      | inl h ↦
          absurd
            (true≢false (sym r.lasting ∙ sym (ap (λ i. i.permanent) (same_info k info r e h)) ∙ p))
      | inr h ↦ h
    ]

    still_absent :
        (k c : Key ℕ) → c.bytes < 2 ^ 256 → value u t k ≡ none → value u (remove u t c) k ≡ none
    still_absent k c near e = value-remove u t valid near_local k c near ∙ ground (arith, e)

    other_key :
        (taken : Option ℕ) (k : Key ℕ)
        → taken ≡ some k.bytes
        → taken ≢ some j.bytes
        → (j.bytes == k.bytes) ≡ false
    other_key taken k e g = elim (Bool-cases (j.bytes == k.bytes)) [
      | inl h ↦ absurd (g (e ∙ ap some (ground (arith, h))))
      | inr h ↦ h
    ]

  pub Change-Stays :
      (j : Key ℕ) (time : ℕ) (t : KBucketsTable ℕ PeerInfo)
      → IsValid u t
      → t.local_key.bytes < 2 ^ 256
      → (taken : Option ℕ) (s : KBucketsTable ℕ PeerInfo) → Change u taken t s
      → taken ≢ some j.bytes
      → Stays j time t
      → Stays j time s
  Change-Stays j time t valid near_local taken s unchanged g r = r
  Change-Stays j time t valid near_local taken s (noted k a info near e) g r =
      noted-Stays j time t valid near_local k a info near e r
  Change-Stays j time t valid near_local taken s (added k info near e) g r =
      added-Stays j time t valid near_local k info near e r
  Change-Stays j time t valid near_local taken s (replaced k info c near nearc e f p) g r =
      added-Stays j time (remove u t c.key) (remove-IsValid u t c.key valid)
        (subst (λ (l : Key ℕ). l.bytes < 2 ^ 256) (sym (remove-local_key t c.key)) near_local) k
        info near (still_absent j time t valid near_local k c.key nearc e)
        (removed-Stays j time t valid near_local c.key nearc
          (not_evicted j time t valid near_local c.key c.value r f p) r)
  Change-Stays j time t valid near_local taken s (dropped k near e) g r =
      removed-Stays j time t valid near_local k near
        (other_key j time t valid near_local taken k e g) r
