-- ===== src/Relay/Pending/Invariant.antt =====
-- The invariant of the pending store of crates/qvole-relay/src/relay.rs: its total, the count of
-- every address, and its cap.
use qvole_rs.Base.Map
use qvole_rs.Base.Map.{Map}
use qvole_rs.Base.{
  ℕ, ◌+◌, ◌-◌, ◌≤◌, ◌<◌, ◌^◌, ◌≡◌, inl, inr, Bool, ite, arith, Bytes, bytes_key, ℕ_discrete,
  Option-cases, if◌then◌else◌,
}
use qvole_rs.Relay.Addr.{IpAddr, AddrText, key_ip, ip_key_instance, IpAddr-discrete}
use qvole_rs.Relay.Tally.{tally, bump, lower, tally-bump, tally-lower}
use qvole_rs.Relay.Room.{PendingReg}
use qvole_rs.Relay.Room.Invariant.{has_ip}
use qvole_rs.Relay.Shards
use qvole_rs.Relay.Shards.{Shards, index, index-lt}
use qvole_rs.Relay.Pending.{
  PendingStore, add_pending_ip, remove_pending_ip, pending_count_for_ip, store_pending_reg,
  delete_pending_reg, room_name,
}

abbrev pub len_of : Bytes → Map Bytes PendingReg → ℕ
len_of room rm = Map.len rm

abbrev pub count_of : AddrText → IpAddr → Bytes → Map Bytes PendingReg → ℕ
count_of text ip room rm = Map.count (has_ip text ip) rm

pub record IsValid (text : AddrText) (max : ℕ) (s : PendingStore) : Type 0 where
  pub exact : s.pending_total ≡ Shards.total len_of s.pending_shards
  pub capped : s.pending_total ≤ max
  pub counted :
      (ip : IpAddr)
      → pending_count_for_ip text s ip ≡ Shards.total (count_of text ip) s.pending_shards

len-remove :
    (src : Bytes) (rm : Map Bytes PendingReg)
    → Map.len rm ≡ (
        if Map.contains src rm
        then Map.len (Map.remove src rm) + 1
        else Map.len (Map.remove src rm))
unfolding Map.contains Map.len
len-remove src rm = ground (arith, Map.weigh-remove (λ k v. 1) src rm)

count-le-len :
    (p : Bytes → PendingReg → Bool) (rm : Map Bytes PendingReg) → Map.count p rm ≤ Map.len rm
unfolding Map.count Map.len
count-le-len p rm = Map.weigh_mono _ _ rm (λ k v. ground arith)

module _ (text : AddrText) where
  abbrev pub tally_at : IpAddr → Shards IpAddr ℕ → ℕ
  tally_at ip s = tally ip (Shards.at (index text.ip_to_string ip) s)

  tally_at-add :
      (i j : IpAddr) (s : Shards IpAddr ℕ)
      → tally_at j (add_pending_ip text i s)
        ≡ ite (IpAddr-discrete i j) (tally_at j s + 1) (tally_at j s)
  unfolding add_pending_ip
  tally_at-add i j s = elim (ℕ_discrete (index text.ip_to_string i) (index text.ip_to_string j)) [
    | yes e ↦
        rw (e, Shards.at-set_at_self (index text.ip_to_string j) _ s (index-lt text.ip_to_string j))
          (tally-bump i j _)
    | no e ↦ ground (
      arith,
      Shards.at-set_at_ne (index text.ip_to_string i) (index text.ip_to_string j)
          (bump i (Shards.at (index text.ip_to_string i) s)) s e,
    )
  ]

  pub tally_at-remove :
      (i j : IpAddr) (s : Shards IpAddr ℕ)
      → tally_at j (remove_pending_ip text i s)
        ≡ ite (IpAddr-discrete i j) (tally_at j s - 1) (tally_at j s)
  unfolding remove_pending_ip
  tally_at-remove i j s =
      elim (ℕ_discrete (index text.ip_to_string i) (index text.ip_to_string j)) [
        | yes e ↦
            rw
              (
                e,
                Shards.at-set_at_self (index text.ip_to_string j) _ s
                    (index-lt text.ip_to_string j),
              )
              (tally-lower i j _)
        | no e ↦ ground (
          arith,
          Shards.at-set_at_ne (index text.ip_to_string i) (index text.ip_to_string j)
              (lower i (Shards.at (index text.ip_to_string i) s)) s e,
        )
      ]

  len_one : (src : Bytes) (p : PendingReg) → Map.len (Map.insert src p Map.empty) ≡ 1
  len_one src p = omega (
    arith,
    Map.len-insert_new src p Map.empty (Map.get-empty src),
    Map.len-empty Bytes PendingReg ⦃key = bytes_key⦄,
  )

  count_one :
      (ip : IpAddr) (src : Bytes) (p : PendingReg)
      → Map.count (has_ip text ip) (Map.insert src p Map.empty)
        ≡ Map.indicator (has_ip text ip) src p
  count_one ip src p = ground (
    arith,
    Map.count-insert (has_ip text ip) src p Map.empty,
    Map.get-empty {V = PendingReg} src,
    Map.count-empty {V = PendingReg} (has_ip text ip),
  )

  module _ (s : PendingStore) (max : ℕ) (room src : Bytes) (p : PendingReg) (m : max < 2 ^ 64) where
    store-exact :
        IsValid text max s
        → (store_pending_reg text s max room src p).0.pending_total
          ≡ Shards.total len_of (store_pending_reg text s max room src p).0.pending_shards
    unfolding store_pending_reg Map.contains
    store-exact v = elim (Option-cases (Shards.find room_name room s.pending_shards)) [
      | inl e ↦ ground (
        arith,
        v.exact,
        Shards.total-put room_name len_of room (Map.insert src p Map.empty) s.pending_shards,
        len_one src p,
      )
      | inr (rm, e) ↦ ground (
        arith,
        v.exact,
        Shards.total-put room_name len_of room (Map.insert src p rm) s.pending_shards,
        Map.len-insert src p rm,
      )
    ]

    store-counted :
        IsValid text max s
        → (ip : IpAddr)
        → pending_count_for_ip text (store_pending_reg text s max room src p).0 ip
          ≡ Shards.total
              (count_of text ip)
              (store_pending_reg text s max room src p).0.pending_shards
    unfolding store_pending_reg Map.contains pending_count_for_ip
    store-counted v ip = elim (Option-cases (Shards.find room_name room s.pending_shards)) [
      | inl e ↦ ground (
        arith,
        v.counted ip,
        Shards.total-put room_name (count_of text ip) room (Map.insert src p Map.empty)
            s.pending_shards,
        count_one ip src p,
        tally_at-add (key_ip text src) ip s.pending_ip_shards,
      )
      | inr (rm, e) ↦ ground (
        arith,
        v.counted ip,
        Shards.total-put room_name (count_of text ip) room (Map.insert src p rm) s.pending_shards,
        Map.count-insert (has_ip text ip) src p rm,
        tally_at-add (key_ip text src) ip s.pending_ip_shards,
      )
    ]

    -- Storing a registration, with a cap below 2^64, keeps the pending store valid: its total
    -- counts the registrations and is within the cap, and each address's counter counts its own.
    pub store_pending_reg-IsValid :
        IsValid text max s → IsValid text max (store_pending_reg text s max room src p).0
    store_pending_reg-IsValid v = record {
      exact = store-exact v;
      capped = unfold store_pending_reg in ground (arith, v.capped);
      counted = store-counted v;
    }

  module _ (s : PendingStore) (max : ℕ) (room src : Bytes) (m : max < 2 ^ 64) where
    delete-exact :
        IsValid text max s
        → (delete_pending_reg text s room src).pending_total
          ≡ Shards.total len_of (delete_pending_reg text s room src).pending_shards
    unfolding delete_pending_reg Map.contains
    delete-exact v = elim (Option-cases (Shards.find room_name room s.pending_shards)) [
      | inl e ↦ ground (arith, v.exact)
      | inr (rm, e) ↦ ground (
        arith,
        v.exact,
        v.capped,
        Shards.total-put room_name len_of room (Map.remove src rm) s.pending_shards,
        Shards.total-delete room_name len_of room s.pending_shards,
        len-remove src rm,
      )
    ]

    delete-capped : IsValid text max s → (delete_pending_reg text s room src).pending_total ≤ max
    unfolding delete_pending_reg Map.contains
    delete-capped v = elim (Option-cases (Shards.find room_name room s.pending_shards)) [
      | inl e ↦ ground (arith, v.capped)
      | inr (rm, e) ↦ ground (
        arith,
        v.exact,
        v.capped,
        Shards.total-delete room_name len_of room s.pending_shards,
        len-remove src rm,
      )
    ]

    delete-counted :
        IsValid text max s
        → (ip : IpAddr)
        → pending_count_for_ip text (delete_pending_reg text s room src) ip
          ≡ Shards.total (count_of text ip) (delete_pending_reg text s room src).pending_shards
    unfolding delete_pending_reg Map.contains pending_count_for_ip
    delete-counted v ip = elim (Option-cases (Shards.find room_name room s.pending_shards)) [
      | inl e ↦ ground (arith, v.counted ip)
      | inr (rm, e) ↦ ground (
        arith,
        v.counted ip,
        Shards.total-put room_name (count_of text ip) room (Map.remove src rm) s.pending_shards,
        Shards.total-delete room_name (count_of text ip) room s.pending_shards,
        Map.count-remove (has_ip text ip) src rm,
        count-le-len (has_ip text ip) (Map.remove src rm),
        tally_at-remove (key_ip text src) ip s.pending_ip_shards,
      )
    ]

    -- Deleting a registration, present or not, keeps a pending store with a cap below 2^64 valid:
    -- total and per-address counters stay exact, and the total within the cap.
    pub delete_pending_reg-IsValid :
        IsValid text max s → IsValid text max (delete_pending_reg text s room src)
    delete_pending_reg-IsValid v = record {
      exact = delete-exact v;
      capped = delete-capped v;
      counted = delete-counted v;
    }
