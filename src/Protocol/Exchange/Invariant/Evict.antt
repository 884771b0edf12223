-- ===== src/Protocol/Exchange/Invariant/Evict.antt =====
-- crates/qvole-protocol/src/exchange.rs: the candidate that makes room.
use qvole_rs.Base.Map
use qvole_rs.Base.Map.{Map}
use qvole_rs.Base.{
  ℕ, ◌+◌, ◌<◌, ◌≡◌, refl, sym, ◌∙◌, true, none, some, List, [], ◌∷◌, arith, leb, Bytes, bytes_key,
  length, length-sum_of, All, Bool-cases, inl, inr, if_pos, if_neg,
}
use qvole_rs.Protocol.Exchange.State.{Exchange, Peer, PeerCandidate}
use qvole_rs.Protocol.Exchange.Receive.{leq, oldest, evict_candidate}
use qvole_rs.Protocol.Exchange.Invariant.{Traffic, IsValid}

-- Among some candidates there is an oldest one.
oldest-some :
    (sent : Map Bytes ℕ) (Q : Bytes × PeerCandidate → Type 0) (cands : List (Bytes × PeerCandidate))
    → 0 < length cands
    → All Q cands
    → (k : Bytes) × (cand : PeerCandidate) × (oldest sent cands ≡ some k) × Q (k, cand)
unfolding oldest
oldest-some sent Q [] h a = absurd (ground arith)
oldest-some sent Q ((k, cand) ∷ []) h a = (k, cand, refl, a.0)
oldest-some sent Q ((k, cand) ∷ c ∷ cands) h a =
    let (j, other, e, q) = oldest-some sent Q (c ∷ cands) (omega arith) a.1 in
    elim (Bool-cases (leq (Map.get k sent) (Map.get j sent))) [
      | inl t ↦ (k, cand, rw (e, t) refl, a.0)
      | inr f ↦ (j, other, rw (e, f) refl, q)
    ]

len-to_list : (m : Map Bytes PeerCandidate) → Map.len m ≡ length (Map.to_list m)
unfolding Map.len
len-to_list m = Map.weigh-sum_of _ m ∙ sym (length-sum_of (Map.to_list m))

len-remove :
    (k : Bytes) (cand : PeerCandidate) (m : Map Bytes PeerCandidate)
    → Map.get k m ≡ some cand
    → Map.len (Map.remove k m) + 1 ≡ Map.len m
unfolding Map.len
len-remove k cand m h = ground (arith, Map.weigh-remove (λ k v. 1) k m, h)

-- Where there are fifty, the oldest one is found.
oldest-found :
    (s : Exchange)
    → leb 50 (Map.len s.candidates) ≡ true
    → (k : Bytes) × (cand : PeerCandidate) × (oldest s.confirm_last_sent (Map.to_list s.candidates)
        ≡ some k)
      × (Map.get k s.candidates ≡ some cand)
oldest-found s h =
    let l = len-to_list s.candidates in
    let n : 0 < length (Map.to_list s.candidates) = ground (arith, l) in
    let Q : Bytes × PeerCandidate → Type 0 = λ e. Map.get e.0 s.candidates ≡ some e.1 in
    oldest-some s.confirm_last_sent Q (Map.to_list s.candidates) n
      (Map.to_list-All Q s.candidates (λ k v g. g))

without-some :
    {V : Type 0} (k j : Bytes) (v : V) (m : Map Bytes V)
    → Map.get j (Map.remove k m) ≡ some v
    → Map.get j m ≡ some v
without-some k j v m h = elim (bytes_key.dec k j) [
  | yes e ↦ absurd (ground (arith, h, Map.get-remove k j m, e))
  | no n ↦ ground (arith, h, Map.get-remove k j m, n)
]

without-none :
    {V W : Type 0} (k j : Bytes) (m : Map Bytes V) (m' : Map Bytes W)
    → (Map.get j m ≡ none → Map.get j m' ≡ none)
    → Map.get j (Map.remove k m) ≡ none
    → Map.get j (Map.remove k m') ≡ none
without-none k j m m' f h = elim (bytes_key.dec k j) [
  | yes e ↦ Map.get-remove k j m' ∙ if_pos (bytes_key.dec k j) e none (Map.get j m')
  | no n ↦
      let gone =
        sym (if_neg (bytes_key.dec k j) n none (Map.get j m)) ∙ (sym (Map.get-remove k j m) ∙ h) in
      Map.get-remove k j m' ∙ (if_neg (bytes_key.dec k j) n none (Map.get j m') ∙ f gone)
]

module _ {P : Type 0} (peer : Peer P) (heard : Traffic) where
  without :
      (k : Bytes) (s : Exchange)
      → IsValid peer heard s
      → IsValid peer heard (record s {
        candidates = Map.remove k s.candidates;
        confirm_last_sent = Map.remove k s.confirm_last_sent;
      })
  without k s w = record {
    few = omega (arith, w.few, Map.len-remove-le k s.candidates);
    short = w.short;
    buffered = w.buffered;
    sent = λ j h. without-none k j s.candidates s.confirm_last_sent (w.sent j) h;
    derived = λ j cand h. w.derived j cand (without-some k j cand s.candidates h);
  }

  pub evict_candidate-IsValid :
      (s : Exchange)
      → IsValid peer heard s
      → IsValid peer heard (evict_candidate s) × (Map.len (evict_candidate s).candidates < 50)
  unfolding evict_candidate
  evict_candidate-IsValid s w = elim (Bool-cases (leb 50 (Map.len s.candidates))) [
    | inr f ↦ (rw f w, rw f (ground arith))
    | inl t ↦
        let (k, cand, e, g) = oldest-found s t in
        let l = len-remove k cand s.candidates g in
        (rw (t, e) (without k s w), rw (t, e) (omega (arith, l, w.few)))
  ]
