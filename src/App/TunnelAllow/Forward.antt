-- ===== src/App/TunnelAllow/Forward.antt =====
-- The addresses that `forward_ips` of crates/qvole-app/src/tunnel_allow.rs lets a peer reach.
use qvole_rs.Base.{
  ℕ, ◌≡◌, refl, subst, ◌∙◌, ◌⊎◌, inl, inr, true, false, ◌||◌, ◌&&◌, not, none, some, List, [], ◌∷◌,
  ◌++◌, map, arith, Bytes, bytes_key, eqb, length, ◌==◌, Option-cases, Bool-cases, All, All-map,
}
use qvole_rs.Relay.Addr.{IpAddr, ip_key_instance}
use qvole_rs.App.TunnelAllow.{
  IpRule, TunnelAllow, Names, split_host_port, resolve_all_ips, entry_rules, build_forward_rules,
  match_forward_ips, resolve, rules_of, keep_allowed, non_empty, forward_ips,
}

abbrev pub Any {ℓ} : {A : Type ℓ} → (A → Type 0) → List A → Type 0
Any P [] = ⊥
Any P (x ∷ xs) = P x ⊎ Any P xs

module _ (names : Names) where
  -- An entry names the port, and no host or a host that has the address.
  abbrev pub Permits : Bytes → IpAddr → Bytes → Type 0
  Permits port ip entry =
      (host : Bytes) × (split_host_port entry ≡ some (host, port))
      × ((length host ≡ 0) ⊎ Any (λ i. i ≡ ip) (resolve_all_ips names host))

  match-append :
      (a b : List IpRule) (ip : IpAddr) (port : Bytes)
      → match_forward_ips names (a ++ b) ip port
        ≡ (match_forward_ips names a ip port || match_forward_ips names b ip port)
  unfolding match_forward_ips
  match-append [] b ip port = refl
  match-append (r ∷ a) b ip port = ground (arith, match-append a b ip port)

  match-hosts :
      (ips : List IpAddr) (p port : Bytes) (ip : IpAddr)
      → match_forward_ips names (map (λ i. record { port = p; ip = some i }) ips) ip port ≡ true
      → (p ≡ port) × Any (λ i. i ≡ ip) ips
  unfolding match_forward_ips
  match-hosts [] p port ip h = absurd (ground arith)
  match-hosts (i ∷ ips) p port ip h = elim (Bool-cases (eqb p port)) [
    | inr n ↦ absurd (ground (arith, n, h, match-hosts ips p port ip))
    | inl y ↦ elim (Bool-cases (eqb i ip)) [
      | inl e ↦ (ground arith, inl (ground arith))
      | inr e ↦ let (q, rest) = match-hosts ips p port ip (ground (arith, h, y, e)) in (q, inr rest)
    ]
  ]

  match-nil : (ip : IpAddr) (port : Bytes) → match_forward_ips names [] ip port ≡ false
  unfolding match_forward_ips
  match-nil ip port = refl

  match-wildcard :
      (p : Bytes) (ip : IpAddr) (port : Bytes)
      → match_forward_ips names (record { port = p; ip = none } ∷ []) ip port ≡ true
      → p ≡ port
  unfolding match_forward_ips
  match-wildcard p ip port h = ground arith

  entry_rules-hosts :
      (c : ℕ) (host p : Bytes)
      → entry_rules names (some (c ∷ host, p))
        ≡ map (λ i. record { port = p; ip = some i }) (resolve_all_ips names (c ∷ host))
  entry_rules-hosts c host p = let z : (length (c ∷ host) == 0) ≡ false = ground arith in rw z refl

  hosts-Permits :
      (entry host p : Bytes) (ip : IpAddr) (port : Bytes)
      → split_host_port entry ≡ some (host, p)
      → match_forward_ips names (entry_rules names (some (host, p))) ip port ≡ true
      → Permits port ip entry
  hosts-Permits entry [] p ip port s h = (
    [],
    subst (λ x. split_host_port entry ≡ some ([], x)) (match-wildcard p ip port h) s,
    inl refl,
  )
  hosts-Permits entry (c ∷ host) p ip port s h =
      let (q, a) =
        match-hosts (resolve_all_ips names (c ∷ host)) p port ip
          (subst (λ r. match_forward_ips names r ip port ≡ true) (entry_rules-hosts c host p) h) in
      (c ∷ host, subst (λ x. split_host_port entry ≡ some (c ∷ host, x)) q s, inr a)

  entry_rules-Permits :
      (entry : Bytes) (ip : IpAddr) (port : Bytes)
      → match_forward_ips names (entry_rules names (split_host_port entry)) ip port ≡ true
      → Permits port ip entry
  entry_rules-Permits entry ip port h = elim (Option-cases (split_host_port entry)) [
    | inl n ↦ absurd (
        ground (
          arith,
          match-nil ip port,
          subst (λ x. match_forward_ips names (entry_rules names x) ip port ≡ true) n h,
        ))
    | inr ((host, p), s) ↦
        hosts-Permits entry host p ip port s
          (subst (λ x. match_forward_ips names (entry_rules names x) ip port ≡ true) s h)
  ]

  build_forward_rules-Permits :
      (entries : List Bytes) (ip : IpAddr) (port : Bytes)
      → match_forward_ips names (build_forward_rules names entries) ip port ≡ true
      → Any (Permits port ip) entries
  unfolding build_forward_rules match_forward_ips
  build_forward_rules-Permits [] ip port h = absurd (ground arith)
  build_forward_rules-Permits (e ∷ entries) ip port h =
      let rules = entry_rules names (split_host_port e) in
      elim (Bool-cases (match_forward_ips names rules ip port)) [
        | inl y ↦ inl (entry_rules-Permits e ip port y)
        | inr n ↦ inr (
            build_forward_rules-Permits entries ip port (
              ground (arith, h, n, match-append rules (build_forward_rules names entries) ip port)))
      ]

  keep_allowed-All :
      (rules : List IpRule) (port : Bytes) (ips : List IpAddr)
      → All (λ ip. match_forward_ips names rules ip port ≡ true) (keep_allowed names rules port ips)
  keep_allowed-All rules port [] = tt
  keep_allowed-All rules port (ip ∷ ips) =
      elim (Bool-cases (match_forward_ips names rules ip port)) [
        | inl y ↦ rw y (y, keep_allowed-All rules port ips)
        | inr n ↦ rw n (keep_allowed-All rules port ips)
      ]

  non_empty-some :
      (ips kept : List IpAddr) (p port : Bytes)
      → non_empty names kept p ≡ some (ips, port)
      → (kept ≡ ips) × (p ≡ port)
  non_empty-some ips [] p port h = absurd (ground arith)
  non_empty-some ips (k ∷ kept) p port h = (ground arith, ground arith)

-- Matching looks nothing up.
same_match :
    (a b : Names) (rules : List IpRule) (ip : IpAddr) (port : Bytes)
    → match_forward_ips a rules ip port ≡ match_forward_ips b rules ip port
unfolding match_forward_ips
same_match a b [] ip port = refl
same_match a b (r ∷ rules) ip port = ground (arith, same_match a b rules ip port)

-- The name lookups of `resolve` at startup, and those of a later call, may answer differently; the
-- lookups of one call are answered alike.
module _ (startup now : Names) where
  -- An entry permits the address by what its host resolved to at startup, or, where no entry gave a
  -- rule then, by what it resolves to now.
  abbrev pub IsPermitted : TunnelAllow → Bytes → IpAddr → Type 0
  IsPermitted a port ip =
      Any (Permits startup port ip) a.forward
      ⊎ ((length (build_forward_rules startup a.forward) ≡ 0) × Any (Permits now port ip) a.forward)

  rules_of-Permits :
      (a : TunnelAllow) (port : Bytes) (ip : IpAddr)
      → match_forward_ips now (rules_of now (resolve startup a)) ip port ≡ true
      → IsPermitted a port ip
  unfolding rules_of resolve
  rules_of-Permits a port ip h =
      let rules = build_forward_rules startup a.forward in
      elim (Bool-cases (length rules == 0 && not (length a.forward == 0))) [
        | inl t ↦
            inr (ground (arith, t), build_forward_rules-Permits now a.forward ip port (rw t at h))
        | inr f ↦ inl (
            build_forward_rules-Permits startup a.forward ip port
              (same_match startup now rules ip port ∙ (rw f at h)))
      ]

  all-resolve : (a : TunnelAllow) → (resolve startup a).all ≡ a.all
  unfolding resolve
  all-resolve a = refl

  -- Without the setting that accepts everything, and with the rules resolved at startup, whatever
  -- the name lookups answer then and now: every address that forward_ips lets a peer reach now, on
  -- the port that it gives, is permitted by an entry of the allow list, one that names this port
  -- and no host, or a host that resolved to the address at startup, or, where no entry gave a rule
  -- at startup, a host that resolves to it now.
  pub forward_ips-Permits :
      (a : TunnelAllow) (addr port : Bytes) (ips : List IpAddr)
      → a.all ≡ false
      → forward_ips now (resolve startup a) addr ≡ some (ips, port)
      → All (IsPermitted a port) ips
  unfolding forward_ips
  forward_ips-Permits a addr port ips off h = elim (Option-cases (split_host_port addr)) [
    | inl n ↦ absurd (ground (arith, h, n))
    | inr ((host, p), s) ↦
        let rules = rules_of now (resolve startup a) in
        let kept = keep_allowed now rules p (resolve_all_ips now host) in
        let same : (resolve startup a).all ≡ false = all-resolve a ∙ off in
        let h' : non_empty now kept p ≡ some (ips, port) = ground (arith, h, s, same) in
        let (e, q) = non_empty-some now ips kept p port h' in
        subst (All (IsPermitted a port)) e (
          All-map (λ ip. match_forward_ips now rules ip p ≡ true) (IsPermitted a port) kept
            (λ ip m.
              rules_of-Permits a port ip (subst (λ x. match_forward_ips now rules ip x ≡ true) q m))
            (keep_allowed-All now rules p (resolve_all_ips now host)))
  ]
