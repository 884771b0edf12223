-- ===== src/App/Stream/Allowed.antt =====
-- What `handle_tunnel_stream` of crates/qvole-app/src/tunnel.rs dials for a peer.
use qvole_rs.Base.Map.{Map}
use qvole_rs.Base.{
  ℕ, suc, ◌*◌, ◌+◌, ◌≡◌, refl, sym, subst, Bool, true, false, not, ◌&&◌, Option, none, some, List,
  [], ◌∷◌, arith, Bytes, bytes, bytes_key, eqb, if_elim, option_elim, All, All-map,
}
use qvole_rs.Relay.Addr.{IpAddr}
use qvole_rs.App.TunnelRequest.{TunnelRequest}
use qvole_rs.App.TunnelAllow.{Names, TunnelAllow, forward_ips, resolve}
use qvole_rs.App.TunnelAllow.Forward
use qvole_rs.App.Stream.{
  nat_key, get_elem?, Header, Target, Handled, is_mine, dial_tcp, dial_each, dial_allowed, dial_for,
  bridge, handle_index, handle_tunnel_stream,
}

module _ (connects : ℕ → Bool) (startup now : Names) (parse_port : Bytes → Option ℕ)
    (allow : TunnelAllow) (reqs : List TunnelRequest) (my_req_start my_req_count : ℕ) where
  -- A target of an own request that is not of type L.
  abbrev pub IsOwn : Bytes → Type 0
  IsOwn target =
      (idx : ℕ) × (req : TunnelRequest) × (get_elem? reqs idx ≡ some req)
      × (is_mine my_req_start my_req_count idx ≡ true)
      × (eqb req.typ (bytes "L") ≡ false)
      × (target ≡ req.target_addr)

  -- An own target, or an address and a port that an entry of the allow list permits.
  abbrev pub IsAllowed : Target → Type 0
  IsAllowed (Target.named target) = IsOwn target
  IsAllowed (Target.address ip port) =
      (port_str : Bytes) × (parse_port port_str ≡ some port)
      × Forward.IsPermitted startup now allow port_str ip

  dial_each-All :
      (n port : ℕ) (ips : List IpAddr)
      → All (λ ip. IsAllowed (Target.address ip port)) ips
      → All IsAllowed (dial_each connects n port ips).0
  unfolding dial_each
  dial_each-All n port [] a = tt
  dial_each-All n port (ip ∷ ips) (a, rest) =
      if_elim (λ (d : List Target × Option Target). All IsAllowed d.0) (connects n) _ _
        (λ t. (a, tt)) (λ f. (a, dial_each-All (suc n) port ips rest))

  dial_allowed-All :
      (ips : List IpAddr) (port_str : Bytes)
      → All (λ ip. Forward.IsPermitted startup now allow port_str ip) ips
      → All IsAllowed (dial_allowed connects now parse_port allow (ips, port_str)).0
  unfolding dial_allowed
  dial_allowed-All ips port_str a =
      option_elim (λ (d : List Target × Option Target). All IsAllowed d.0) (parse_port port_str) _ _
        (λ n. tt)
        (λ port e. dial_each-All 0 port ips (
          All-map (λ ip. Forward.IsPermitted startup now allow port_str ip)
            (λ ip. IsAllowed (Target.address ip port)) ips (λ ip p. (port_str, e, p)) a))

  abbrev AreAllowed : Option (List Target × Option Target) → Type 0
  AreAllowed none = Unit
  AreAllowed (some d) = All IsAllowed d.0

  dial_for-AreAllowed :
      (idx : ℕ) (req : TunnelRequest)
      → allow.all ≡ false
      → get_elem? reqs idx ≡ some req
      → AreAllowed (
          dial_for connects now parse_port
            (resolve startup allow)
            req
            (is_mine my_req_start my_req_count idx))
  unfolding dial_for dial_tcp
  dial_for-AreAllowed idx req off e =
      let mine = is_mine my_req_start my_req_count idx in
      if_elim AreAllowed (eqb req.typ (bytes "L") && mine) _ _ (λ t. tt)
        (λ not_l.
          if_elim AreAllowed (eqb req.typ (bytes "R") && not mine) _ _ (λ t. tt)
            (λ not_r.
              if_elim AreAllowed mine _ _
                (λ m. ((idx, req, e, m, ground (arith, m, not_l), refl), tt))
                (λ f.
                  option_elim AreAllowed (forward_ips now (resolve startup allow) req.target_addr) _
                    _ (λ n. tt)
                    (λ (target : List IpAddr × Bytes) g. dial_allowed-All target.0 target.1 (
                      Forward.forward_ips-Permits startup now allow req.target_addr target.1
                        target.0 off g)))))

  bridge-dialled :
      (announced : Map ℕ Bool) (idx : ℕ) (d : List Target × Option Target)
      → (bridge connects now parse_port
          (resolve startup allow)
          reqs
          my_req_start
          my_req_count
          announced
          idx
          d).dialled
        ≡ d.0
  bridge-dialled announced idx (dialled, none) = refl
  bridge-dialled announced idx (dialled, some tcp) = refl

  handle_index-AreAllowed :
      (announced : Map ℕ Bool) (idx : ℕ)
      → allow.all ≡ false
      → All IsAllowed
          (handle_index connects now parse_port
            (resolve startup allow)
            reqs
            my_req_start
            my_req_count
            announced
            idx).dialled
  unfolding handle_index
  handle_index-AreAllowed announced idx off =
      option_elim (λ (h : Handled). All IsAllowed h.dialled) (get_elem? reqs idx) _ _ (λ n. tt)
        (λ req e.
          option_elim (λ (h : Handled). All IsAllowed h.dialled) _ _ _ (λ n. tt)
            (λ d g.
              subst (All IsAllowed) (sym (bridge-dialled announced idx d))
                (subst AreAllowed g (dial_for-AreAllowed idx req off e))))

  -- Without the setting that accepts everything, and with the rules resolved at startup, whatever
  -- the name lookups answer then and now: whatever header a stream has, also one that breaks off,
  -- and whichever attempts to dial succeed, everything that handle_tunnel_stream dials is the
  -- target of an own request that is not of type L, or an address and a port that an entry of the
  -- allow list permits, by the answers at startup, or, where no entry gave a rule then, by those
  -- of now.
  pub handle_tunnel_stream-AreAllowed :
      (announced : Map ℕ Bool) (header : Header)
      → allow.all ≡ false
      → All IsAllowed
          (handle_tunnel_stream connects now parse_port
            (resolve startup allow)
            reqs
            my_req_start
            my_req_count
            announced
            header).dialled
  unfolding handle_tunnel_stream
  handle_tunnel_stream-AreAllowed announced Header.elapsed off = tt
  handle_tunnel_stream-AreAllowed announced (Header.read a b) off =
      handle_index-AreAllowed announced (a * 256 + b) off
  handle_tunnel_stream-AreAllowed announced (Header.broken a b) off =
      handle_index-AreAllowed announced (a * 256 + b) off
