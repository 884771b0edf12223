-- ===== src/App/TunnelAllow.antt =====
-- crates/qvole-app/src/tunnel_allow.rs: which requests of a peer are honoured. What the standard
-- library and the resolver do is given: `FromStr` of addresses, `to_lowercase`, and `lookup_host`
-- with its failures and its deadline standing as no address.
pub mod Forward
use qvole_rs.Base.Split.{split_once}
use qvole_rs.Base.Strip.{position, rposition, slice}
use qvole_rs.Base.{
  ℕ, ◌+◌, ◌-◌, Bool, true, false, not, ◌&&◌, ◌||◌, Option, none, some, List, [], ◌∷◌, ◌++◌, map,
  ltb, ◌==◌, if◌then◌else◌, Bytes, bytes_key, eqb, length, take, drop, any, all,
}
use qvole_rs.Relay.Addr.{IpAddr, ip_key_instance}

pub record IpRule : Type 0 where
  pub port : Bytes
  pub ip : Option IpAddr

pub record TunnelAllow : Type 0 where
  pub all : Bool
  pub listen : List Bytes
  pub forward : List Bytes
  pub forward_rules : List IpRule

pub record Names : Type 0 where
  pub parse : Bytes → Option IpAddr
  pub lookup_host : Bytes → List IpAddr
  pub to_lowercase : Bytes → Bytes

abbrev has : ℕ → Bytes → Bool
has c s = any (λ b. b == c) s

-- The two last tests, and the parts.
abbrev checked : Bytes → ℕ → ℕ → ℕ → Bytes → Option (Bytes × Bytes)
checked hostport i j k host =
    if has b'[' (drop j hostport)
    then none
    else if has b']' (drop k hostport)
    then none
    else some (host, drop (i + 1) hostport)

abbrev opens : Bytes → Bool
opens [] = false
opens (c ∷ s) = c == b'['

unfoldable pub split_host_port : Bytes → Option (Bytes × Bytes)
split_host_port hostport = elim (rposition (λ b. b == b':') hostport) [
  | none ↦ none
  | some i ↦
      if opens hostport
      then (elim (position (λ b. b == b']') hostport) [
        | none ↦ none
        | some end ↦
            if end + 1 == length hostport
            then none
            else if not (end + 1 == i)
            then none
            else checked hostport i 1 (end + 1) (slice 1 end hostport)
      ])
      else if has b':' (take i hostport)
      then none
      else checked hostport i 0 0 (take i hostport)
]

-- `s.split('.')`
abbrev split_on : ℕ → Bytes → List Bytes
split_on sep [] = [] ∷ []
split_on sep (c ∷ s) =
    let rest = split_on sep s in
    if c == sep then [] ∷ rest else elim rest [ [] ↦ (c ∷ []) ∷ [] | p ∷ ps ↦ (c ∷ p) ∷ ps ]

abbrev leads_with_zero : Bytes → Bool
leads_with_zero [] = false
leads_with_zero (c ∷ s) = c == b'0'

abbrev bad_group : Bytes → Bool
bad_group g = length g == 0 || ltb 3 (length g) || ltb 1 (length g) && leads_with_zero g

abbrev is_dotted : Bytes → Bool
is_dotted s =
    let groups = split_on b'.' s in length groups == 4 && all (λ g. not (bad_group g)) groups

-- An IPv4 literal must be dotted in full; an IPv6 literal is taken as it is.
abbrev strict : Bytes → Option IpAddr → Option IpAddr
strict s none = none
strict s (some (IpAddr.v6 hi lo)) = some (IpAddr.v6 hi lo)
strict s (some (IpAddr.v4 ip)) = if is_dotted s then some (IpAddr.v4 ip) else none

module _ (names : Names) where
  unfoldable pub parse_ip_go : Bytes → Option IpAddr
  parse_ip_go s = strict s (names.parse s)

  unfoldable pub resolve_all_ips : Bytes → List IpAddr
  unfolding parse_ip_go
  resolve_all_ips host = elim (parse_ip_go host) [
    | some ip ↦ ip ∷ []
    | none ↦ if length host == 0 then [] else names.lookup_host host
  ]

  abbrev pub entry_rules : Option (Bytes × Bytes) → List IpRule
  entry_rules none = []
  entry_rules (some (host, port)) =
      if length host == 0
      then record { port = port; ip = none } ∷ []
      else map (λ ip. record { port = port; ip = some ip }) (resolve_all_ips host)

  unfoldable pub build_forward_rules : List Bytes → List IpRule
  build_forward_rules [] = []
  build_forward_rules (e ∷ entries) = entry_rules (split_host_port e) ++ build_forward_rules entries

  abbrev rule_ip : Option IpAddr → IpAddr → Bool
  rule_ip none ip = true
  rule_ip (some i) ip = eqb i ip

  unfoldable pub match_forward_ips : List IpRule → IpAddr → Bytes → Bool
  match_forward_ips [] ip port = false
  match_forward_ips (r ∷ rules) ip port =
      let rest = match_forward_ips rules ip port in
      if not (eqb r.port port) then rest else if rule_ip r.ip ip then true else rest

  unfoldable pub resolve : TunnelAllow → TunnelAllow
  unfolding build_forward_rules
  resolve a = record a { forward_rules = build_forward_rules a.forward }

  -- The rules, built on the spot where `resolve` has not run.
  unfoldable pub rules_of : TunnelAllow → List IpRule
  rules_of a =
      if length a.forward_rules == 0 && not (length a.forward == 0)
      then build_forward_rules a.forward
      else a.forward_rules

  abbrev pub keep_allowed : List IpRule → Bytes → List IpAddr → List IpAddr
  keep_allowed rules port [] = []
  keep_allowed rules port (ip ∷ ips) =
      let rest = keep_allowed rules port ips in
      if match_forward_ips rules ip port then ip ∷ rest else rest

  -- `None` where the third component is false: the caller must reject.
  abbrev pub non_empty : List IpAddr → Bytes → Option (List IpAddr × Bytes)
  non_empty [] port = none
  non_empty (ip ∷ ips) port = some (ip ∷ ips, port)

  unfoldable pub forward_ips : TunnelAllow → Bytes → Option (List IpAddr × Bytes)
  unfolding rules_of
  forward_ips a addr = elim (split_host_port addr) [
    | none ↦ none
    | some hp ↦
        let ips = resolve_all_ips hp.0 in
        if length ips == 0
        then none
        else if a.all
        then some (ips, hp.1)
        else non_empty (keep_allowed (rules_of a) hp.1 ips) hp.1
  ]

  abbrev entry_matches : Option (Bytes × Bytes) → Bytes → Bytes → Bool
  entry_matches none host port = false
  entry_matches (some (e_host, e_port)) host port =
      eqb e_port port && (length e_host == 0 || eqb (names.to_lowercase e_host) host)

  unfoldable pub allow_match : List Bytes → Bytes → Bool
  allow_match entries addr = elim (split_host_port addr) [
    | none ↦ false
    | some hp ↦ any (λ e. entry_matches (split_host_port e) (names.to_lowercase hp.0) hp.1) entries
  ]

  unfoldable pub allows_listen : TunnelAllow → Bytes → Bool
  unfolding allow_match
  allows_listen a addr = a.all || allow_match a.listen addr

  unfoldable pub allows_forward : TunnelAllow → Bytes → Bool
  unfolding allow_match
  allows_forward a addr = a.all || allow_match a.forward addr

unfoldable pub accepts : TunnelAllow → Bool
accepts a = a.all || not (length a.listen == 0) || not (length a.forward == 0)

abbrev has_port : Option (Bytes × Bytes) → Bool
has_port none = false
has_port (some (host, port)) = not (length port == 0)

-- Whether `validate` finds no malformed entry; the text of its error is not modelled.
unfoldable pub validate : TunnelAllow → Bool
validate a =
    all (λ e. has_port (split_host_port e)) a.listen
    && all (λ e. has_port (split_host_port e)) a.forward
