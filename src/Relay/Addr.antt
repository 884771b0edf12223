-- ===== src/Relay/Addr.antt =====
-- crates/qvole-relay/src/room.rs: `ip_key`, and the textual form of addresses under which the
-- relay files its clients. An IPv6 address is its upper and its lower 64 bits.
pub mod Network
use qvole_rs.Base.{
  ℕ, zero, suc, ap, sym, subst, ◌∙◌, ◌⊎◌, inl, inr, Option-cases, Bool-cases, List, [], ◌∷◌, ◌++◌,
  take, drop, replicate, refl, ◌≤◌, ◌/◌, ◌%◌, ◌^◌, ◌<◌, ◌+◌, ◌*◌, ◌≡◌, ◌↔◌, Bool, false, ◌&&◌,
  Option, none, some, arith, ◌==◌, if◌then◌else◌, Bytes, Key, ℕ_discrete,
}

pub data IpAddr : Type 0 where
  v4 : ℕ → IpAddr
  v6 : ℕ → ℕ → IpAddr

unfoldable pub IpAddr-discrete : Discrete IpAddr
IpAddr-discrete = hlevel ℕ_discrete

instance abbrev pub ip_key_instance : Key IpAddr
ip_key_instance = record { dec = IpAddr-discrete }

-- `SocketAddrV4` (address, port) and `SocketAddrV6` (address, port, flow label, scope).
pub data SocketAddr : Type 0 where
  v4 : ℕ → ℕ → SocketAddr
  v6 : ℕ → ℕ → ℕ → ℕ → ℕ → SocketAddr

-- `Ipv6Addr::to_ipv4_mapped`: ::ffff:a.b.c.d
abbrev pub to_ipv4_mapped : ℕ → ℕ → Option ℕ
to_ipv4_mapped hi lo = if hi == 0 && lo / 2 ^ 32 == 0xffff then some (lo % 2 ^ 32) else none

-- `Ipv6Addr::is_loopback`: ::1
abbrev pub is_loopback : ℕ → ℕ → Bool
is_loopback hi lo = hi == 0 && lo == 1

-- `Ipv6Addr::octets`, and `Ipv6Addr::from` of sixteen octets: the most significant octet comes first.
abbrev pub be_octets : ℕ → ℕ → Bytes
be_octets zero n = []
be_octets (suc k) n = be_octets k (n / 256) ++ (n % 256 ∷ [])

abbrev pub of_octets : ℕ → Bytes → ℕ
of_octets n [] = n
of_octets n (b ∷ bs) = of_octets (n * 256 + b) bs

abbrev pub octets : ℕ → ℕ → Bytes
octets hi lo = be_octets 8 hi ++ be_octets 8 lo

abbrev pub from_octets : Bytes → IpAddr
from_octets bs = IpAddr.v6 (of_octets 0 (take 8 bs)) (of_octets 0 (drop 8 bs))

unfoldable pub ip_key : SocketAddr → IpAddr
ip_key (SocketAddr.v4 ip port) = IpAddr.v4 ip
ip_key (SocketAddr.v6 hi lo port flow scope) = elim (to_ipv4_mapped hi lo) [
  | some ip ↦ IpAddr.v4 ip
  | none ↦
      if is_loopback hi lo
      then IpAddr.v6 hi lo
      else from_octets (take 8 (octets hi lo) ++ replicate 8 0)
]

-- The text of a `SocketAddrV6` carries no flow label.
abbrev pub without_flow : SocketAddr → SocketAddr
without_flow (SocketAddr.v4 ip port) = SocketAddr.v4 ip port
without_flow (SocketAddr.v6 hi lo port flow scope) = SocketAddr.v6 hi lo port 0 scope

-- `Display` and `FromStr` of the standard library's addresses.
pub record AddrText : Type 0 where
  pub to_string : SocketAddr → Bytes
  pub parse : Bytes → Option SocketAddr
  pub ip_to_string : IpAddr → Bytes
  pub parse-to_string : (a : SocketAddr) → parse (to_string a) ≡ some (without_flow a)

-- `ip_key(addr.parse().expect(…))`; the panic of `expect` stands as the unspecified address.
unfoldable pub key_ip : AddrText → Bytes → IpAddr
key_ip text s = elim (text.parse s) [ some a ↦ ip_key a | none ↦ IpAddr.v4 0 ]

-- A key that the relay made by `to_string` leads back to the address's own accounting key.
pub key_ip-to_string :
    (text : AddrText) (a : SocketAddr) → key_ip text (text.to_string a) ≡ ip_key a
unfolding key_ip ip_key
key_ip-to_string text (SocketAddr.v4 ip port) =
    ground (arith, text.parse-to_string (SocketAddr.v4 ip port))
key_ip-to_string text (SocketAddr.v6 hi lo port flow scope) =
    ground (arith, text.parse-to_string (SocketAddr.v6 hi lo port flow scope))
