-- ===== src/Relay/Addr/Network.antt =====
-- crates/qvole-relay/src/room.rs: which sources share an accounting key.
use qvole_rs.Base.{
  ℕ, zero, suc, ap, sym, subst, ◌∙◌, ◌⊎◌, inl, inr, Bool-cases, [], ◌∷◌, ◌++◌, take, replicate,
  refl, ◌/◌, ◌%◌, ◌^◌, ◌<◌, ◌+◌, ◌*◌, ◌≡◌, ◌↔◌, ◌&&◌, arith, ◌==◌, if◌then◌else◌, Bytes,
}
use qvole_rs.Relay.Addr.{
  IpAddr, SocketAddr, ip_key, is_loopback, be_octets, of_octets, octets, from_octets,
}

of_octets-append :
    (n : ℕ) (bs : Bytes) (b : ℕ) → of_octets n (bs ++ (b ∷ [])) ≡ of_octets n bs * 256 + b
of_octets-append n [] b = refl
of_octets-append n (c ∷ bs) b = of_octets-append (n * 256 + c) bs b

of_octets-be_octets : (k n : ℕ) → n < 256 ^ k → of_octets 0 (be_octets k n) ≡ n
of_octets-be_octets zero n h = omega arith
of_octets-be_octets (suc k) n h =
    let rest = of_octets-be_octets k (n / 256) (omega arith) in
    omega (arith, rest, of_octets-append 0 (be_octets k (n / 256)) (n % 256))

-- The octets of the upper half, and zeros.
masked-upper :
    (hi lo : ℕ)
    → hi < 2 ^ 64
    → from_octets (take 8 (octets hi lo) ++ replicate 8 0) ≡ IpAddr.v6 hi 0
masked-upper hi lo h = ap (λ x. IpAddr.v6 x 0) (of_octets-be_octets 8 hi h)

-- The 128 bits of an address.
abbrev pub number : ℕ → ℕ → ℕ
number hi lo = hi * 2 ^ 64 + lo

-- ::1, or ::ffff:a.b.c.d
abbrev pub IsSpecial : ℕ → Type 0
IsSpecial n = (n ≡ 1) ⊎ (n / 2 ^ 32 ≡ 0xffff)

-- The address of a host: the same 32 bits, also when IPv6 maps them; the same 128 bits; or two
-- IPv6 addresses that are not special, of one /64.
abbrev pub SameHost : SocketAddr → SocketAddr → Type 0
SameHost (SocketAddr.v4 a _) (SocketAddr.v4 b _) = a ≡ b
SameHost (SocketAddr.v4 a _) (SocketAddr.v6 hi lo _ _ _) = number hi lo ≡ 0xffff * 2 ^ 32 + a
SameHost (SocketAddr.v6 hi lo _ _ _) (SocketAddr.v4 b _) = number hi lo ≡ 0xffff * 2 ^ 32 + b
SameHost (SocketAddr.v6 hi lo _ _ _) (SocketAddr.v6 hi' lo' _ _ _) =
    (number hi lo ≡ number hi' lo')
    ⊎ ((number hi lo / 2 ^ 64 ≡ number hi' lo' / 2 ^ 64)
        × ¬ IsSpecial (number hi lo)
        × ¬ IsSpecial (number hi' lo'))

-- 32 bits, or two times 64.
abbrev pub InRange : SocketAddr → Type 0
InRange (SocketAddr.v4 a _) = a < 2 ^ 32
InRange (SocketAddr.v6 hi lo _ _ _) = (hi < 2 ^ 64) × (lo < 2 ^ 64)

-- The key of an IPv6 address: of a mapped one, of the loopback address, of any other.
abbrev Keyed : ℕ → IpAddr → Type 0
Keyed n key =
    ((n / 2 ^ 32 ≡ 0xffff) × (key ≡ IpAddr.v4 (n % 2 ^ 32)))
    ⊎ (((n ≡ 1) × (key ≡ IpAddr.v6 0 1)) ⊎ (¬ IsSpecial n × (key ≡ IpAddr.v6 (n / 2 ^ 64) 0)))

ip_key-Keyed :
    (hi lo port flow scope : ℕ)
    → hi < 2 ^ 64
    → lo < 2 ^ 64
    → Keyed (number hi lo) (ip_key (SocketAddr.v6 hi lo port flow scope))
unfolding ip_key
ip_key-Keyed hi lo port flow scope h l = elim (Bool-cases (hi == 0 && lo / 2 ^ 32 == 0xffff)) [
  | inl t ↦
      let z : hi ≡ 0 = ground (arith, t) in
      let m : lo / 2 ^ 32 ≡ 0xffff = ground (arith, t) in
      inl (omega arith, rw (ip_key, t) (ap IpAddr.v4 (omega arith)))
  | inr f ↦
      let n : ¬ ((hi ≡ 0) × (lo / 2 ^ 32 ≡ 0xffff)) = λ p. ground (arith, f, p.0, p.1) in
      elim (Bool-cases (is_loopback hi lo)) [
        | inl t ↦
            let z : hi ≡ 0 = ground (arith, t) in
            let o : lo ≡ 1 = ground (arith, t) in
            inr (inl (omega arith, rw (ip_key, f, t, z, o) refl))
        | inr g ↦
            let m : ¬ ((hi ≡ 0) × (lo ≡ 1)) = λ p. ground (arith, g, p.0, p.1) in
            inr (
              inr (
                (λ special. elim special [
                  | inl one ↦ m (omega arith, omega arith)
                  | inr top ↦ n (omega arith, omega arith)
                ]),
                rw (ip_key, f, g) (masked-upper hi lo h ∙ ap (λ x. IpAddr.v6 x 0) (omega arith)),
              ))
      ]
]

v4-Keyed :
    (a n : ℕ) (key : IpAddr)
    → a < 2 ^ 32
    → Keyed n key
    → (IpAddr.v4 a ≡ key) ↔ (n ≡ 0xffff * 2 ^ 32 + a)
v4-Keyed a n key h (inl (m, e)) =
    (λ p. ground (arith, p, e), λ q. sym (e ∙ ap IpAddr.v4 (omega (arith, q))))
v4-Keyed a n key h (inr (inl (o, e))) =
    (λ p. absurd (ground (arith, p, e)), λ q. absurd (omega (arith, o, q)))
v4-Keyed a n key h (inr (inr (g, e))) =
    (λ p. absurd (ground (arith, p, e)), λ q. absurd (g (inr (omega (arith, q)))))

Keyed-same :
    (n n' : ℕ) (k : IpAddr)
    → Keyed n k
    → Keyed n' k
    → (n ≡ n') ⊎ ((n / 2 ^ 64 ≡ n' / 2 ^ 64) × ¬ IsSpecial n × ¬ IsSpecial n')
Keyed-same n n' k (inl (m, e)) (inl (m', e')) = inl (ground (arith, e, e', m, m'))
Keyed-same n n' k (inl (m, e)) (inr (inl (o', e'))) = absurd (ground (arith, e, e'))
Keyed-same n n' k (inl (m, e)) (inr (inr (g', e'))) = absurd (ground (arith, e, e'))
Keyed-same n n' k (inr (inl (o, e))) (inl (m', e')) = absurd (ground (arith, e, e'))
Keyed-same n n' k (inr (inl (o, e))) (inr (inl (o', e'))) = inl (o ∙ sym o')
Keyed-same n n' k (inr (inl (o, e))) (inr (inr (g', e'))) = absurd (ground (arith, e, e'))
Keyed-same n n' k (inr (inr (g, e))) (inl (m', e')) = absurd (ground (arith, e, e'))
Keyed-same n n' k (inr (inr (g, e))) (inr (inl (o', e'))) = absurd (ground (arith, e, e'))
Keyed-same n n' k (inr (inr (g, e))) (inr (inr (g', e'))) = inr (ground (arith, e, e'), g, g')

-- The one key of an address.
Keyed-eq :
    (n : ℕ) (k : IpAddr)
    → Keyed n k
    → k ≡ (
        if n / 2 ^ 32 == 0xffff
        then IpAddr.v4 (n % 2 ^ 32)
        else if n == 1
        then IpAddr.v6 0 1
        else IpAddr.v6 (n / 2 ^ 64) 0)
Keyed-eq n k (inl (m, e)) = ground (arith, m, e)
Keyed-eq n k (inr (inl (o, e))) = ground (arith, o, e)
Keyed-eq n k (inr (inr (g, e))) =
    let a : ¬ (n ≡ 1) = λ o. g (inl o) in
    let b : ¬ (n / 2 ^ 32 ≡ 0xffff) = λ m. g (inr m) in ground (arith, a, b, e)

Keyed-general : (n : ℕ) (k : IpAddr) → Keyed n k → ¬ IsSpecial n → k ≡ IpAddr.v6 (n / 2 ^ 64) 0
Keyed-general n k (inl (m, e)) g = absurd (g (inr m))
Keyed-general n k (inr (inl (o, e))) g = absurd (g (inl o))
Keyed-general n k (inr (inr (_, e))) g = e

v6-Keyed :
    (n n' : ℕ) (k k' : IpAddr)
    → Keyed n k
    → Keyed n' k'
    → (k ≡ k') ↔ ((n ≡ n') ⊎ ((n / 2 ^ 64 ≡ n' / 2 ^ 64) × ¬ IsSpecial n × ¬ IsSpecial n'))
v6-Keyed n n' k k' d d' = (
  λ p. Keyed-same n n' k d (subst (Keyed n') (sym p) d'),
  λ q. elim q [
    | inl same ↦ Keyed-eq n k d ∙ sym (Keyed-eq n k' (subst (λ x. Keyed x k') (sym same) d'))
    | inr (u, g, g') ↦
        Keyed-general n k d g ∙ (ap (λ x. IpAddr.v6 x 0) u ∙ sym (Keyed-general n' k' d' g'))
  ],
)

-- Two sources, their IPv4 addresses of 32 bits and the halves of their IPv6 addresses of 64 bits
-- each, share an accounting key exactly when they have the same IPv4 address, also as an
-- IPv4-mapped one; or the same IPv6 address of 128 bits; or IPv6 addresses of one /64, neither of
-- them loopback or IPv4-mapped.
pub ip_key-SameHost :
    (a b : SocketAddr) → InRange a → InRange b → (ip_key a ≡ ip_key b) ↔ SameHost a b
unfolding ip_key
ip_key-SameHost (SocketAddr.v4 a _) (SocketAddr.v4 b _) h h' = ground arith
ip_key-SameHost (SocketAddr.v4 a _) (SocketAddr.v6 hi lo p f c) h h' =
    v4-Keyed a (number hi lo) _ h (ip_key-Keyed hi lo p f c h'.0 h'.1)
ip_key-SameHost (SocketAddr.v6 hi lo p f c) (SocketAddr.v4 b _) h h' =
    let (there, back) = v4-Keyed b (number hi lo) _ h' (ip_key-Keyed hi lo p f c h.0 h.1) in
    (λ e. there (sym e), λ q. sym (back q))
ip_key-SameHost (SocketAddr.v6 hi lo p f c) (SocketAddr.v6 hi' lo' p' f' c') h h' =
    v6-Keyed (number hi lo) (number hi' lo') _ _ (ip_key-Keyed hi lo p f c h.0 h.1)
      (ip_key-Keyed hi' lo' p' f' c' h'.0 h'.1)

-- An IPv4-mapped IPv6 source has the accounting key of the IPv4 address that it maps.
ip_key-mapped :
    (ip port port' flow scope : ℕ)
    → ip < 2 ^ 32
    → ip_key (SocketAddr.v6 0 (0xffff * 2 ^ 32 + ip) port flow scope)
      ≡ ip_key (SocketAddr.v4 ip port')
unfolding ip_key
ip_key-mapped ip port port' flow scope h = ground arith
