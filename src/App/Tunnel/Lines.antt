-- ===== src/App/Tunnel/Lines.antt =====
-- crates/qvole-app/src/tunnel.rs: the line of a tunnel request, and what the reader makes of it.
use mathlib.Core.List.{append_assoc}
use qvole_rs.Base.Split.{splitn, split_once}
use qvole_rs.Base.{
  ℕ, ◌-◌, ◌+◌, ◌≤◌, ◌<◌, ◌≡◌, ◌⊎◌, inl, inr, refl, sym, ap, ◌∙◌, false, not, ◌&&◌, Option, some,
  List, [], ◌∷◌, ◌++◌, arith, ◌==◌, Bytes, bytes, bytes_key, eqb, eqb-true, length, length-append,
  All, All-append, Bool-cases, get_or, Bytes-discrete, ℕ_discrete,
}
use qvole_rs.Base.Slices.{take-append}
use qvole_rs.App.TunnelRequest.{TunnelRequest, parse_addr, strip_eol, ends_with}
use qvole_rs.App.TunnelRequest.Read.{Next, of_line, scanner_max_token_size}
use qvole_rs.App.Tunnel.{request_line}

-- Printable ASCII.
abbrev pub IsPlain : Bytes → Type 0
IsPlain b = All (λ c. (32 ≤ c) × (c < 127)) b

abbrev pub IsWord : Bytes → Type 0
IsWord b = All (λ c. (33 ≤ c) × (c < 127)) b

-- A request that a line can carry.
abbrev pub IsLine : TunnelRequest → Type 0
IsLine r =
    ((r.typ ≡ bytes "L") ⊎ (r.typ ≡ bytes "R"))
    × IsWord r.listen_addr
    × IsPlain r.target_addr
    × (length r.listen_addr + length r.target_addr + 3 ≤ scanner_max_token_size)

parse_addr-IsPlain : (b : Bytes) → IsPlain b → parse_addr b ≡ b
unfolding parse_addr
parse_addr-IsPlain [] h = refl
parse_addr-IsPlain (c ∷ b) h = ground (arith, h.0, parse_addr-IsPlain b h.1)

pub IsWord-IsPlain : (b : Bytes) → IsWord b → IsPlain b
IsWord-IsPlain [] h = tt
IsWord-IsPlain (c ∷ b) h = ((omega (arith, h.0.0), h.0.1), IsWord-IsPlain b h.1)

-- A word ends at the first space.
split_once-word : (b rest : Bytes) → IsWord b → split_once b' ' (b ++ b' ' ∷ rest) ≡ (b, some rest)
unfolding split_once
split_once-word [] rest h = refl
split_once-word (c ∷ b) rest h =
    let e : (c == b' ') ≡ false = ground (arith, h.0.0) in rw (e, split_once-word b rest h.1) refl

ends_with-append : (c d : ℕ) (b : Bytes) → ends_with c (b ++ d ∷ []) ≡ (d == c)
ends_with-append c d [] = refl
ends_with-append c d (a ∷ []) = refl
ends_with-append c d (a ∷ e ∷ b) = ends_with-append c d (e ∷ b)

ends_with-plain : (b : Bytes) → IsPlain b → ends_with 13 b ≡ false
ends_with-plain [] h = refl
ends_with-plain (c ∷ []) h = ground (arith, h.0.0)
ends_with-plain (c ∷ d ∷ b) h = ends_with-plain (d ∷ b) h.1

pub strip_eol-plain : (b : Bytes) → IsPlain b → strip_eol (b ++ b'\n' ∷ []) ≡ b
unfolding strip_eol
strip_eol-plain b h =
    let l : length b ≡ length (b ++ b'\n' ∷ []) - 1 = omega (arith, length-append b (b'\n' ∷ [])) in
    rw
      (
        ends_with-append 10 10 b,
        take-append (length (b ++ b'\n' ∷ []) - 1) b (b'\n' ∷ []) l,
        ends_with-plain b h,
      )
      refl

-- The line of a request, without its line feed.
abbrev pub text : TunnelRequest → Bytes
text r = r.typ ++ (b' ' ∷ (r.listen_addr ++ b' ' ∷ r.target_addr))

typ-IsWord : (t : Bytes) → (t ≡ bytes "L") ⊎ (t ≡ bytes "R") → IsWord t × (length t ≡ 1)
typ-IsWord t (inl e) = rw e (((omega arith, omega arith), tt), refl)
typ-IsWord t (inr e) = rw e (((omega arith, omega arith), tt), refl)

pub text-IsPlain :
    (r : TunnelRequest) → IsLine r → IsPlain (text r) × (length (text r) ≤ scanner_max_token_size)
text-IsPlain r (t, l, g, n) =
    let (w, one) = typ-IsWord r.typ t in
    let join = All-append (λ c. (32 ≤ c) × (c < 127)) in
    let space : (32 ≤ b' ') × (b' ' < 127) = (omega arith, omega arith) in
    (
      join r.typ _ (IsWord-IsPlain r.typ w)
          (space, join r.listen_addr _ (IsWord-IsPlain r.listen_addr l) (space, g)),
      omega (
        arith,
        length-append r.typ (b' ' ∷ (r.listen_addr ++ b' ' ∷ r.target_addr)),
        length-append r.listen_addr (b' ' ∷ r.target_addr),
        one,
        n,
      ),
    )

pub request_line-text : (r : TunnelRequest) → request_line r ≡ text r ++ b'\n' ∷ []
unfolding request_line
request_line-text r = sym (
    append_assoc r.typ (b' ' ∷ (r.listen_addr ++ b' ' ∷ r.target_addr)) (b'\n' ∷ [])
    ∙ ap (λ b. r.typ ++ (b' ' ∷ b))
        (append_assoc r.listen_addr (b' ' ∷ r.target_addr) (b'\n' ∷ [])))

pub splitn-text :
    (r : TunnelRequest)
    → IsLine r
    → splitn 3 b' ' (text r) ≡ r.typ ∷ r.listen_addr ∷ r.target_addr ∷ []
unfolding splitn
splitn-text r (t, l, g, n) =
    let first =
      split_once-word r.typ (r.listen_addr ++ b' ' ∷ r.target_addr) (typ-IsWord r.typ t).0 in
    let second = split_once-word r.listen_addr r.target_addr l in
    rw (splitn, first, second)
      (ap
          (λ (x : Bytes × Option Bytes).
            x.0 ∷ (split_once b' ' (r.listen_addr ++ b' ' ∷ r.target_addr)).0 ∷ r.target_addr ∷ [])
          first
        ∙ ap (λ (x : Bytes × Option Bytes). r.typ ∷ x.0 ∷ r.target_addr ∷ []) second)

pub text-not_end : (r : TunnelRequest) → IsLine r → eqb (text r) (bytes "END") ≡ false
text-not_end r (t, l, g, n) = elim (Bool-cases (eqb (text r) (bytes "END"))) [
  | inl y ↦
      let e = eqb-true (text r) (bytes "END") y in
      let z = ap (λ (b : Bytes). get_or b 0 0) e in
      absurd (elim t [ inl q ↦ ground (arith, rw q at z) | inr q ↦ ground (arith, rw q at z) ])
  | inr f ↦ f
]

is_typ :
    (t : Bytes)
    → (t ≡ bytes "L") ⊎ (t ≡ bytes "R")
    → (not (eqb t (bytes "L")) && not (eqb t (bytes "R"))) ≡ false
unfolding Bytes-discrete ℕ_discrete
is_typ t (inl e) = rw e refl
is_typ t (inr e) = rw e refl

pub of_line-request :
    (t : Bytes) (r : TunnelRequest) (reqs : List TunnelRequest)
    → IsLine r
    → of_line t (r.typ ∷ r.listen_addr ∷ r.target_addr ∷ []) reqs ≡ Next.more (reqs ++ r ∷ [])
of_line-request t r reqs (q, l, g, n) =
    rw
      (
        parse_addr-IsPlain r.listen_addr (IsWord-IsPlain r.listen_addr l),
        parse_addr-IsPlain r.target_addr g,
        is_typ r.typ q,
      )
      refl

pub ascii : (b : Bytes) → IsPlain b → All (λ c. c < 128) b
ascii [] h = tt
ascii (c ∷ b) h = (omega (arith, h.0.1), ascii b h.1)
