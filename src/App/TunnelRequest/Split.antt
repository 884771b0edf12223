-- ===== src/App/TunnelRequest/Split.antt =====
-- The splitting of a tunnel request at its colons, in crates/qvole-app/src/tunnel_request.rs.
use qvole_rs.Base.{
  ℕ, ◌≡◌, refl, subst, inl, inr, Bool, true, false, ◌&&◌, some, List, [], ◌∷◌, ◌++◌, arith, Bytes,
  ◌==◌, Option-cases, Bool-cases, All, leb, ltb,
}
use qvole_rs.App.TunnelRequest.{
  next_depth, is_cut, before, split_from, split_tunnel_request, parse_addr,
}

-- The parts with a colon between them.
abbrev pub join_colons : List Bytes → Bytes
join_colons [] = []
join_colons (part ∷ []) = part
join_colons (part ∷ next ∷ parts) = part ++ b':' ∷ join_colons (next ∷ parts)

-- There is a first part, and joining the parts gives the text.
abbrev IsSplit : Bytes → List Bytes → Type 0
IsSplit spec parts =
    (part : Bytes) × (rest : List Bytes) × (parts ≡ part ∷ rest) × (join_colons parts ≡ spec)

join-cons_first :
    (c : ℕ) (part : Bytes) (rest : List Bytes)
    → join_colons ((c ∷ part) ∷ rest) ≡ c ∷ join_colons (part ∷ rest)
join-cons_first c part [] = refl
join-cons_first c part (next ∷ rest) = refl

before-IsSplit :
    (cut : Bool) (c : ℕ) (spec part : Bytes) (rest parts : List Bytes)
    → join_colons (part ∷ rest) ≡ spec
    → (cut ≡ true → c ≡ b':')
    → before cut c (some (part ∷ rest)) ≡ some parts
    → IsSplit (c ∷ spec) parts
before-IsSplit true c spec part rest parts j k h =
    let e : [] ∷ part ∷ rest ≡ parts = ground arith in
    subst (IsSplit (c ∷ spec)) e ([], part ∷ rest, refl, rw (j, k refl))
before-IsSplit false c spec part rest parts j k h =
    let e : (c ∷ part) ∷ rest ≡ parts = ground arith in
    subst (IsSplit (c ∷ spec)) e (c ∷ part, rest, refl, rw (join-cons_first c part rest, j))

is_cut-colon : (depth c : ℕ) → is_cut depth c ≡ true → c ≡ b':'
unfolding is_cut
is_cut-colon depth c h = ground arith

split_from-IsSplit :
    (depth : ℕ) (spec : Bytes) (parts : List Bytes)
    → split_from depth spec ≡ some parts
    → IsSplit spec parts
unfolding split_from
split_from-IsSplit depth [] parts h = elim (Bool-cases (depth == 0)) [
  | inl z ↦ let e : [] ∷ [] ≡ parts = ground arith in subst (IsSplit []) e ([], [], refl, refl)
  | inr z ↦ absurd (ground (arith, h, z))
]
split_from-IsSplit depth (c ∷ spec) parts h = elim (Option-cases (next_depth depth c)) [
  | inl n ↦ absurd (ground (arith, h, n))
  | inr (d, n) ↦ elim (Option-cases (split_from d spec)) [
    | inl q ↦ absurd (ground (arith, h, n, q))
    | inr (ps, q) ↦
        let (part, rest, e, j) = split_from-IsSplit d spec ps q in
        before-IsSplit (is_cut depth c) c spec part rest parts
          (subst (λ x. join_colons x ≡ spec) e j) (is_cut-colon depth c)
          (ground (arith, h, n, q, e))
  ]
]

-- The parts of a tunnel request that split_tunnel_request does not refuse, joined by colons, are
-- the request again.
pub join_colons-split :
    (spec : Bytes) (parts : List Bytes)
    → split_tunnel_request spec ≡ some parts
    → join_colons parts ≡ spec
unfolding split_tunnel_request
join_colons-split spec parts h = let (part, rest, e, j) = split_from-IsSplit 0 spec parts h in j

-- Every byte of an address that parse_addr returns is printable ASCII, whatever the peer sent.
pub parse_addr-printable : (s : Bytes) → All (λ c. (leb 32 c && ltb c 127) ≡ true) (parse_addr s)
unfolding parse_addr
parse_addr-printable [] = tt
parse_addr-printable (c ∷ s) = elim (Bool-cases (leb 32 c && ltb c 127)) [
  | inl y ↦ rw y (y, parse_addr-printable s)
  | inr n ↦ rw n (parse_addr-printable s)
]
