-- ===== src/App/TunnelRequest/Read.antt =====
-- crates/qvole-app/src/tunnel_request.rs: `read_requests_from_stream`. The reader's chunks are joined:
-- the bytes that it gives, and whether it fails behind them or ends. `lossy` is `from_utf8_lossy`.
use qvole_rs.Base.Split.{splitn}
use qvole_rs.Base.Result.{Result, ok, err}
use qvole_rs.Base.{
  ℕ, ◌≤◌, ◌≡◌, ◌⊎◌, inl, inr, subst, Bool, true, false, not, ◌&&◌, List, [], ◌∷◌, ◌++◌, arith, leb,
  ltb, ◌==◌, if◌then◌else◌, if_elim, Bytes, bytes, bytes_key, eqb, eqb-true, length, length-append,
  All, All-append, Bool-cases,
}
use qvole_rs.App.TunnelRequest.{TunnelRequest, parse_addr, strip_eol}
use qvole_rs.App.TunnelRequest.Split.{parse_addr-printable}

pub data TunnelRequestError : Type 0 where
  too_many : TunnelRequestError
  invalid_line : Bytes → TunnelRequestError
  invalid_type : Bytes → Bytes → TunnelRequestError
  read read_too_long : TunnelRequestError

abbrev pub scanner_max_token_size : ℕ
scanner_max_token_size = 4096

abbrev pub max_tunnel_requests : ℕ
max_tunnel_requests = 100

abbrev pub request : Bytes → Bytes → Bytes → TunnelRequest
request typ listen target = record {
  typ = typ;
  listen_addr = parse_addr listen;
  target_addr = parse_addr target;
}

-- What a line leads to: the end of the loop, or the requests so far.
pub data Next : Type 0 where
  done : Result TunnelRequestError (List TunnelRequest) → Next
  more : List TunnelRequest → Next

abbrev pub of_line : Bytes → List Bytes → List TunnelRequest → Next
of_line text (typ ∷ listen ∷ target ∷ []) reqs =
    if not (eqb typ (bytes "L")) && not (eqb typ (bytes "R"))
    then Next.done (err (TunnelRequestError.invalid_type typ text))
    else Next.more (reqs ++ request typ listen target ∷ [])
of_line text _ reqs = Next.done (err (TunnelRequestError.invalid_line text))

abbrev pub IsPrintable : Bytes → Type 0
IsPrintable b = All (λ c. (leb 32 c && ltb c 127) ≡ true) b

-- A request of one of the two types, with printable addresses.
abbrev pub IsRequest : TunnelRequest → Type 0
IsRequest r =
    ((r.typ ≡ bytes "L") ⊎ (r.typ ≡ bytes "R"))
    × IsPrintable r.listen_addr
    × IsPrintable r.target_addr

abbrev pub AreRequests : List TunnelRequest → Type 0
AreRequests reqs = (length reqs ≤ max_tunnel_requests) × All IsRequest reqs

-- What is returned, or gone on with.
abbrev Returns : Result TunnelRequestError (List TunnelRequest) → Type 0
Returns (ok reqs) = AreRequests reqs
Returns (err e) = Unit

abbrev Leads : Next → Type 0
Leads (Next.done r) = Returns r
Leads (Next.more reqs) = AreRequests reqs

typed :
    (t : Bytes)
    → (not (eqb t (bytes "L")) && not (eqb t (bytes "R"))) ≡ false
    → (t ≡ bytes "L") ⊎ (t ≡ bytes "R")
typed t h = elim (Bool-cases (eqb t (bytes "L"))) [
  | inl y ↦ inl (eqb-true t (bytes "L") y)
  | inr n ↦ elim (Bool-cases (eqb t (bytes "R"))) [
    | inl y ↦ inr (eqb-true t (bytes "R") y)
    | inr n' ↦ absurd (ground (arith, h, n, n'))
  ]
]

of_line-Leads :
    (text : Bytes) (parts : List Bytes) (reqs : List TunnelRequest)
    → AreRequests reqs
    → leb max_tunnel_requests (length reqs) ≡ false
    → Leads (of_line text parts reqs)
of_line-Leads text [] reqs a f = tt
of_line-Leads text (t ∷ []) reqs a f = tt
of_line-Leads text (t ∷ l ∷ []) reqs a f = tt
of_line-Leads text (t ∷ l ∷ r ∷ p ∷ ps) reqs a f = tt
of_line-Leads text (t ∷ l ∷ r ∷ []) reqs a f =
    if_elim Leads (not (eqb t (bytes "L")) && not (eqb t (bytes "R"))) _ _ (λ n. tt)
      (λ y. (
        ground (arith, f, length-append reqs (request t l r ∷ [])),
        All-append IsRequest reqs (request t l r ∷ []) a.1
            ((typed t y, parse_addr-printable l, parse_addr-printable r), tt),
      ))

module _ (lossy : Bytes → Bytes) (is_broken : Bool) where
  unfoldable pub on_line : Bytes → List TunnelRequest → Next
  unfolding splitn
  on_line line reqs =
      let text = lossy (strip_eol line) in
      if eqb text (bytes "END")
      then Next.done (ok reqs)
      else if leb max_tunnel_requests (length reqs)
      then Next.done (err TunnelRequestError.too_many)
      else of_line text (splitn 3 b' ' text) reqs

  abbrev pub at_end : Next → Result TunnelRequestError (List TunnelRequest)
  at_end (Next.done r) = r
  at_end (Next.more reqs) = ok reqs

  -- The bytes that are left, the line so far, and the requests so far.
  unfoldable pub read_from :
      Bytes → Bytes → List TunnelRequest → Result TunnelRequestError (List TunnelRequest)
  unfolding on_line
  read_from [] line reqs =
      if is_broken
      then err TunnelRequestError.read
      else if length line == 0
      then ok reqs
      else at_end (on_line line reqs)
  read_from (c ∷ b) line reqs = elim (c == b'\n') [
    | true ↦ elim (on_line (line ++ c ∷ []) reqs) [
      | Next.done r ↦ r
      | Next.more reqs' ↦ read_from b [] reqs'
    ]
    | false ↦ elim (leb scanner_max_token_size (length line)) [
      | true ↦ err TunnelRequestError.read_too_long
      | false ↦ read_from b (line ++ c ∷ []) reqs
    ]
  ]

  unfoldable pub read_requests_from_stream : Bytes → Result TunnelRequestError (List TunnelRequest)
  unfolding read_from
  read_requests_from_stream input = read_from input [] []

  branch_elim :
      (t : Bool) (x y : Result TunnelRequestError (List TunnelRequest))
      → Returns x
      → Returns y
      → Returns (elim t [ true ↦ x | false ↦ y ])
  branch_elim true x y h k = h
  branch_elim false x y h k = k

  next_elim :
      (n : Next) (g : List TunnelRequest → Result TunnelRequestError (List TunnelRequest))
      → Leads n
      → ((reqs : List TunnelRequest) → AreRequests reqs → Returns (g reqs))
      → Returns (elim n [ Next.done r ↦ r | Next.more reqs ↦ g reqs ])
  next_elim (Next.done r) g h f = h
  next_elim (Next.more reqs) g h f = f reqs h

  on_line-Leads :
      (line : Bytes) (reqs : List TunnelRequest) → AreRequests reqs → Leads (on_line line reqs)
  unfolding on_line
  on_line-Leads line reqs a =
      if_elim Leads (eqb (lossy (strip_eol line)) (bytes "END")) _ _ (λ t. a)
        (λ f.
          if_elim Leads (leb max_tunnel_requests (length reqs)) _ _ (λ t. tt)
            (λ f'. of_line-Leads (lossy (strip_eol line)) _ reqs a f'))

  at_end-Returns : (n : Next) → Leads n → Returns (at_end n)
  at_end-Returns (Next.done r) h = h
  at_end-Returns (Next.more reqs) h = h

  read_from-Returns :
      (b line : Bytes) (reqs : List TunnelRequest)
      → AreRequests reqs
      → Returns (read_from b line reqs)
  unfolding read_from
  read_from-Returns [] line reqs a =
      if_elim Returns is_broken _ _ (λ t. tt)
        (λ f.
          if_elim Returns (length line == 0) _ _ (λ t. a)
            (λ f'. at_end-Returns (on_line line reqs) (on_line-Leads line reqs a)))
  read_from-Returns (c ∷ b) line reqs a =
      branch_elim (c == b'\n') _ _
        (next_elim (on_line (line ++ c ∷ []) reqs) (read_from b [])
          (on_line-Leads (line ++ c ∷ []) reqs a) (λ reqs' a'. read_from-Returns b [] reqs' a'))
        (branch_elim (leb scanner_max_token_size (length line)) _ _ tt
          (read_from-Returns b (line ++ c ∷ []) reqs a))

  -- Whatever bytes a peer sends, with whatever ending and conversion of invalid UTF-8: the
  -- requests that read_requests_from_stream returns are at most 100, each of type L or R, with
  -- every byte of both addresses printable ASCII.
  pub read_requests_from_stream-AreRequests :
      (input : Bytes) (reqs : List TunnelRequest)
      → read_requests_from_stream input ≡ ok reqs
      → AreRequests reqs
  unfolding read_requests_from_stream
  read_requests_from_stream-AreRequests input reqs h =
      subst Returns h (read_from-Returns input [] [] (omega arith, tt))
