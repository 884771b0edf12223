-- ===== src/App/Tunnel/Agreement.antt =====
-- crates/qvole-app/src/tunnel.rs: the configuration of one side, read by the other.
use mathlib.Core.List.{append_assoc, append-nil}
use qvole_rs.Base.Result.{Result, ok}
use qvole_rs.Base.{
  ◌+◌, ◌≤◌, ◌<◌, ◌≡◌, refl, sym, ap, ◌∙◌, Bool, true, false, List, [], ◌∷◌, ◌++◌, arith, leb, ltb,
  ◌==◌, Bytes, bytes, bytes_key, length, length-append, All, Bytes-discrete, ℕ_discrete,
}
use qvole_rs.App.TunnelRequest.{TunnelRequest, strip_eol}
use qvole_rs.App.TunnelRequest.Read.{
  TunnelRequestError, Next, on_line, read_from, read_requests_from_stream, max_tunnel_requests,
  scanner_max_token_size,
}
use qvole_rs.App.Tunnel.{
  accept_line, request_line, request_lines, write_config, combine, read_accept_from,
  read_accept_line, read_config, exchange_tunnel_config,
}
use qvole_rs.App.Tunnel.Lines.{
  IsPlain, IsLine, text, strip_eol-plain, text-IsPlain, request_line-text, splitn-text,
  text-not_end, of_line-request, ascii,
}

module _ (lossy : Bytes → Bytes) (is_broken : Bool)
    (same : (b : Bytes) → All (λ c. c < 128) b → lossy b ≡ b) where
  lossy-plain : (b : Bytes) → IsPlain b → lossy b ≡ b
  lossy-plain b h = same b (ascii b h)

  on_line-text :
      (r : TunnelRequest) (reqs : List TunnelRequest)
      → IsLine r
      → length reqs < max_tunnel_requests
      → on_line lossy is_broken (text r ++ b'\n' ∷ []) reqs ≡ Next.more (reqs ++ r ∷ [])
  unfolding on_line
  on_line-text r reqs h n =
      let (p, _) = text-IsPlain r h in
      let room : leb max_tunnel_requests (length reqs) ≡ false = ground (arith, n) in
      rw
        (
          strip_eol-plain (text r) p,
          lossy-plain (text r) p,
          text-not_end r h,
          room,
          splitn-text r h,
        )
        (of_line-request (text r) r reqs h)

  on_line-end :
      (reqs : List TunnelRequest)
      → on_line lossy is_broken (bytes "END\n") reqs ≡ Next.done (ok reqs)
  unfolding on_line strip_eol Bytes-discrete ℕ_discrete
  on_line-end reqs = rw (lossy-plain (bytes "END") (ground arith)) refl

  abbrev goes_on : Bytes → Next → Result TunnelRequestError (List TunnelRequest)
  goes_on b (Next.done r) = r
  goes_on b (Next.more reqs) = read_from lossy is_broken b [] reqs

  goes_on-elim :
      (b : Bytes) (n : Next)
      → elim n [ Next.done r ↦ r | Next.more reqs ↦ read_from lossy is_broken b [] reqs ]
        ≡ goes_on b n
  goes_on-elim b (Next.done r) = refl
  goes_on-elim b (Next.more reqs) = refl

  read_from-line :
      (w b acc : Bytes) (reqs : List TunnelRequest)
      → IsPlain w
      → length acc + length w ≤ scanner_max_token_size
      → read_from lossy is_broken (w ++ b'\n' ∷ b) acc reqs
        ≡ goes_on b (on_line lossy is_broken ((acc ++ w) ++ b'\n' ∷ []) reqs)
  unfolding read_from
  read_from-line [] b acc reqs h n =
      rw (append-nil acc) (goes_on-elim b (on_line lossy is_broken (acc ++ b'\n' ∷ []) reqs))
  read_from-line (c ∷ w) b acc reqs h n =
      let e : (c == b'\n') ≡ false = ground (arith, h.0.0) in
      let l : leb scanner_max_token_size (length acc) ≡ false = ground (arith, n) in
      let a = append_assoc acc (c ∷ []) w in
      rw
        (
          read_from,
          e,
          l,
          read_from-line w b (acc ++ c ∷ []) reqs h.1
              (omega (arith, n, length-append acc (c ∷ []))),
          a,
        )
        refl

  -- The requests, line by line.
  read_from-lines :
      (reqs before : List TunnelRequest)
      → All IsLine reqs
      → length before + length reqs ≤ max_tunnel_requests
      → read_from lossy is_broken (request_lines reqs ++ bytes "END\n") [] before
        ≡ ok (before ++ reqs)
  read_from-lines [] before a n =
      read_from-line (bytes "END") [] [] before (ground arith) (omega arith)
      ∙ (ap (goes_on []) (on_line-end before) ∙ ap ok (sym (append-nil before)))
  read_from-lines (r ∷ reqs) before a n =
      let (p, l) = text-IsPlain r a.0 in
      let rest = request_lines reqs ++ bytes "END\n" in
      let shape : (request_line r ++ request_lines reqs) ++ bytes "END\n" ≡ text r ++ b'\n' ∷ rest =
        append_assoc (request_line r) (request_lines reqs) (bytes "END\n")
        ∙ (ap (λ b. b ++ rest) (request_line-text r) ∙ append_assoc (text r) (b'\n' ∷ []) rest) in
      let first = read_from-line (text r) rest [] before p (omega (arith, l)) in
      let next =
        read_from-lines reqs (before ++ r ∷ []) a.1
          (omega (arith, n, length-append before (r ∷ []))) in
      ap (λ b. read_from lossy is_broken b [] before) shape
      ∙ (first
          ∙ (ap (goes_on rest) (on_line-text r before a.0 (omega (arith, n)))
              ∙ (next ∙ ap ok (append_assoc before (r ∷ []) reqs))))

  read_accept_line-accept_line :
      (accepts : Bool) (rest : Bytes)
      → read_accept_line lossy is_broken (accept_line accepts ++ rest) ≡ ok (accepts, rest)
  unfolding read_accept_line accept_line strip_eol Bytes-discrete ℕ_discrete
  read_accept_line-accept_line true rest =
      rw (read_accept_from, lossy-plain (bytes "ACCEPT true") (ground arith)) refl
  read_accept_line-accept_line false rest =
      rw (read_accept_from, lossy-plain (bytes "ACCEPT false") (ground arith)) refl

  -- Placeholder
  pub read_config-write_config :
      (accepts : Bool) (reqs : List TunnelRequest)
      → All IsLine reqs
      → length reqs ≤ max_tunnel_requests
      → read_config lossy is_broken (write_config accepts reqs) ≡ ok (accepts, reqs)
  unfolding read_config write_config read_requests_from_stream
  read_config-write_config accepts reqs a n =
      rw
        (
          read_accept_line-accept_line accepts (request_lines reqs ++ bytes "END\n"),
          read_from-lines reqs [] a (omega (arith, n)),
        )
        refl

  -- Two sides with at most 100 requests each, every one of type L or R, with printable addresses
  -- of which the first has no space, and short enough for a line; with a conversion that leaves
  -- ASCII as it is: when each reads what the other writes, both get the other's acceptance and the
  -- same list, the client's requests first, with 0 and the number of the client's requests as the
  -- index of the first own one.
  pub exchange_tunnel_config-agree :
      (a b : Bool) (reqs reqs' : List TunnelRequest)
      → All IsLine reqs
      → All IsLine reqs'
      → length reqs ≤ max_tunnel_requests
      → length reqs' ≤ max_tunnel_requests
      → (exchange_tunnel_config lossy is_broken false reqs (write_config b reqs')
          ≡ ok (b, reqs ++ reqs', 0))
        × (exchange_tunnel_config lossy is_broken true reqs' (write_config a reqs)
            ≡ ok (a, reqs ++ reqs', length reqs))
  unfolding exchange_tunnel_config combine
  exchange_tunnel_config-agree a b reqs reqs' h h' n n' =
      let few : ltb max_tunnel_requests (length reqs) ≡ false = ground (arith, n) in
      let few' : ltb max_tunnel_requests (length reqs') ≡ false = ground (arith, n') in
      (
        rw (few, read_config-write_config b reqs' h' n') refl,
        rw (few', read_config-write_config a reqs h n) refl,
      )
