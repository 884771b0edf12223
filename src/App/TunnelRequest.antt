-- ===== src/App/TunnelRequest.antt =====
-- crates/qvole-app/src/tunnel_request.rs: the textual form of tunnel requests. Texts are bytes: the
-- delimiters are ASCII, and the source scans bytes too.
pub mod Split
pub mod Read
use qvole_rs.Base.{
  ℕ, suc, ◌+◌, ◌-◌, Bool, true, false, not, ◌&&◌, ◌||◌, Option, none, some, List, [], ◌∷◌, ◌++◌,
  leb, ltb, ◌==◌, if◌then◌else◌, Bytes, bytes, length, take, drop, reverse, bytes_key, eqb,
}

pub record TunnelRequest : Type 0 where
  pub typ : Bytes
  pub listen_addr : Bytes
  pub target_addr : Bytes

-- The depth of brackets behind a byte; `None` where it would fall below zero.
unfoldable pub next_depth : ℕ → ℕ → Option ℕ
next_depth depth c =
    if c == b'['
    then some (depth + 1)
    else if c == b']'
    then (if depth == 0 then none else some (depth - 1))
    else some depth

unfoldable pub is_cut : ℕ → ℕ → Bool
is_cut depth c = c == b':' && depth == 0

abbrev pub cons_first : ℕ → List Bytes → List Bytes
cons_first c [] = (c ∷ []) ∷ []
cons_first c (part ∷ parts) = (c ∷ part) ∷ parts

-- A byte before the parts of the rest: it ends a part, or belongs to the first.
abbrev pub before : Bool → ℕ → Option (List Bytes) → Option (List Bytes)
before cut c none = none
before true c (some parts) = some ([] ∷ parts)
before false c (some parts) = some (cons_first c parts)

-- The scan from a depth on. Its parts are never none.
unfoldable pub split_from : ℕ → Bytes → Option (List Bytes)
unfolding next_depth is_cut
split_from depth [] = if depth == 0 then some ([] ∷ []) else none
split_from depth (c ∷ spec) = elim (next_depth depth c) [
  | none ↦ none
  | some d ↦ before (is_cut depth c) c (split_from d spec)
]

unfoldable pub split_tunnel_request : Bytes → Option (List Bytes)
unfolding split_from
split_tunnel_request spec = split_from 0 spec

abbrev pub ends_with : ℕ → Bytes → Bool
ends_with c [] = false
ends_with c (b ∷ []) = b == c
ends_with c (b ∷ d ∷ s) = ends_with c (d ∷ s)

abbrev starts_with : ℕ → Bytes → Bool
starts_with c [] = false
starts_with c (b ∷ s) = b == c

unfoldable pub strip_brackets : Bytes → Bytes
strip_brackets s =
    if leb 2 (length s) && starts_with b'[' s && ends_with b']' s
    then take (length s - 2) (drop 1 s)
    else s

-- `s.bytes().filter(…)`
unfoldable pub parse_addr : Bytes → Bytes
parse_addr [] = []
parse_addr (c ∷ s) = let rest = parse_addr s in if leb 32 c && ltb c 127 then c ∷ rest else rest

abbrev pub contains_colon : Bytes → Bool
contains_colon [] = false
contains_colon (c ∷ s) = c == b':' || contains_colon s

unfoldable pub join_host_port : Bytes → Bytes → Bytes
join_host_port host port =
    if contains_colon host
    then bytes "[" ++ (host ++ (bytes "]:" ++ port))
    else host ++ (bytes ":" ++ port)

abbrev pub localhost : Bytes
localhost = bytes "127.0.0.1"

abbrev or_localhost : Bytes → Bytes
or_localhost [] = localhost
or_localhost (c ∷ s) = c ∷ s

abbrev unwrap_or_default : Option (List Bytes) → List Bytes
unwrap_or_default none = []
unwrap_or_default (some parts) = parts

-- The addresses of the parts; `None` is the error of the source.
abbrev pub of_parts : Bytes → List Bytes → Option TunnelRequest
of_parts typ (lport ∷ raddr ∷ rport ∷ []) = some (record {
  typ = typ;
  listen_addr = join_host_port localhost lport;
  target_addr = join_host_port (strip_brackets raddr) rport;
})
of_parts typ (laddr ∷ lport ∷ raddr ∷ rport ∷ []) = some (record {
  typ = typ;
  listen_addr = join_host_port (or_localhost (strip_brackets laddr)) lport;
  target_addr = join_host_port (strip_brackets raddr) rport;
})
of_parts typ _ = none

unfoldable pub parse_tunnel_request : Bytes → Bytes → Option TunnelRequest
unfolding split_tunnel_request strip_brackets join_host_port
parse_tunnel_request spec typ = of_parts typ (unwrap_or_default (split_tunnel_request spec))

-- `strip_eol`: one line feed, then one carriage return, off the end. The conversion of invalid UTF-8
-- is left to the reader of the text.
abbrev pub drop_last : ℕ → Bytes → Bytes
drop_last c s = if ends_with c s then take (length s - 1) s else s

unfoldable pub strip_eol : Bytes → Bytes
strip_eol line = drop_last 13 (drop_last 10 line)
