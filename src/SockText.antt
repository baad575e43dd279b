-- ===== src/SockText.antt =====
-- Addresses as text, lib/src/net/sock_ntop.c: sock_ntop, sock_pton and sock_pton_with_prefix. A
-- string is the list of its characters' codes, and strndup has memory. What libc does is a
-- parameter: getaddrinfo, which resolves a host and a port, either of which may be NULL;
-- inet_ntop and the decimal digits of a port; and atoi.
pub mod Grammar
pub mod RoundTrip
pub mod Prefix
use emulebb_libpcpnatpmp.Base.{
  ℕ, zero, suc, ◌-◌, Bool, true, false, ◌&&◌, ◌||◌, not, List, [], ◌∷◌, ◌++◌, Option, none, some, ℤ,
  pos, negsuc, ltb, leb, ltb_ℤ, ◌==◌, if◌then◌else◌, length,
}
use emulebb_libpcpnatpmp.Wire.{In6Addr, zero_in6}
use emulebb_libpcpnatpmp.Interface.Address.{Sockaddr, inet, inet6, other_family}

abbrev pub Text : Type 0
Text = List ℕ

abbrev pub colon : ℕ
colon = 58

abbrev pub open_bracket : ℕ
open_bracket = 91

abbrev pub close_bracket : ℕ
close_bracket = 93

abbrev pub slash : ℕ
slash = 47

-- isspace
abbrev pub is_space : ℕ → Bool
is_space c = c == 32 || leb 9 c && leb c 13

unfoldable pub skip_ws : Text → Text
skip_ws [] = []
skip_ws (c ∷ cs) = if is_space c then skip_ws cs else c ∷ cs

-- The first `n` characters, as strndup takes them.
unfoldable pub take : ℕ → Text → Text
take zero cs = []
take (suc n) [] = []
take (suc n) (c ∷ cs) = c ∷ take n cs

-- The text before the matching bracket and the text after it.
unfoldable pub find_bracket : Text → Option (Text × Text)
find_bracket [] = none
find_bracket (c ∷ cs) =
    if c == close_bracket
    then some ([], cs)
    else elim (find_bracket cs) [ none ↦ none | some (inside, rest) ↦ some (c ∷ inside, rest) ]

-- The scan for the port's start: the port that it leaves, and whether it stopped at a second
-- colon, which it does where the host is not known yet.
unfoldable pub scan_port : Bool → Text → Option Text → Bool × Option Text
scan_port known [] port = (false, port)
scan_port known (c ∷ cs) none = scan_port known cs (if c == colon then some cs else none)
scan_port known (c ∷ cs) (some port) =
    if c == colon && not known then (true, none) else scan_port known cs (some port)

-- The host in a text that does not begin with a bracket; none is NULL.
abbrev pub host_before : Text → Bool × Option Text → Option Text
host_before cp (true, port) = some cp
host_before cp (false, none) = some cp
host_before cp (false, some port) =
    let n = length cp - length port - 1 in if n == 0 then none else some (take n cp)

-- The host and the port; none where a bracket is not closed.
unfoldable pub split_host_port : Text → Option (Option Text × Option Text)
unfolding find_bracket scan_port take
split_host_port [] = some (some [], none)
split_host_port (c ∷ cs) =
    let scanned = scan_port false (c ∷ cs) none in
    if c == open_bracket
    then (elim (find_bracket cs) [
      | none ↦ none
      | some (inside, rest) ↦ some (some inside, (scan_port true rest none).1)
    ])
    else some (host_before (c ∷ cs) scanned, scanned.1)

-- getaddrinfo: the addresses of a host and a port, or its error.
abbrev pub Resolver : Type 0
Resolver = Option Text → Option Text → Option (List Sockaddr)

-- The address that stands for any host. For IPv6 the memset is as long as a sockaddr_in6, and
-- clears the scope, and what follows the structure, too.
abbrev pub any_host : Sockaddr → Sockaddr
any_host (inet ip port) = inet 0 port
any_host (inet6 ip port scope) = inet6 zero_in6 port 0
any_host other_family = other_family

-- The first result of a family that is known; without one, `*sa` is left as it is.
unfoldable pub first_result : Option Text → List Sockaddr → Sockaddr → Sockaddr
first_result host [] sa = sa
first_result host (other_family ∷ rest) sa = first_result host rest sa
first_result none (found ∷ rest) sa = any_host found
first_result (some h) (found ∷ rest) sa = found

-- The code returned, and `*sa`. A null pointer is none.
unfoldable pub sock_pton : Resolver → Option Text → Sockaddr → ℤ × Sockaddr
unfolding skip_ws split_host_port first_result
sock_pton getaddrinfo none sa = (negsuc 0, sa)
sock_pton getaddrinfo (some text) sa = elim (split_host_port (skip_ws text)) [
  | none ↦ (negsuc 1, sa)
  | some (host, port) ↦ elim (getaddrinfo host port) [
    | none ↦ (negsuc 1, sa)
    | some results ↦ (pos 0, first_result host results sa)
  ]
]

-- The text in the brackets, cut at its last slash: the address, and what follows the slash.
unfoldable pub cut_prefix : Text → Text × Option Text
cut_prefix [] = ([], none)
cut_prefix (c ∷ cs) =
    let (host, prefix) = cut_prefix cs in
    elim prefix [
      | some p ↦ (c ∷ host, some p)
      | none ↦ if c == slash then ([], some cs) else (c ∷ host, none)
    ]

-- The length of the prefix; 128 where there is none.
abbrev pub prefix_length : (Text → ℤ) → Option Text → ℤ
prefix_length atoi none = pos 128
prefix_length atoi (some prefix) = atoi prefix

-- The last checks, by the family of `*sa`.
abbrev pub prefix_code : Sockaddr → ℤ → ℤ
prefix_code (inet ip port) n = if ltb_ℤ (pos 32) n then negsuc 1 else pos 0
prefix_code (inet6 ip port scope) n = if ltb_ℤ (pos 128) n then negsuc 1 else pos 0
prefix_code other_family n = pos 0

-- What sock_pton_with_prefix returns and leaves. The address must stand in brackets.
pub record Prefixed : Type 0 where
  pub ret : ℤ
  pub sa : Sockaddr
  pub int_prefix : ℤ

unfoldable pub resolve_prefixed : Resolver → Text → Text → Sockaddr → ℤ → Prefixed
unfolding scan_port first_result
resolve_prefixed getaddrinfo host rest sa n =
    elim (getaddrinfo (some host) (scan_port true rest none).1) [
      | none ↦ record { ret = negsuc 1; sa = sa; int_prefix = n }
      | some results ↦
          let found = first_result (some host) results sa in
          record { ret = prefix_code found n; sa = found; int_prefix = n }
    ]

unfoldable pub split_brackets : Text → Option (Text × Text)
unfolding find_bracket
split_brackets [] = none
split_brackets (c ∷ cs) = if c == open_bracket then find_bracket cs else none

unfoldable pub sock_pton_with_prefix : Resolver → (Text → ℤ) → Option Text → Sockaddr → ℤ → Prefixed
unfolding skip_ws split_brackets cut_prefix resolve_prefixed
sock_pton_with_prefix getaddrinfo atoi none sa old = record {
  ret = negsuc 0;
  sa = sa;
  int_prefix = old;
}
sock_pton_with_prefix getaddrinfo atoi (some text) sa old = elim (split_brackets (skip_ws text)) [
  | none ↦ record { ret = negsuc 1; sa = sa; int_prefix = old }
  | some (inside, rest) ↦
      let cut = cut_prefix inside in
      resolve_prefixed getaddrinfo cut.0 rest sa (prefix_length atoi cut.1)
]

-- inet_ntop for both families, and the digits of a port.
pub record Printer : Type 0 where
  pub inet_ntop : ℕ → Text
  pub inet_ntop6 : In6Addr → Text
  pub digits : ℕ → Text

-- The text for an unknown family, which names its number, is none here.
unfoldable pub sock_ntop : Printer → Sockaddr → Option Text
sock_ntop p (inet ip port) =
    some (if port == 0 then p.inet_ntop ip else p.inet_ntop ip ++ (colon ∷ p.digits port))
sock_ntop p (inet6 ip port scope) = some (
    if port == 0
    then p.inet_ntop6 ip
    else open_bracket ∷ p.inet_ntop6 ip ++ (close_bracket ∷ colon ∷ p.digits port))
sock_ntop p other_family = none
