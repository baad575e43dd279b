-- ===== src/SockText/RoundTrip.antt =====
-- sock_pton of lib/src/net/sock_ntop.c reads back what sock_ntop prints.
use emulebb_libpcpnatpmp.Base.{
  ℕ, ◌<◌, ◌≡◌, refl, ap, ◌∙◌, arith, Bool, true, false, List, [], ◌∷◌, ◌++◌, Option, none, some,
  pos, ◌==◌, if◌then◌else◌,
}
use emulebb_libpcpnatpmp.Wire.{In6Addr}
use emulebb_libpcpnatpmp.Interface.Address.{Sockaddr, inet, inet6}
use emulebb_libpcpnatpmp.SockText.{
  Text, colon, open_bracket, close_bracket, Resolver, Printer, sock_pton, sock_ntop, first_result,
}
use emulebb_libpcpnatpmp.SockText.Grammar.{
  Lacks, BeginsHost, AllSpace, Spells, bare, with_port, two_colons, bracketed_port,
  split_host_port-Spells,
}

-- A text that does not begin a bracket or with a space, with something before its first colon.
pub data IsDotted : Text → Type 0 where
  dotted : (c : ℕ) (cs : Text) → BeginsHost (c ∷ cs) → Lacks colon (c ∷ cs) → IsDotted (c ∷ cs)

pub data IsColoned : Text → Type 0 where
  coloned :
      (before between after : Text)
      → BeginsHost (before ++ (colon ∷ between ++ (colon ∷ after)))
      → IsColoned (before ++ (colon ∷ between ++ (colon ∷ after)))

-- What inet_ntop and the decimal digits look like.
pub record IsPrinter (p : Printer) : Type 0 where
  pub dotted_v4 : (ip : ℕ) → IsDotted (p.inet_ntop ip)
  pub coloned_v6 : (ip : In6Addr) → IsColoned (p.inet_ntop6 ip)
  pub no_bracket : (ip : In6Addr) → Lacks close_bracket (p.inet_ntop6 ip)
  pub no_colon : (n : ℕ) → Lacks colon (p.digits n)

-- getaddrinfo resolves a numeric host and a port of 16 bits to themselves; without a port it gives port 0.
pub record IsResolver (p : Printer) (g : Resolver) : Type 0 where
  pub v4 :
      (ip port : ℕ)
      → port < 65536
      → g (some (p.inet_ntop ip)) (some (p.digits port)) ≡ some (inet ip port ∷ [])
  pub v4_alone : (ip : ℕ) → g (some (p.inet_ntop ip)) none ≡ some (inet ip 0 ∷ [])
  pub v6 :
      (ip : In6Addr) (port : ℕ)
      → port < 65536
      → g (some (p.inet_ntop6 ip)) (some (p.digits port)) ≡ some (inet6 ip port 0 ∷ [])
  pub v6_alone : (ip : In6Addr) → g (some (p.inet_ntop6 ip)) none ≡ some (inet6 ip 0 0 ∷ [])

-- An IPv4 address, or an IPv6 address without a scope, with a port of 16 bits.
pub data IsPrintable : Sockaddr → Type 0 where
  printable_v4 : (ip port : ℕ) → port < 65536 → IsPrintable (inet ip port)
  printable_v6 : (ip : In6Addr) (port : ℕ) → port < 65536 → IsPrintable (inet6 ip port 0)

abbrev port_text : Printer → ℕ → Option Text
port_text p port = if port == 0 then none else some (p.digits port)

dotted-Spells :
    (t port : Text)
    → IsDotted t
    → Lacks colon port
    → Spells (some t) none t × Spells (some t) (some port) (t ++ (colon ∷ port))
dotted-Spells _ port (dotted c cs b l) k = (bare (c ∷ cs) b l, with_port c cs port b l k)

coloned-Spells : (t : Text) → IsColoned t → Spells (some t) none t
coloned-Spells _ (coloned x y z b) = two_colons x y z b

-- A spelling is resolved, whatever spaces are before it.
pub sock_pton-Spells :
    (g : Resolver) (ws : Text) (h p : Option Text) (t : Text) (sa : Sockaddr)
    (results : List Sockaddr)
    → AllSpace ws
    → Spells h p t
    → g h p ≡ some results
    → sock_pton g (some (ws ++ t)) sa ≡ (pos 0, first_result h results sa)
unfolding sock_pton
sock_pton-Spells g ws h p t sa results a k e =
    rw (sock_pton, split_host_port-Spells ws h p t a k, e) refl

module _ (p : Printer) (g : Resolver) (printer : IsPrinter p) (resolver : IsResolver p g)
    (old : Sockaddr) (ws : Text) (spaces : AllSpace ws) where
  abbrev ReadsBack : Sockaddr → Text → Type 0
  ReadsBack sa t = sock_pton g (some (ws ++ t)) old ≡ (pos 0, sa)

  read_as :
      (h q : Option Text) (t : Text) (found : Sockaddr) (sa : Sockaddr)
      → Spells h q t
      → g h q ≡ some (found ∷ [])
      → first_result h (found ∷ []) old ≡ sa
      → ReadsBack sa t
  read_as h q t found sa k e f =
      sock_pton-Spells g ws h q t old (found ∷ []) spaces k e ∙ ap (λ r. (pos 0, r)) f

  abbrev text_v4 : ℕ → ℕ → Bool → Text
  text_v4 ip port b = if b then p.inet_ntop ip else p.inet_ntop ip ++ (colon ∷ p.digits port)

  reads_v4 :
      (ip port : ℕ) (b : Bool)
      → port < 65536
      → (port == 0) ≡ b
      → ReadsBack (inet ip port) (text_v4 ip port b)
  unfolding first_result
  reads_v4 ip port true lt e =
      let k =
        dotted-Spells (p.inet_ntop ip) (p.digits port) (printer.dotted_v4 ip)
          (printer.no_colon port) in
      let z : 0 ≡ port = ground arith in
      read_as (some (p.inet_ntop ip)) none (p.inet_ntop ip) (inet ip 0) (inet ip port) k.0
        (resolver.v4_alone ip) (ap (inet ip) z)
  reads_v4 ip port false lt e =
      let k =
        dotted-Spells (p.inet_ntop ip) (p.digits port) (printer.dotted_v4 ip)
          (printer.no_colon port) in
      read_as (some (p.inet_ntop ip)) (some (p.digits port)) _ (inet ip port) (inet ip port) k.1
        (resolver.v4 ip port lt) refl

  abbrev text_v6 : In6Addr → ℕ → Bool → Text
  text_v6 ip port b =
      if b
      then p.inet_ntop6 ip
      else open_bracket ∷ p.inet_ntop6 ip ++ (close_bracket ∷ colon ∷ p.digits port)

  reads_v6 :
      (ip : In6Addr) (port : ℕ) (b : Bool)
      → port < 65536
      → (port == 0) ≡ b
      → ReadsBack (inet6 ip port 0) (text_v6 ip port b)
  unfolding first_result
  reads_v6 ip port true lt e =
      let z : 0 ≡ port = ground arith in
      read_as (some (p.inet_ntop6 ip)) none (p.inet_ntop6 ip) (inet6 ip 0 0) (inet6 ip port 0)
        (coloned-Spells (p.inet_ntop6 ip) (printer.coloned_v6 ip)) (resolver.v6_alone ip)
        (ap (λ n. inet6 ip n 0) z)
  reads_v6 ip port false lt e =
      read_as (some (p.inet_ntop6 ip)) (some (p.digits port)) _ (inet6 ip port 0) (inet6 ip port 0)
        (bracketed_port (p.inet_ntop6 ip) (p.digits port) (printer.no_bracket ip))
        (resolver.v6 ip port lt) refl

  -- With a printer whose IPv4 texts have no colon and whose IPv6 texts have two and no bracket, and
  -- a resolver that takes numeric hosts and ports of 16 bits for themselves, an IPv4 address, or an
  -- IPv6 address without a scope, with such a port, that sock_ntop prints is read back by sock_pton, with its port and
  -- after any spaces.
  pub sock_pton-sock_ntop :
      (sa : Sockaddr)
      → IsPrintable sa
      → (t : Text) × (sock_ntop p sa ≡ some t) × (sock_pton g (some (ws ++ t)) old ≡ (pos 0, sa))
  unfolding sock_ntop
  sock_pton-sock_ntop _ (printable_v4 ip port lt) =
      (text_v4 ip port (port == 0), refl, reads_v4 ip port (port == 0) lt refl)
  sock_pton-sock_ntop _ (printable_v6 ip port lt) =
      (text_v6 ip port (port == 0), refl, reads_v6 ip port (port == 0) lt refl)
