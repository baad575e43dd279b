-- ===== src/Tests/Text.antt =====
-- The theorems on addresses as text, with a resolver and a printer of their own: an IPv4 address
-- is one character, an IPv6 address four with colons between them, and a port one.
use emulebb_libpcpnatpmp.Base.{
  ℕ, ◌+◌, ◌-◌, ◌≡◌, ◌↔◌, refl, arith, List, [], ◌∷◌, Option, none, some, pos, ◌≤ℤ◌,
}
use emulebb_libpcpnatpmp.Wire.{In6Addr}
use emulebb_libpcpnatpmp.Interface.Address.{Sockaddr, inet, inet6, other_family}
use emulebb_libpcpnatpmp.SockText.{
  Text, Resolver, Printer, Prefixed, scan_port, prefix_length, split_host_port, skip_ws, sock_pton,
  sock_ntop, sock_pton_with_prefix,
}
use emulebb_libpcpnatpmp.SockText.Grammar.{with_port, split_host_port-Spells}
use emulebb_libpcpnatpmp.SockText.RoundTrip.{
  IsPrinter, IsResolver, dotted, coloned, printable_v6, sock_pton-sock_ntop,
}
use emulebb_libpcpnatpmp.SockText.Prefix.{no_prefix, sock_pton_with_prefix-v4}

abbrev text_of_port : Option Text → ℕ
text_of_port none = 0
text_of_port (some []) = 0
text_of_port (some (c ∷ cs)) = c - 1000

abbrev test_printer : Printer
test_printer = record {
  inet_ntop = λ ip. (1000 + ip) ∷ [];
  inet_ntop6 =
      λ ip. (1000 + ip.w0) ∷ 58 ∷ (1000 + ip.w1) ∷ 58 ∷ (1000 + ip.w2) ∷ 58 ∷ (1000 + ip.w3) ∷ [];
  digits = λ n. (1000 + n) ∷ [];
}

abbrev address_of : Text → ℕ → Option (List Sockaddr)
address_of (a ∷ []) port = some (inet (a - 1000) port ∷ [])
address_of (a ∷ _ ∷ b ∷ _ ∷ c ∷ _ ∷ d ∷ []) port =
    some (inet6 (record { w0 = a - 1000; w1 = b - 1000; w2 = c - 1000; w3 = d - 1000 }) port 0 ∷ [])
address_of _ port = none

abbrev test_resolver : Resolver
test_resolver none port = none
test_resolver (some host) port = address_of host (text_of_port port)

test_IsPrinter : IsPrinter test_printer
test_IsPrinter = record {
  dotted_v4 = λ ip. dotted (1000 + ip) [] (ground arith, λ e. omega arith) (λ e. omega arith, tt);
  coloned_v6 = λ ip.
      coloned ((1000 + ip.w0) ∷ []) ((1000 + ip.w1) ∷ [])
        ((1000 + ip.w2) ∷ 58 ∷ (1000 + ip.w3) ∷ []) (ground arith, λ e. omega arith);
  no_bracket = λ ip. ground arith;
  no_colon = λ n. (λ e. omega arith, tt);
}

back : (n : ℕ) → 1000 + n - 1000 ≡ n
back n = omega arith

test_IsResolver : IsResolver test_printer test_resolver
test_IsResolver = record {
  v4 = λ ip port lt. rw (back ip, back port) refl;
  v4_alone = λ ip. rw (back ip) refl;
  v6 = λ ip port lt. rw (back ip.w0, back ip.w1, back ip.w2, back ip.w3, back port) refl;
  v6_alone = λ ip. rw (back ip.w0, back ip.w1, back ip.w2, back ip.w3) refl;
}

-- " ab:80"
split_host_port_example :
    split_host_port (skip_ws (32 ∷ 97 ∷ 98 ∷ 58 ∷ 56 ∷ 48 ∷ []))
    ≡ some (some (97 ∷ 98 ∷ []), some (56 ∷ 48 ∷ []))
split_host_port_example =
    split_host_port-Spells (32 ∷ []) (some (97 ∷ 98 ∷ [])) (some (56 ∷ 48 ∷ []))
      (97 ∷ 98 ∷ 58 ∷ 56 ∷ 48 ∷ []) (refl, tt)
      (with_port 97 (98 ∷ []) (56 ∷ 48 ∷ []) (refl, λ e. omega arith)
        (λ e. omega arith, (λ e. omega arith, tt)) (λ e. omega arith, (λ e. omega arith, tt)))

abbrev loopback6 : In6Addr
loopback6 = record { w0 = 0; w1 = 0; w2 = 0; w3 = 1 }

sock_pton_example :
    (t : Text) × (sock_ntop test_printer (inet6 loopback6 5351 0) ≡ some t)
    × (sock_pton test_resolver (some (32 ∷ t)) other_family ≡ (pos 0, inet6 loopback6 5351 0))
sock_pton_example =
    sock_pton-sock_ntop test_printer test_resolver test_IsPrinter test_IsResolver other_family
      (32 ∷ []) (refl, tt) (inet6 loopback6 5351 0) (printable_v6 loopback6 5351 (omega arith))

-- An IPv4 address in brackets, without a prefix.
abbrev unprefixed : Prefixed
unprefixed =
    sock_pton_with_prefix test_resolver (λ t. pos 24) (some (91 ∷ 1007 ∷ 93 ∷ [])) other_family
      (pos 0)

sock_pton_with_prefix_example :
    (unprefixed.sa ≡ inet 7 0)
    × (unprefixed.int_prefix ≡ prefix_length (λ t. pos 24) none)
    × ((unprefixed.ret ≡ pos 0) ↔ (prefix_length (λ t. pos 24) none ≤ℤ pos 32))
unfolding scan_port
sock_pton_with_prefix_example =
    sock_pton_with_prefix-v4 test_resolver (λ t. pos 24) [] (1007 ∷ []) (1007 ∷ []) [] none tt
      (no_prefix (1007 ∷ []) (λ e. omega arith, tt)) (λ e. omega arith, tt) other_family (pos 0) 7 0
      [] refl
