-- ===== src/Tests/Finding.antt =====
-- The theorems on adding servers, at concrete addresses.
use emulebb_libpcpnatpmp.Base.{
  ℕ, zero, suc, ◌≡◌, refl, arith, Bool, false, List, [], ◌∷◌, none, some, pos,
}
use emulebb_libpcpnatpmp.Wire.{In6Addr, zero_in6}
use emulebb_libpcpnatpmp.Data.{Server}
use emulebb_libpcpnatpmp.Interface.Address.{Sockaddr, inet}
use emulebb_libpcpnatpmp.ClientDb.Servers.{get_pcp_server, get_pcp_server_by_ip, find_ip}
use emulebb_libpcpnatpmp.Discovery.{
  Endpoint, FindSource, endpoint_of, psd_add_gws, psd_add_pcp_server, pcp_add_server, unknown,
}
use emulebb_libpcpnatpmp.Discovery.Laws.{Indexed, KeptBut, IsAdded}
use emulebb_libpcpnatpmp.Discovery.Adding.{pcp_add_server-IsAdded, psd_add_pcp_server-lost}
use emulebb_libpcpnatpmp.Discovery.Places.{at_first, discovered, asked_for, Reached-Indexed}
use emulebb_libpcpnatpmp.Tests.{test_ip, test_nonce, pcp_server}

abbrev one_server : List Server
one_server = pcp_server ∷ []

one_server-Indexed : Indexed one_server
unfolding get_pcp_server
one_server-Indexed zero t e = ground arith
one_server-Indexed (suc j) t e = absurd (ground arith)

-- No address is link-local, and every route has the same source.
abbrev no_linklocal : In6Addr → Bool
no_linklocal a = false

abbrev routed : FindSource
routed a p = some 3221225986

abbrev unrouted : FindSource
unrouted a p = none

-- 192.0.2.1 without a port: the address of the server that is there.
abbrev known_address : Sockaddr
known_address = inet 3221225985 0

abbrev no_raw : Endpoint
no_raw = record { ip = zero_in6; port = 0; scope_id = 0 }

pcp_add_server_example :
    (i : ℕ) × ((pcp_add_server no_linklocal routed no_raw known_address 1 test_nonce one_server).0
      ≡ pos i)
    × IsAdded no_linklocal
        (endpoint_of no_raw known_address)
        1
        3221225986
        i
        (pcp_add_server no_linklocal routed no_raw known_address 1 test_nonce one_server).1
    × KeptBut i one_server
        (pcp_add_server no_linklocal routed no_raw known_address 1 test_nonce one_server).1
unfolding endpoint_of
pcp_add_server_example =
    pcp_add_server-IsAdded no_linklocal routed no_raw known_address 1 test_nonce one_server
      3221225986 (omega arith) refl refl one_server-Indexed

psd_add_pcp_server_example :
    ((psd_add_pcp_server no_linklocal unrouted no_raw known_address 1 test_nonce one_server).0
      ≡ unknown)
    × (get_pcp_server
          (psd_add_pcp_server no_linklocal unrouted no_raw known_address 1 test_nonce one_server).1
          0
        ≡ none)
unfolding endpoint_of get_pcp_server_by_ip find_ip
psd_add_pcp_server_example =
    psd_add_pcp_server-lost no_linklocal unrouted no_raw known_address 1 test_nonce one_server 0
      refl refl

abbrev gateway : ℕ → Endpoint
gateway n = record { ip = test_ip n; port = 0; scope_id = 0 }

abbrev discovered_array : List Server
discovered_array =
    psd_add_gws no_linklocal routed (gateway 1 ∷ gateway 254 ∷ []) (λ n. test_nonce) []

Reached-Indexed_example :
    Indexed
      (psd_add_pcp_server no_linklocal unrouted no_raw known_address 1 test_nonce
        discovered_array).1
Reached-Indexed_example =
    Reached-Indexed no_linklocal
      (psd_add_pcp_server no_linklocal unrouted no_raw known_address 1 test_nonce
        discovered_array).1
      (asked_for unrouted no_raw known_address 1 test_nonce discovered_array
        (discovered routed (gateway 1 ∷ gateway 254 ∷ []) (λ n. test_nonce) [] at_first))
