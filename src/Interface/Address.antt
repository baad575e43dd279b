-- ===== src/Interface/Address.antt =====
-- struct sockaddr as the calls of lib/src/pcp_api.c read it, and pcp_fill_in6_addr of
-- lib/src/net/pcp_socket.c. IPv4 addresses and ports are the numbers that network order spells.
use emulebb_libpcpnatpmp.Base.{
  ℕ, Bool, true, false, ◌&&◌, ◌||◌, not, Option, none, some, ◌==◌, if◌then◌else◌,
}
use emulebb_libpcpnatpmp.Wire.{In6Addr, zero_in6}
use emulebb_libpcpnatpmp.ServerMachine.Receive.{mapped_ip}
use emulebb_libpcpnatpmp.Pulse.{is_addr_any}

-- sa_family is AF_INET, AF_INET6 or any other.
pub data Sockaddr : Type 0 where
  inet : ℕ → ℕ → Sockaddr
  inet6 : In6Addr → ℕ → ℕ → Sockaddr
  other_family : Sockaddr

-- What is pointed to keeps its value where the family is another.
abbrev pub filled_ip : Sockaddr → In6Addr → In6Addr
filled_ip (inet ip port) old = mapped_ip ip
filled_ip (inet6 ip port scope) old = ip
filled_ip other_family old = old

abbrev pub filled_port : Sockaddr → ℕ → ℕ
filled_port (inet ip port) old = port
filled_port (inet6 ip port scope) old = port
filled_port other_family old = old

abbrev pub filled_scope : Sockaddr → ℕ → ℕ
filled_scope (inet ip port) old = 0
filled_scope (inet6 ip port scope) old = scope
filled_scope other_family old = old

abbrev pub same_family : Sockaddr → Sockaddr → Bool
same_family (inet _ _) (inet _ _) = true
same_family (inet6 _ _ _) (inet6 _ _ _) = true
same_family other_family other_family = true
same_family _ _ = false

-- IN6_IS_ADDR_V4MAPPED
abbrev pub is_v4mapped : In6Addr → Bool
is_v4mapped a = a.w0 == 0 && a.w1 == 0 && a.w2 == 65535

abbrev pub have_same_af : In6Addr → In6Addr → Bool
have_same_af a b = is_v4mapped a && is_v4mapped b || not (is_v4mapped a) && not (is_v4mapped b)

-- A destination that is no address is taken for none.
abbrev pub usable_dst : Option Sockaddr → Option Sockaddr
usable_dst none = none
usable_dst (some (inet ip port)) = if ip == 0 then none else some (inet ip port)
usable_dst (some (inet6 ip port scope)) =
    if is_addr_any ip then none else some (inet6 ip port scope)
usable_dst (some other_family) = none

-- The external address that is asked for where none is given: any, of the source's family.
abbrev pub wanted_ext : Sockaddr → Option Sockaddr → Option Sockaddr
wanted_ext src (some ext) = some ext
wanted_ext (inet ip port) none = some (inet 0 0)
wanted_ext (inet6 ip port scope) none = some (inet6 zero_in6 0 0)
wanted_ext other_family none = none
