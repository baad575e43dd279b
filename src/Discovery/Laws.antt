-- ===== src/Discovery/Laws.antt =====
-- What adding a server promises, lib/src/pcp_server_discovery.c.
use emulebb_libpcpnatpmp.Base.{
  ℕ, ◌≡◌, ◌≢◌, ◌⊎◌, refl, ap, ◌∙◌, arith, Bool, true, List, none, some, ℤ, pos, set, get_or,
  get_elem?, get_elem?-set_self, get_or-get_elem?,
}
use emulebb_libpcpnatpmp.TimeVal.{zero_time}
use emulebb_libpcpnatpmp.Wire.{In6Addr, Nonce}
use emulebb_libpcpnatpmp.Data.{Server, pss_ping}
use emulebb_libpcpnatpmp.ServerMachine.Receive.{mapped_ip}
use emulebb_libpcpnatpmp.Interface.Address.{is_v4mapped}
use emulebb_libpcpnatpmp.ClientDb.Key.{in6_beq}
use emulebb_libpcpnatpmp.ClientDb.Servers.{
  zero_server, scope_of, pcp_new_server, get_pcp_server, find_ip, get_pcp_server_by_ip,
}
use emulebb_libpcpnatpmp.ClientDb.Allocation.{get_pcp_server_iff, get_elem?-set_other, get_elem?-lt}
use emulebb_libpcpnatpmp.Discovery.{
  Endpoint, FindSource, psd_fill_pcp_server_src, start_server, add_endpoint, chosen_version,
  finish_adding,
}
use emulebb_libpcpnatpmp.Discovery.Lookup.{IsFound, find_ip-set_first}

-- A server in use knows its place in the array.
abbrev pub Indexed : List Server → Type 0
Indexed ss = (j : ℕ) (t : Server) → get_pcp_server ss j ≡ some t → t.index ≡ j

-- The servers in use that are not at `i` are where they were.
abbrev pub KeptBut : ℕ → List Server → List Server → Type 0
KeptBut i ss new =
    (j : ℕ) (t : Server) → i ≢ j → get_pcp_server ss j ≡ some t → get_pcp_server new j ≡ some t

module _ (is_linklocal : In6Addr → Bool) (e : Endpoint) (version src : ℕ) where
  -- The record at `i` is the server asked for, about to be pinged from its source address, and
  -- the one that is found by its address.
  pub record IsAdded (i : ℕ) (ss : List Server) : Type 0 where
    pub server : Server
    pub there : get_pcp_server ss i ≡ some server
    pub ip : server.pcp_ip ≡ e.ip
    pub port : server.pcp_port ≡ e.port
    pub pcp_version : server.pcp_version ≡ version
    pub src_ip : server.src_ip ≡ mapped_ip src
    pub state : server.server_state ≡ pss_ping
    pub timeout : server.next_timeout ≡ zero_time
    pub found : get_pcp_server_by_ip is_linklocal e.ip e.scope_id ss ≡ some i

  -- A record ready to be started: it has the address, the port and the scope asked for, and
  -- no other is found by them.
  pub record IsReady (i : ℕ) (ss : List Server) (s : Server) : Type 0 where
    pub at : get_elem? ss i ≡ some s
    pub ip : s.pcp_ip ≡ e.ip
    pub port : s.pcp_port ≡ e.port
    pub scope : s.pcp_scope_id ≡ scope_of is_linklocal e.ip e.scope_id
    pub index : s.index ≡ i
    pub alone :
        let f = find_ip is_linklocal e.ip (scope_of is_linklocal e.ip e.scope_id) ss 0 in
        (f ≡ none) ⊎ (f ≡ some i)

pub in6_beq_refl : (a : In6Addr) → in6_beq a a ≡ true
in6_beq_refl a = ground arith

pub start_server_at :
    (is_linklocal : In6Addr → Bool) (findsaddr : FindSource) (version i : ℕ) (ss : List Server)
    (s : Server)
    → get_elem? ss i ≡ some s
    → start_server is_linklocal findsaddr version i ss
      ≡ finish_adding i ss (psd_fill_pcp_server_src findsaddr (chosen_version version s))
unfolding start_server
start_server_at is_linklocal findsaddr version i ss s at =
    ap (λ x. finish_adding i ss (psd_fill_pcp_server_src findsaddr (chosen_version version x)))
      (get_or-get_elem? ss i s zero_server at)

-- A server that is found by its address is started again, at its index.
module _ (is_linklocal : In6Addr → Bool) (findsaddr : FindSource) (e : Endpoint) (version : ℕ)
    (drawn : Nonce) (ss : List Server) (i : ℕ)
    (first : find_ip is_linklocal e.ip (scope_of is_linklocal e.ip e.scope_id) ss 0 ≡ some i) where
  abbrev restarted : Server → ℤ × List Server
  restarted s =
      start_server is_linklocal findsaddr version i (set ss i (record s { pcp_port = e.port }))

  add_endpoint_found :
      add_endpoint is_linklocal findsaddr e version drawn ss ≡ restarted (get_or ss i zero_server)
  unfolding add_endpoint get_pcp_server_by_ip pcp_new_server
  add_endpoint_found = rw (add_endpoint, first) refl

  pub add_endpoint_again :
      (s : Server)
      → get_elem? ss i ≡ some s
      → add_endpoint is_linklocal findsaddr e version drawn ss
        ≡ start_server is_linklocal findsaddr version i (set ss i (record s { pcp_port = e.port }))
  add_endpoint_again s at =
      add_endpoint_found ∙ ap restarted (get_or-get_elem? ss i s zero_server at)

module _ (is_linklocal : In6Addr → Bool) (findsaddr : FindSource) (e : Endpoint) (version src : ℕ)
    (v4 : is_v4mapped e.ip ≡ true) (route : findsaddr e.ip.w3 e.port ≡ some src) where
  module _ (i : ℕ) (ss : List Server) (s : Server)
      (ready : IsReady is_linklocal e version src i ss s) where
    abbrev pub started : Server
    started = record s {
      pcp_version = version;
      src_ip = mapped_ip src;
      server_state = pss_ping;
      next_timeout = zero_time;
    }

    is_v4 : is_v4mapped s.pcp_ip ≡ true
    is_v4 = ap is_v4mapped ready.ip ∙ v4

    has_route : findsaddr s.pcp_ip.w3 s.pcp_port ≡ some src
    has_route =
        ap (λ a. findsaddr a.w3 s.pcp_port) ready.ip ∙ ap (findsaddr e.ip.w3) ready.port ∙ route

    filled : psd_fill_pcp_server_src findsaddr (chosen_version version s) ≡ (pos 0, started)
    unfolding psd_fill_pcp_server_src
    filled = rw (is_v4, has_route) refl

    finished : finish_adding i ss (pos 0, started) ≡ (pos i, set ss i started)
    unfolding finish_adding
    finished = ap (λ n. (pos n, set ss i started)) ready.index

    pub start_server_lem :
        start_server is_linklocal findsaddr version i ss ≡ (pos i, set ss i started)
    start_server_lem =
        start_server_at is_linklocal findsaddr version i ss s ready.at
        ∙ ap (finish_adding i ss) filled
        ∙ finished

    started-IsFound : IsFound is_linklocal e.ip (scope_of is_linklocal e.ip e.scope_id) started
    started-IsFound = record {
      used = refl;
      ip_equal = ground (arith, ready.ip);
      scope_equal = ground (arith, ready.scope);
    }

    pub start_server-IsAdded :
        IsAdded is_linklocal e version src i (start_server is_linklocal findsaddr version i ss).1
    unfolding get_pcp_server_by_ip
    start_server-IsAdded =
        let here = get_elem?-set_self ss i started (get_elem?-lt ss i s ready.at) in
        rw start_server_lem (record {
          server = started;
          there = (get_pcp_server_iff (set ss i started) i started).1 (here, refl);
          ip = ready.ip;
          port = ready.port;
          pcp_version = refl;
          src_ip = refl;
          state = refl;
          timeout = refl;
          found =
              find_ip-set_first is_linklocal e.ip (scope_of is_linklocal e.ip e.scope_id) ss i
                started ready.alone (get_elem?-lt ss i s ready.at) started-IsFound;
        })

    pub start_server-KeptBut : KeptBut i ss (start_server is_linklocal findsaddr version i ss).1
    start_server-KeptBut j t apart there = rw start_server_lem (
        let (at, used) = (get_pcp_server_iff ss j t).0 there in
        (get_pcp_server_iff (set ss i started) j t).1
          (get_elem?-set_other ss i j started apart ∙ at, used))
