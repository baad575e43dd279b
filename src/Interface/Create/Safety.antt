-- ===== src/Interface/Create/Safety.antt =====
-- pcp_new_flow of lib/src/pcp_api.c follows no pointer to nothing and fails no assertion.
use emulebb_libpcpnatpmp.Base.{
  ℕ, zero, suc, ◌+◌, ◌<◌, ◌≡◌, refl, arith, true, not, Option, none, some,
}
use emulebb_libpcpnatpmp.Wire.{In6Addr}
use emulebb_libpcpnatpmp.Data.{FlowKeyData, Server}
use emulebb_libpcpnatpmp.ClientDb.Servers.{is_unitialized}
use emulebb_libpcpnatpmp.System.{Sys, pure}
use emulebb_libpcpnatpmp.System.Sound.{
  IsSafe, IsLive, HasServer, Extends, Runs, Always, Runs-pure, Runs-if, Runs-weaken, then_do,
}
use emulebb_libpcpnatpmp.System.Actions.{load-Runs, store-links, load_server-Runs}
use emulebb_libpcpnatpmp.ServerMachine.Safety.Negotiation.{Usable}
use emulebb_libpcpnatpmp.Pulse.Safety.{HasServers, count_servers-Runs}
use emulebb_libpcpnatpmp.Interface.Address.{Sockaddr, inet, wanted_ext, usable_dst}
use emulebb_libpcpnatpmp.Interface.Create.{
  is_not_working, is_mapping, assign_src_ip, suits, with_server, Chain, set_child, chain_up,
  chain_and_assign_src_ip, chain_servers, no_chain, source_key, peer_key, with_dst, flow_key,
  make_flows, pcp_new_flow,
}
use emulebb_libpcpnatpmp.Interface.Create.Steps.{create-Runs, init_flow-Runs}

-- The flow, if there is one, was made before the other.
abbrev Earlier : Option ℕ → ℕ → Type 0
Earlier o a = (p : ℕ) → o ≡ some p → p < a

live-Earlier : (o : Option ℕ) (c : Sys) → IsSafe c → Usable o c → Earlier o c.db.next_address
live-Earlier o c s u p e = ground (arith, s.db.fresh p, (u p e).1)

-- The flows that the chain holds on to are there.
abbrev ChainLive : Chain → Sys → Type 0
ChainLive d c = Usable d.prev c × Usable d.first c

ChainLive-Extends : (d : Chain) (b c : Sys) → Extends b c → ChainLive d b → ChainLive d c
ChainLive-Extends d b c x (p, q) = (λ a e. x.flows a (p a e), λ a e. x.flows a (q a e))

set_child-Runs :
    (o : Option ℕ) (a : ℕ) (c : Sys)
    → IsSafe c
    → Usable o c
    → Earlier o a
    → IsLive c a
    → Runs (set_child o a) Always c
unfolding set_child
set_child-Runs none a c s l lt there = Runs-pure Always tt c s tt
set_child-Runs (some p) a c s l lt there =
    then_do (load-Runs c s p (l p refl)) (λ f c1 s1 x1 (eq, e).
      Runs-weaken _ _ Always c1
        (store-links c1 s1 p f (record f { next_child = some a }) (rw eq e)
          (record { address = refl; key_bucket = refl; next_child = refl; real = s.real p f e })
          (λ b k. (ground (arith, lt p refl), (there.0, ground (arith, eq, there.1)))))
        (λ u d q. tt))

first_live :
    (prev first : Option ℕ) (a : ℕ) (c : Sys)
    → IsLive c a
    → Usable first c
    → Usable (elim prev [ none ↦ some a | some _ ↦ first ]) c
first_live none first a c l q = λ b e. (l.0, ground arith)
first_live (some p) first a c l q = q

chain_up-Runs :
    (d : Chain) (a : ℕ) (c : Sys)
    → IsSafe c
    → IsLive c a
    → ChainLive d c
    → Earlier d.prev a
    → Runs (chain_up d a) ChainLive c
unfolding chain_up
chain_up-Runs d a c s l (p, q) lt = then_do (set_child-Runs d.prev a c s p lt l) (λ u c1 s1 x1 q1.
    let there : IsLive c1 a = x1.flows a l in
    Runs-pure ChainLive _ c1 s1 (
      λ b e. (there.0, ground arith),
      first_live d.prev d.first a c1 there (λ b e. x1.flows b (q b e)),
    ))

module _ (kd : FlowKeyData) (lifetime : ℕ) (ext : Sockaddr) (mapping : is_mapping kd ≡ true) where
  key_mapping : (t : Server) → is_mapping (with_server (assign_src_ip kd t) t) ≡ true
  key_mapping t = ground (arith, mapping)

  chain_and_assign_src_ip-Runs :
      (i : ℕ) (d : Chain) (c : Sys)
      → IsSafe c
      → HasServer c i
      → ChainLive d c
      → Runs (chain_and_assign_src_ip kd lifetime ext i d) ChainLive c
  unfolding chain_and_assign_src_ip
  chain_and_assign_src_ip-Runs i d c s h l = then_do (load_server-Runs c s i h) (λ t c1 s1 x1 q1.
      let l1 = ChainLive-Extends d c c1 x1 l in
      Runs-if (is_not_working t.server_state) _ _ ChainLive c1
        (λ down. Runs-pure ChainLive d c1 s1 l1)
        (λ up.
          Runs-if (not (suits (assign_src_ip kd t) t)) _ _ ChainLive c1
            (λ bad. Runs-pure ChainLive d c1 s1 l1)
            (λ good.
              then_do (create-Runs t (with_server (assign_src_ip kd t) t) c1 s1)
                (λ a c2 s2 x2 (made, new).
                  then_do
                    (init_flow-Runs i lifetime ext (with_server (assign_src_ip kd t) t)
                      (key_mapping t) a c2 s2 (x2.servers i (x1.servers i h)) made)
                    (λ u c3 s3 x3 q3.
                      chain_up-Runs d a c3 s3 (x3.flows a (made.0, made.1))
                        (ChainLive-Extends d c2 c3 x3 (ChainLive-Extends d c1 c2 x2 l1))
                        (rw new (live-Earlier d.prev c1 s1 l1.0)))))))

  chain_servers-Runs :
      (n i : ℕ) (d : Chain) (c : Sys)
      → IsSafe c
      → HasServers i n c
      → ChainLive d c
      → Runs (chain_servers kd lifetime ext n i d) ChainLive c
  unfolding chain_servers
  chain_servers-Runs zero i d c s h l = Runs-pure ChainLive d c s l
  chain_servers-Runs (suc n) i d c s h l =
      then_do (load_server-Runs c s i (h i (omega arith) (omega arith))) (λ t c1 s1 x1 q1.
        let l1 = ChainLive-Extends d c c1 x1 l in
        let has = x1.servers i (h i (omega arith) (omega arith)) in
        then_do
          (Runs-if (is_unitialized t.server_state) (pure d)
            (chain_and_assign_src_ip kd lifetime ext i d) ChainLive c1
            (λ unused. Runs-pure ChainLive d c1 s1 l1)
            (λ used. chain_and_assign_src_ip-Runs i d c1 s1 has l1))
          (λ r c2 s2 x2 l2.
            chain_servers-Runs n (i + 1) r c2 s2
              (λ j p q. x2.servers j (x1.servers j (h j (omega arith) (omega arith)))) l2))

none_live : (c : Sys) → ChainLive no_chain c
none_live c = (λ a e. cc, λ a e. cc)

make_flows-Runs :
    (lifetime : ℕ) (key : Option FlowKeyData) (ext : Option Sockaddr) (c : Sys)
    → IsSafe c
    → ((kd : FlowKeyData) → key ≡ some kd → is_mapping kd ≡ true)
    → Runs (make_flows lifetime key ext) Usable c
unfolding make_flows
make_flows-Runs lifetime none ext c s m = Runs-pure Usable none c s (λ a e. cc)
make_flows-Runs lifetime (some kd) none c s m = Runs-pure Usable none c s (λ a e. cc)
make_flows-Runs lifetime (some kd) (some ext) c s m =
    then_do (count_servers-Runs c s) (λ n c1 s1 x1 h.
      then_do (chain_servers-Runs kd lifetime ext (m kd refl) n 0 no_chain c1 s1 h (none_live c1))
        (λ d c2 s2 x2 l. Runs-pure Usable d.first c2 s2 l.1))

module _ (findsaddr : Sockaddr → In6Addr → In6Addr)
    (findsaddr6 : Sockaddr → In6Addr × ℕ → In6Addr × ℕ) where
  peer_key-operation :
      (src dst : Sockaddr) (kd key : FlowKeyData)
      → peer_key findsaddr findsaddr6 src dst kd ≡ some key
      → key.operation ≡ kd.operation
  unfolding peer_key
  peer_key-operation (inet ip port) dst kd key e = ground arith
  peer_key-operation _ dst kd key e = ground arith

  with_dst-mapping :
      (src : Sockaddr) (kd key : FlowKeyData) (dst : Option Sockaddr)
      → with_dst findsaddr findsaddr6 src kd dst ≡ some key
      → is_mapping key ≡ true
  unfolding with_dst
  with_dst-mapping src kd key none e = ground arith
  with_dst-mapping src kd key (some to) e = ground (arith, peer_key-operation src to _ key e)

  flow_key-mapping :
      (src : Sockaddr) (dst : Option Sockaddr) (protocol : ℕ) (key : FlowKeyData)
      → flow_key findsaddr findsaddr6 src dst protocol ≡ some key
      → is_mapping key ≡ true
  unfolding flow_key
  flow_key-mapping src dst protocol key e =
      with_dst-mapping src (source_key src protocol) key (usable_dst dst) e

  -- From a safe state pcp_new_flow comes to its end for all addresses, whatever findsaddr and
  -- findsaddr6 write: no assertion fails, the state stays safe, no flow and no server is lost, and the
  -- flow that is returned, if any, is there.
  pub pcp_new_flow-Runs :
      (src dst ext : Option Sockaddr) (protocol lifetime : ℕ) (c : Sys)
      → IsSafe c
      → Runs (pcp_new_flow findsaddr findsaddr6 src dst ext protocol lifetime) Usable c
  unfolding pcp_new_flow
  pcp_new_flow-Runs none dst ext protocol lifetime c s = Runs-pure Usable none c s (λ a e. cc)
  pcp_new_flow-Runs (some src) dst ext protocol lifetime c s =
      make_flows-Runs lifetime (flow_key findsaddr findsaddr6 src dst protocol) (wanted_ext src ext)
        c s (λ kd. flow_key-mapping src dst protocol kd)
