-- ===== src/Interface/Create/Steps.antt =====
-- Making a flow, init_flow and linking it run: lib/src/pcp_api.c and lib/src/pcp_client_db.c.
use emulebb_libpcpnatpmp.Base.{
  ℕ, ◌≡◌, ◌≢◌, refl, sym, ap, ◌∙◌, arith, Bool, true, false, none, some, ◌==◌, ==_iff, Bool-cases,
  inl, inr, if◌then◌else◌, get_elem?,
}
use emulebb_libpcpnatpmp.Data.{
  Flow, FlowKeyData, pfs_any, pfs_send, pfs_wait_for_server_init, Server,
}
use emulebb_libpcpnatpmp.ClientDb.Key.{compute_flow_key}
use emulebb_libpcpnatpmp.ClientDb.Flows.{fresh_flow, pcp_create_flow, pcp_db_add_flow}
use emulebb_libpcpnatpmp.ClientDb.Invariant.{
  pcp_create_flow-IsWellFormed, pcp_db_add_flow-IsWellFormed,
}
use emulebb_libpcpnatpmp.System.{Sys, pure, fault}
use emulebb_libpcpnatpmp.System.Sound.{
  IsSafe, IsLive, HasServer, Runs, Always, Runs-pure, Runs-if, then_do,
}
use emulebb_libpcpnatpmp.System.Actions.{
  gettimeofday-Runs, load-Runs, store-Runs, load_server-Runs, store_server-Runs,
}
use emulebb_libpcpnatpmp.Interface.Address.{Sockaddr, filled_ip, filled_port}
use emulebb_libpcpnatpmp.TimeVal.{TimeVal}
use emulebb_libpcpnatpmp.Interface.Create.{create, link, is_wait_io, is_mapping, init_flow}

-- A flow that is made: it has the key, and it is in no chain.
abbrev pub Made : FlowKeyData → ℕ → Sys → Type 0
Made kd a d = (f : Flow) × (d.db.heap a ≡ some f) × (f.key_bucket ≡ none) × (f.kd ≡ kd)

pub create-Runs :
    (s : Server) (kd : FlowKeyData) (c : Sys)
    → IsSafe c
    → Runs (create s kd) (λ a d. Made kd a d × (a ≡ c.db.next_address)) c
unfolding create pcp_create_flow
create-Runs s kd c v =
    let a = c.db.next_address in
    let keep : (b : ℕ) → IsLive c b → IsLive (record c { db = (pcp_create_flow s kd c.db).1 }) b =
      λ b (g, e). (g, ground (arith, v.db.fresh b, e)) in
    record {
      value = a;
      after = record c { db = (pcp_create_flow s kd c.db).1 };
      ran = refl;
      safe = record {
        db = pcp_create_flow-IsWellFormed c.db v.db s kd;
        real = λ b f e. ground (arith, v.real b f);
        ping = λ i b t e p. keep b (v.ping i b t e p);
        child = λ b d g e k. let (lt, live) = v.child b d g (ground arith) k in (lt, keep d live);
      };
      extends = record { flows = keep; servers = λ i h. h };
      post = ((fresh_flow a s kd, ground arith, refl, refl), refl);
    }

link-Runs :
    (a : ℕ) (f : Flow) (c : Sys)
    → IsSafe c
    → c.db.heap a ≡ some f
    → f.key_bucket ≡ none
    → Runs (link a) Always c
unfolding link pcp_db_add_flow
link-Runs a f c s e k =
    let here : f.address ≡ a = s.db.addresses a f e in
    let live : c.db.heap f.address ≡ some f = ap c.db.heap here ∙ e in
    let d : Sys = record c { db = pcp_db_add_flow f c.db } in
    let keep : (b : ℕ) → IsLive c b → IsLive d b = λ b (g, p). elim (Bool-cases (f.address == b)) [
      | inl q ↦ (record f { key_bucket = some (compute_flow_key f.kd) }, rw q refl)
      | inr q ↦ (g, rw q p)
    ] in
    record {
      value = tt;
      after = d;
      ran = rw (e, link) refl;
      safe = record {
        db = pcp_db_add_flow-IsWellFormed c.db s.db f live k;
        real = λ b g h. ground (arith, s.real b g, s.real a f e);
        ping = λ i b t p q. keep b (s.ping i b t p q);
        child = λ b q g h k. elim (Bool-cases (f.address == b)) [
          | inl p ↦
              let (lt, to) = s.child f.address q f live (ground arith) in
              (ground (arith, lt, (==_iff f.address b).0 p), keep q to)
          | inr p ↦ let (lt, to) = s.child b q g (ground arith) k in (lt, keep q to)
        ];
      };
      extends = record { flows = keep; servers = λ i h. h };
      post = tt;
    }

module _ (i lifetime : ℕ) (ext : Sockaddr) (kd : FlowKeyData) (mapping : is_mapping kd ≡ true) where
  abbrev pub started : Flow → Server → TimeVal → Flow
  started g t now = record g {
    ext_ip = filled_ip ext g.ext_ip;
    ext_port = filled_port ext g.ext_port;
    lifetime = lifetime;
    timeout = now;
    state = if is_wait_io t.server_state then pfs_send else pfs_wait_for_server_init;
  }

  started_real : (b : Bool) → (if b then pfs_send else pfs_wait_for_server_init) ≢ pfs_any
  started_real true e = cc
  started_real false e = cc

  pub init_flow-Runs :
      (a : ℕ) (c : Sys)
      → IsSafe c
      → HasServer c i
      → Made kd a c
      → Runs (init_flow a i lifetime ext) Always c
  unfolding init_flow
  init_flow-Runs a c s h (f, e, k, q) = then_do (load-Runs c s a (f, e)) (λ g c1 s1 x1 (eq1, e1).
      then_do (load_server-Runs c1 s1 i (x1.servers i h)) (λ t c2 s2 x2 (eq2, e2).
        let same : g ≡ f = ground (arith, sym e1 ∙ e) in
        then_do
          (Runs-if (is_mapping g.kd) (pure tt) fault (λ u d. d ≡ c2) c2
            (λ yes. Runs-pure _ tt c2 s2 refl)
            (λ no. absurd (ground (arith, ap (λ x. is_mapping x.kd) same, ap is_mapping q))))
          (λ u c3 s3 x3 eq3. then_do (gettimeofday-Runs c3 s3) (λ now c4 s4 x4 (db4, sv4, m4).
            let here : c4.db.heap a ≡ some g = ap (λ d. d.heap a) db4 ∙ rw (eq3, eq2, eq1) e1 in
            then_do
              (store-Runs c4 s4 a g (started g t now) here (record {
                address = refl;
                key_bucket = refl;
                next_child = refl;
                real = started_real (is_wait_io t.server_state);
              }))
              (λ v c5 s5 x5 (t5, e5).
                let there : get_elem? c5.servers i ≡ some t = rw (t5.servers, sv4, eq3, eq2) e2 in
                then_do
                  (store_server-Runs c5 s5 i t (record t { next_timeout = now }) there
                    (λ b. s5.ping i b t there))
                  (λ w c6 s6 x6 (db6, m6, sv6).
                    link-Runs a (started g t now) c6 s6 (ap (λ d. d.heap a) db6 ∙ e5)
                      (ap (λ x. x.key_bucket) same ∙ k)))))))
