-- ===== src/Interface/Terminate/Servers.antt =====
-- What pcp_db_free_pcp_servers of lib/src/pcp_client_db.c leaves.
use emulebb_libpcpnatpmp.Base.{
  ℕ, zero, suc, ◌+◌, ◌<◌, ◌≤◌, ◌≡◌, refl, ap, ◌∙◌, arith, List, [], ◌∷◌, some, length, get_elem?,
  set, length-set, Bool-cases, inl, inr,
}
use emulebb_libpcpnatpmp.Data.{Server, pcpe_terminate}
use emulebb_libpcpnatpmp.System.{Sys, Action, pure, ◌>>=◌, and_then, load_server, store_server}
use emulebb_libpcpnatpmp.ServerMachine.Dispatch.{server_handler-reaction_of}
use emulebb_libpcpnatpmp.ServerMachine.Machine.{
  take_step, call_handler, enter_state, run_server_handler, run_server_state_machine,
}
use emulebb_libpcpnatpmp.Pulse.{count_servers}
use emulebb_libpcpnatpmp.Interface.Terminate.{
  is_idle, terminate_at, terminate_from, no_servers, pcp_db_free_pcp_servers,
}

-- The flow table and the number of servers are as before.
pub record SameFlows (c d : Sys) : Type 0 where
  pub db : d.db ≡ c.db
  pub count : length d.servers ≡ length c.servers

module _ {A : Type 0} where
  -- The action comes to its end and changes servers only.
  pub record Quiet (m : Action A) (c : Sys) : Type 0 where
    pub value : A
    pub after : Sys
    pub ran : m c ≡ some (value, after)
    pub same : SameFlows c after

  Quiet-pure : (a : A) (c : Sys) → Quiet (pure a) c
  Quiet-pure a c = record {
    value = a;
    after = c;
    ran = refl;
    same = record { db = refl; count = refl };
  }

module _ {A B : Type 0} where
  bind-Quiet :
      {m : Action A} {k : A → Action B} {c : Sys}
      → Quiet m c
      → ((a : A) (d : Sys) → SameFlows c d → Quiet (k a) d)
      → Quiet (m >>= k) c
  unfolding ◌>>=◌
  bind-Quiet {m} {k} {c} q h =
      let t = h q.value q.after q.same in
      record {
        value = t.value;
        after = t.after;
        ran = ap (λ x. and_then x k) q.ran ∙ t.ran;
        same = record { db = t.same.db ∙ q.same.db; count = t.same.count ∙ q.same.count };
      }

get_elem?-there :
    (ss : List Server) (i : ℕ) → i < length ss → (s : Server) × (get_elem? ss i ≡ some s)
get_elem?-there [] i h = absurd (omega arith)
get_elem?-there (s ∷ ss) zero h = (s, refl)
get_elem?-there (s ∷ ss) (suc i) h = get_elem?-there ss i (omega arith)

module _ (i : ℕ) (c : Sys) (h : i < length c.servers) where
  load_server-Quiet : Quiet (load_server i) c
  unfolding load_server
  load_server-Quiet =
      let (s, e) = get_elem?-there c.servers i h in
      record {
        value = s;
        after = c;
        ran = rw (e, load_server) refl;
        same = record { db = refl; count = refl };
      }

  store_server-Quiet : (t : Server) → Quiet (store_server i t) c
  unfolding store_server
  store_server-Quiet t =
      let (s, e) = get_elem?-there c.servers i h in
      record {
        value = tt;
        after = record c { servers = set c.servers i t };
        ran = rw (e, store_server) refl;
        same = record { db = refl; count = length-set c.servers i t };
      }

module _ (i : ℕ) where
  terminating :
      (c : Sys) → i < length c.servers → Quiet (run_server_state_machine i pcpe_terminate) c
  unfolding run_server_state_machine run_server_handler call_handler take_step enter_state
  terminating c h = bind-Quiet (load_server-Quiet i c h) (λ s c1 k1.
      rw (server_handler-reaction_of s.server_state pcpe_terminate) (
        bind-Quiet
          (bind-Quiet (load_server-Quiet i c1 (omega (arith, k1.count))) (λ t c2 k2.
            bind-Quiet (store_server-Quiet i c2 (omega (arith, k1.count, k2.count)) _)
              (λ u c3 k3. Quiet-pure _ c3)))
          (λ st c2 k2.
            bind-Quiet (load_server-Quiet i c2 (omega (arith, k1.count, k2.count))) (λ t c3 k3.
              store_server-Quiet i c3 (omega (arith, k1.count, k2.count, k3.count)) _))))

terminate_at-Quiet : (i : ℕ) (c : Sys) → i < length c.servers → Quiet (terminate_at i) c
unfolding terminate_at
terminate_at-Quiet i c h = bind-Quiet (load_server-Quiet i c h) (λ s d k.
    elim (Bool-cases (is_idle s.server_state)) [
      | inl b ↦ rw b (Quiet-pure tt d)
      | inr b ↦ rw b (terminating i d (omega (arith, k.count)))
    ])

terminate_from-Quiet : (n i : ℕ) (c : Sys) → n + i ≤ length c.servers → Quiet (terminate_from n i) c
unfolding terminate_from
terminate_from-Quiet zero i c h = Quiet-pure tt c
terminate_from-Quiet (suc n) i c h =
    bind-Quiet (terminate_at-Quiet i c (omega arith))
      (λ u d k. terminate_from-Quiet n (i + 1) d (omega (arith, k.count)))

-- All servers are freed, and the flows are as before.
pub pcp_db_free_pcp_servers-done :
    (c : Sys)
    → (d : Sys) × (pcp_db_free_pcp_servers c ≡ some (tt, d)) × (d.db ≡ c.db) × (d.servers ≡ [])
unfolding pcp_db_free_pcp_servers no_servers count_servers ◌>>=◌
pcp_db_free_pcp_servers-done c =
    let q = terminate_from-Quiet (length c.servers) 0 c (omega arith) in
    (record q.after { servers = [] }, ap (λ x. and_then x (λ _. no_servers)) q.ran, q.same.db, refl)
