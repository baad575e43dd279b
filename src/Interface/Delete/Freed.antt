-- ===== src/Interface/Delete/Freed.antt =====
-- What pcp_delete_flow_intern of lib/src/pcp_client_db.c leaves of the flow table and of the servers.
use emulebb_libpcpnatpmp.Base.{
  ℕ, zero, suc, ◌≡◌, ◌≢◌, ◌⊎◌, inl, inr, refl, sym, ap, ◌∙◌, arith, true, false, List, [], ◌∷◌,
  Option, none, some, ◌==◌, ==_iff, if◌then◌else◌, Bool-cases, Option-cases, get_elem?, set,
}
use emulebb_libpcpnatpmp.Data.{Flow, Server}
use emulebb_libpcpnatpmp.ClientDb.Flows.{FlowDb, update, pcp_db_rem_flow}
use emulebb_libpcpnatpmp.ClientDb.Invariant.{IsWellFormed}
use emulebb_libpcpnatpmp.ClientDb.Removal.{rem_linked, pcp_db_rem_flow-IsWellFormed}
use emulebb_libpcpnatpmp.ClientDb.Servers.{get_pcp_server, is_unitialized}
use emulebb_libpcpnatpmp.System.{Sys}
use emulebb_libpcpnatpmp.System.Sound.{IsSound}
use emulebb_libpcpnatpmp.Interface.Delete.{points_to, clear_ping, freed}

free-IsWellFormed :
    (db : FlowDb) (a : ℕ) (g : Flow)
    → IsWellFormed db
    → db.heap a ≡ some g
    → g.key_bucket ≡ none
    → IsWellFormed (record db { heap = update db.heap a none })
free-IsWellFormed db a g w e k = record {
  table = w.table;
  addresses = λ b f h. ground (arith, w.addresses b f);
  linked = λ i b o.
      let (f, there, q) = w.linked i b o in
      elim (Bool-cases (a == b)) [
        | inl p ↦ absurd (ground (arith, (==_iff a b).0 p))
        | inr p ↦ (f, rw p there, q)
      ];
  listed = λ i b f h q. ground (arith, w.listed i b f);
  unique = w.unique;
  fresh = λ b h. ground (arith, w.fresh b);
}

module _ (db : FlowDb) (w : IsWellFormed db) (f : Flow) (live : db.heap f.address ≡ some f) where
  rem_others : (b : ℕ) → f.address ≢ b → (pcp_db_rem_flow f db).1.heap b ≡ db.heap b
  unfolding pcp_db_rem_flow
  rem_others b n = elim (Option-cases f.key_bucket) [
    | inl k ↦ rw (k, pcp_db_rem_flow) refl
    | inr (i, k) ↦ let (c, e, done) = rem_linked db w f live i k in rw done (ground arith)
  ]

  rem_unlinked : f.key_bucket ≡ none → (pcp_db_rem_flow f db).1 ≡ db
  unfolding pcp_db_rem_flow
  rem_unlinked k = rw (k, pcp_db_rem_flow) refl

  rem_there :
      (g : Flow) × ((pcp_db_rem_flow f db).1.heap f.address ≡ some g) × (g.key_bucket ≡ none)
  unfolding pcp_db_rem_flow
  rem_there = elim (Option-cases f.key_bucket) [
    | inl k ↦ (f, ap (λ d. d.heap f.address) (rem_unlinked k) ∙ live, k)
    | inr (i, k) ↦
        let (c, e, done) = rem_linked db w f live i k in
        (record f { key_bucket = none }, rw done (ground arith), refl)
  ]

-- A server's ping message is a flow of that server, and the server is in use.
abbrev pub OwnsPing : Sys → Type 0
OwnsPing c =
    (i b : ℕ) (t : Server)
    → get_elem? c.servers i ≡ some t
    → t.ping_flow_msg ≡ some b
    → (g : Flow) × (c.db.heap b ≡ some g)
      × (g.pcp_server_indx ≡ i)
      × (is_unitialized t.server_state ≡ false)

module _ (c : Sys) (s : IsSound c) (a : ℕ) (f : Flow) (e : c.db.heap a ≡ some f) where
  pub freed-heap : (b : ℕ) → (freed c a f).db.heap b ≡ (if a == b then none else c.db.heap b)
  freed-heap b =
      let here : f.address ≡ a = s.db.addresses a f e in
      let live : c.db.heap f.address ≡ some f = ap c.db.heap here ∙ e in
      elim (Bool-cases (a == b)) [
        | inl p ↦ rw p refl
        | inr p ↦ rw p (rem_others c.db s.db f live b (λ q. ground (arith, here, ==_iff a b)))
      ]

  pub freed-IsWellFormed : IsWellFormed (freed c a f).db
  freed-IsWellFormed =
      let here : f.address ≡ a = s.db.addresses a f e in
      let live : c.db.heap f.address ≡ some f = ap c.db.heap here ∙ e in
      let (g, there, k) = rem_there c.db s.db f live in
      free-IsWellFormed (pcp_db_rem_flow f c.db).1 a g
        (pcp_db_rem_flow-IsWellFormed c.db s.db f live)
        (ap (pcp_db_rem_flow f c.db).1.heap (sym here) ∙ there) k

points_to_iff : (o : Option ℕ) (a : ℕ) → o ≡ some a → points_to o a ≡ true
points_to_iff none a e = cc
points_to_iff (some b) a e = ground (arith, e)

pub get_set_cases :
    (ss : List Server) (i j : ℕ) (u v : Server)
    → get_elem? (set ss i u) j ≡ some v
    → ((i ≡ j) × (u ≡ v)) ⊎ ((i ≢ j) × (get_elem? ss j ≡ some v))
get_set_cases [] i j u v e = absurd (ground arith)
get_set_cases (x ∷ ss) zero zero u v e = inl (refl, ground arith)
get_set_cases (x ∷ ss) zero (suc j) u v e = inr (λ p. ground arith, e)
get_set_cases (x ∷ ss) (suc i) zero u v e = inr (λ p. ground arith, e)
get_set_cases (x ∷ ss) (suc i) (suc j) u v e = elim (get_set_cases ss i j u v e) [
  | inl (p, q) ↦ inl (ap suc p, q)
  | inr (n, q) ↦ inr (λ p. n (omega arith), q)
]

-- A record with a ping message after clear_ping was there before, and its ping message is another
-- flow's if the record is that of the freed flow's server.
clear_ping_cases :
    (a i : ℕ) (o : Option Server) (ss : List Server) (j b : ℕ) (v : Server)
    → get_elem? (clear_ping a i o ss) j ≡ some v
    → v.ping_flow_msg ≡ some b
    → (get_elem? ss j ≡ some v) × (((i ≡ j) × (o ≡ some v)) → a ≢ b)
clear_ping_cases a i none ss j b v e p = (e, λ (q, r). cc)
clear_ping_cases a i (some s) ss j b v e p = elim (Bool-cases (points_to s.ping_flow_msg a)) [
  | inl y ↦ elim (get_set_cases ss i j (record s { ping_flow_msg = none }) v (rw y at e)) [
    | inl (q, r) ↦ let z : none ≡ v.ping_flow_msg = ap (λ x. x.ping_flow_msg) r in cc
    | inr (n, q) ↦ (q, λ (m, r). absurd (n m))
  ]
  | inr y ↦ (
    rw y at e,
    λ (q, r) same.
        let h : s.ping_flow_msg ≡ some a = ground (arith, ap some same) in
        cc (points_to_iff s.ping_flow_msg a h),
  )
]

server_there :
    (ss : List Server) (i : ℕ) (t : Server)
    → get_elem? ss i ≡ some t
    → is_unitialized t.server_state ≡ false
    → get_pcp_server ss i ≡ some t
unfolding get_pcp_server
server_there ss i t e u = rw (e, get_pcp_server) (rw u refl)

module _ (c : Sys) (s : IsSound c) (own : OwnsPing c) (a : ℕ) (f : Flow)
    (e : c.db.heap a ≡ some f) where
  -- A ping message that is left is not the freed flow.
  freed-ping :
      (i b : ℕ) (t : Server)
      → get_elem? (freed c a f).servers i ≡ some t
      → t.ping_flow_msg ≡ some b
      → (get_elem? c.servers i ≡ some t) × (a ≢ b)
  freed-ping i b t there p =
      let (old, n) =
        clear_ping_cases a f.pcp_server_indx (get_pcp_server c.servers f.pcp_server_indx) c.servers
          i b t there p in
      (
        old,
        λ same.
            let (g, at_b, own_i, used) = own i b t old p in
            let one : some f ≡ some g = sym e ∙ ap c.db.heap same ∙ at_b in
            let index : f.pcp_server_indx ≡ i = ground (arith, own_i) in
            n (index, ap (get_pcp_server c.servers) index ∙ server_there c.servers i t old used)
              same,
      )

  pub left : (b : ℕ) → a ≢ b → (freed c a f).db.heap b ≡ c.db.heap b
  left b n = freed-heap c s a f e b ∙ ground (arith, ==_iff a b)

  pub freed-OwnsPing : OwnsPing (freed c a f)
  freed-OwnsPing i b t there p =
      let (old, n) = freed-ping i b t there p in
      let (g, at_b, own_i, used) = own i b t old p in (g, left b n ∙ at_b, own_i, used)

  pub freed-IsSound : IsSound (freed c a f)
  freed-IsSound = record {
    db = freed-IsWellFormed c s a f e;
    real = λ b g h. ground (arith, freed-heap c s a f e b, s.real b g);
    ping = λ i b t there p. let (g, at_b, own_i, used) = freed-OwnsPing i b t there p in (g, at_b);
  }
