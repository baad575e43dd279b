-- ===== src/ServerMachine/Safety/Ping.antt =====
-- Choosing the flow that pings a server, in lib/src/pcp_event_handler.c: what get_ping_msg and
-- create_natpmp_ann_msg find and leave.
use emulebb_libpcpnatpmp.Base.{
  ℕ, zero, suc, ◌<◌, ◌≡◌, refl, ap, ◌∙◌, arith, true, List, [], ◌∷◌, Option, none, some, ◌==◌,
  Bool-cases, inl, inr, get_elem?, set,
}
use emulebb_libpcpnatpmp.Data.{Flow, FlowKeyData, Server}
use mathlib.Core.Path.{subst}
use emulebb_libpcpnatpmp.ClientDb.Flows.{Heap, FlowDb, fresh_flow, pcp_create_flow, pcp_db_add_flow}
use emulebb_libpcpnatpmp.ClientDb.Chains.{occurs}
use emulebb_libpcpnatpmp.ClientDb.Key.{compute_flow_key}
use emulebb_libpcpnatpmp.ClientDb.Invariant.{
  pcp_create_flow-IsWellFormed, pcp_db_add_flow-IsWellFormed,
}
use emulebb_libpcpnatpmp.System.{Sys}
use emulebb_libpcpnatpmp.System.Sound.{
  IsSafe, IsLive, HasServer, Runs, Runs-pure, Runs-if, Runs-weaken, then_do,
}
use emulebb_libpcpnatpmp.System.Actions.{load-Runs, load_server-Runs, store_server-Runs}
use emulebb_libpcpnatpmp.System.Iterate.{flatten}
use emulebb_libpcpnatpmp.System.Iterate.Safety.{All, flow_addresses-Runs}
use emulebb_libpcpnatpmp.ServerMachine.Ping.{
  is_pending, find_first, get_ping_msg, create_and_add, announce_key, create_natpmp_ann_msg,
}

-- A flow that is there, belongs to the server and waits to be sent.
abbrev pub IsPending : Heap → ℕ → ℕ → Type 0
IsPending h index a = (f : Flow) × (h a ≡ some f) × (is_pending index f ≡ true)

abbrev pub FoundIn : Heap → ℕ → List ℕ → Option ℕ → Type 0
FoundIn h index l none = Unit {0}
FoundIn h index l (some a) = IsPending h index a × (0 < occurs a l)

FoundIn-cons :
    (h : Heap) (index b : ℕ) (l : List ℕ) (found : Option ℕ)
    → FoundIn h index l found
    → FoundIn h index (b ∷ l) found
FoundIn-cons h index b l none p = tt
FoundIn-cons h index b l (some a) (p, o) = (p, ground arith)

find_first-Runs :
    (index : ℕ) (l : List ℕ) (c : Sys)
    → IsSafe c
    → All (IsLive c) l
    → Runs (find_first index l) (λ found d. (d ≡ c) × FoundIn c.db.heap index l found) c
unfolding find_first
find_first-Runs index [] c s live = Runs-pure _ none c s (refl, tt)
find_first-Runs index (a ∷ l) c s (p, ps) = then_do (load-Runs c s a p) (λ f d t x (eq, e).
    Runs-if (is_pending index f) _ _ _ d
      (λ yes. Runs-pure _ (some a) d t (eq, ((f, e, yes), ground arith)))
      (λ no.
        Runs-weaken (find_first index l) (λ found d'. (d' ≡ d) × FoundIn d.db.heap index l found) _
          d (find_first-Runs index l d t (rw eq ps))
          (λ found d' (eq', h). (
            eq' ∙ eq,
            FoundIn-cons c.db.heap index a l found
                (subst (λ x. FoundIn x.db.heap index l found) eq h),
          ))))

FoundIn-of_eq :
    (found : Option ℕ) {h h' : Heap} {i j : ℕ} {l m : List ℕ}
    → h ≡ h'
    → i ≡ j
    → l ≡ m
    → FoundIn h i l found
    → FoundIn h' j m found
FoundIn-of_eq found {h} {h'} {i} {j} {l} {m} p q r x =
    subst (λ y. FoundIn h' j y found) r
      (subst (λ y. FoundIn h' y l found) q (subst (λ y. FoundIn y i l found) p x))

pub set_there :
    (ss : List Server) (i : ℕ) (t u : Server)
    → get_elem? ss i ≡ some t
    → get_elem? (set ss i u) i ≡ some u
set_there [] i t u e = absurd (ground arith)
set_there (x ∷ ss) zero t u e = refl
set_there (x ∷ ss) (suc i) t u e = set_there ss i t u e

-- The server is in the array, with this index in its record.
abbrev pub Indexed : ℕ → ℕ → Sys → Type 0
Indexed i index c = (t : Server) × (get_elem? c.servers i ≡ some t) × (t.index ≡ index)

-- A flow of its own that waits to be sent, or none.
abbrev pub Chosen : ℕ → FlowDb → Option ℕ → Sys → Type 0
Chosen index db found d = (d.db ≡ db) × FoundIn db.heap index (flatten db.flows) found

pub Chosen-IsLive :
    (index : ℕ) (db : FlowDb) (found : Option ℕ) (d : Sys) (a : ℕ)
    → Chosen index db found d
    → found ≡ some a
    → IsLive d a
Chosen-IsLive index db none d a h e = absurd (ground arith)
Chosen-IsLive index db (some b) d a (same, ((f, there, k), o)) e = (f, rw same (ground arith))

-- A flow that is made and linked. The others are where they were.
module _ (s : Server) (kd : FlowKeyData) (c : Sys) (v : IsSafe c) where
  abbrev made : FlowDb
  unfolding pcp_create_flow
  made = (pcp_create_flow s kd c.db).1

  abbrev fresh : Flow
  fresh = fresh_flow c.db.next_address s kd

  made_there : made.heap fresh.address ≡ some fresh
  unfolding pcp_create_flow
  made_there = ground arith

  abbrev grown : Sys
  unfolding pcp_db_add_flow pcp_create_flow
  grown = record c { db = pcp_db_add_flow fresh made }

  grown-IsLive : (b : ℕ) → IsLive c b → IsLive grown b
  unfolding pcp_db_add_flow pcp_create_flow
  grown-IsLive b (f, e) = elim (Bool-cases (c.db.next_address == b)) [
    | inl p ↦ (record fresh { key_bucket = some (compute_flow_key kd) }, rw p refl)
    | inr p ↦ (f, rw p e)
  ]

  grown_there : IsLive grown c.db.next_address
  unfolding pcp_db_add_flow pcp_create_flow
  grown_there = (record fresh { key_bucket = some (compute_flow_key kd) }, ground arith)

  grown-IsSafe : IsSafe grown
  unfolding pcp_db_add_flow pcp_create_flow
  grown-IsSafe = record {
    db =
        pcp_db_add_flow-IsWellFormed made (pcp_create_flow-IsWellFormed c.db v.db s kd) fresh
          made_there refl;
    real = λ b f e. ground (arith, v.real b f);
    ping = λ i b t e p. grown-IsLive b (v.ping i b t e p);
    child =
        λ b d f e k. let (lt, live) = v.child b d f (ground arith) k in (lt, grown-IsLive d live);
  }

  create_and_add-Runs :
      Runs (create_and_add s kd) (λ a d. IsLive d a × (d.servers ≡ c.servers) × (d.msg ≡ c.msg)) c
  unfolding create_and_add pcp_db_add_flow pcp_create_flow
  create_and_add-Runs = record {
    value = c.db.next_address;
    after = grown;
    ran = refl;
    safe = grown-IsSafe;
    extends = record { flows = grown-IsLive; servers = λ i h. h };
    post = (grown_there, refl, refl);
  }

module _ (i index : ℕ) where
  pub get_ping_msg-Runs :
      (c : Sys)
      → IsSafe c
      → Indexed i index c
      → Runs (get_ping_msg i) (λ found d. Chosen index c.db found d × Indexed i index d) c
  unfolding get_ping_msg
  get_ping_msg-Runs c s (t0, there, k) =
      then_do (load_server-Runs c s i (t0, there)) (λ t c1 s1 x1 (eq1, e1).
        then_do (flow_addresses-Runs c1 s1) (λ l c2 s2 x2 (eq2, live, all).
          then_do (find_first-Runs t.index l c2 s2 live) (λ found c3 s3 x3 (eq3, h).
            let same : c3 ≡ c = eq3 ∙ eq2 ∙ eq1 in
            let here : get_elem? c3.servers i ≡ some t = rw same e1 in
            let own : t.index ≡ index = ground arith in
            let chosen : Chosen index c.db found c3 = (
              ap (λ x. x.db) same,
              FoundIn-of_eq found (ap (λ x. x.db.heap) (eq2 ∙ eq1)) own
                  (all ∙ ap (λ x. flatten x.db.flows) eq1) h,
            ) in
            then_do
              (store_server-Runs c3 s3 i t (record t { ping_flow_msg = found }) here
                (λ a. Chosen-IsLive index c.db found c3 a chosen))
              (λ u c4 s4 x4 (db, m, sv). Runs-pure _ found c4 s4 (
                (db ∙ chosen.0, chosen.1),
                (record t { ping_flow_msg = found }, rw sv (set_there c3.servers i t _ here), own),
              )))))

  pub create_natpmp_ann_msg-Runs :
      (c : Sys) → IsSafe c → HasServer c i → Runs (create_natpmp_ann_msg i) (λ a d. IsLive d a) c
  unfolding create_natpmp_ann_msg
  create_natpmp_ann_msg-Runs c s h = then_do (load_server-Runs c s i h) (λ t c1 s1 x1 (eq1, e1).
      then_do (create_and_add-Runs t (announce_key t) c1 s1) (λ a c2 s2 x2 (live, sv, m).
        let here : get_elem? c2.servers i ≡ some t = rw sv (rw eq1 e1) in
        then_do
          (store_server-Runs c2 s2 i t (record t { ping_flow_msg = some a }) here
            (λ b e. (live.0, ground arith)))
          (λ u c3 s3 x3 q3. Runs-pure _ a c3 s3 (x3.flows a live))))
