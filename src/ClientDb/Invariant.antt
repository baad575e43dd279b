-- ===== src/ClientDb/Invariant.antt =====
-- The invariant of the flow table of lib/src/pcp_client_db.c, and that pcp_create_flow,
-- pcp_db_add_flow and pcp_db_rem_flow keep it.
use emulebb_libpcpnatpmp.Base.{
  ℕ, ◌+◌, ◌<◌, ◌≤◌, ◌≡◌, ◌⊎◌, refl, ap, ◌∙◌, arith, [], ◌∷◌, ◌++◌, none, some, ◌==◌, ==_iff,
  if◌then◌else◌, Bool-cases, inl, inr, length, get_or-set, get_or-map, length-map, set, List,
  get_or-replicate, length-set,
}
use emulebb_libpcpnatpmp.Data.{FlowKeyData, Flow, Server}
use emulebb_libpcpnatpmp.ClientDb.Key.{compute_flow_key, compute_flow_key-lt, flow_hash_size}
use emulebb_libpcpnatpmp.ClientDb.Flows.{
  FlowDb, chain_at, pcp_create_flow, pcp_db_add_flow, empty_db, cut_after,
}
use emulebb_libpcpnatpmp.ClientDb.Chains.{occurs, occurs-append, cut_after-absent, cut_after-last}

-- The chains hold exactly the flows that have a bucket, each one once and in the chain of that
-- bucket; a flow is found at its address, and the addresses not yet given out are free.
pub record IsWellFormed (db : FlowDb) : Type 0 where
  pub table : length db.flows ≡ flow_hash_size
  pub addresses : (a : ℕ) (f : Flow) → db.heap a ≡ some f → f.address ≡ a
  pub linked :
      (i a : ℕ)
      → 0 < occurs a (chain_at db.flows i)
      → (f : Flow) × (db.heap a ≡ some f) × (f.key_bucket ≡ some i)
  pub listed :
      (i a : ℕ) (f : Flow)
      → db.heap a ≡ some f
      → f.key_bucket ≡ some i
      → 0 < occurs a (chain_at db.flows i)
  pub unique : (i a : ℕ) → occurs a (chain_at db.flows i) ≤ 1
  pub fresh : (a : ℕ) → db.next_address ≤ a → db.heap a ≡ none

pub empty_db-IsWellFormed : IsWellFormed empty_db
empty_db-IsWellFormed =
    let e : (i : ℕ) → chain_at empty_db.flows i ≡ [] = λ i. get_or-replicate flow_hash_size i [] in
    record {
      table = refl;
      addresses = λ a f h. ground arith;
      linked = λ i a h. ground (arith, ap (occurs a) (e i));
      listed = λ i a f h k. ground arith;
      unique = λ i a. ground (arith, ap (occurs a) (e i));
      fresh = λ a h. refl;
    }

zero_or_pos : (n : ℕ) → (n ≡ 0) ⊎ (0 < n)
zero_or_pos n = ground arith

module _ (db : FlowDb) (w : IsWellFormed db) where
  -- Creating a flow keeps a well-formed table well-formed.
  pub pcp_create_flow-IsWellFormed :
      (s : Server) (kd : FlowKeyData) → IsWellFormed (pcp_create_flow s kd db).1
  unfolding pcp_create_flow
  pcp_create_flow-IsWellFormed s kd =
      let n = db.next_address in
      record {
        table = w.table;
        addresses = λ a f h. ground (arith, w.addresses a f);
        linked = λ i a h. let (f, live, k) = w.linked i a h in (f, ground (arith, w.fresh a), k);
        listed = λ i a f h k. ground (arith, w.listed i a f);
        unique = w.unique;
        fresh = λ a h. ground (arith, w.fresh a);
      }

  module _ (f : Flow) (live : db.heap f.address ≡ some f) (unlinked : f.key_bucket ≡ none) where
    -- A flow without a bucket is in no chain.
    nowhere : (j : ℕ) → occurs f.address (chain_at db.flows j) ≡ 0
    nowhere j = elim (zero_or_pos (occurs f.address (chain_at db.flows j))) [
      | inl z ↦ z
      | inr p ↦ let (g, there, k) = w.linked j f.address p in absurd (ground arith)
    ]

    abbrev appended : ℕ → List ℕ
    appended j =
        let i = compute_flow_key f.kd in
        if i == j then chain_at db.flows i ++ f.address ∷ [] else chain_at db.flows j

    -- The new chains: one is longer, and none is cut.
    pub added-chains : (j : ℕ) → chain_at (pcp_db_add_flow f db).flows j ≡ appended j
    unfolding pcp_db_add_flow cut_after
    added-chains j =
        let i = compute_flow_key f.kd in
        let c = chain_at db.flows i in
        get_or-map (cut_after f.address) (set db.flows i (c ++ f.address ∷ [])) j []
        ∙ ap (cut_after f.address) (
            get_or-set db.flows i j (c ++ f.address ∷ []) []
              (omega (arith, compute_flow_key-lt f.kd, w.table)))
        ∙ elim (Bool-cases (i == j)) [
          | inl p ↦ rw p (cut_after-last f.address c (nowhere i))
          | inr p ↦ rw p (cut_after-absent f.address (chain_at db.flows j) (nowhere j))
        ]

    added-occurs :
        (j b : ℕ)
        → occurs b (chain_at (pcp_db_add_flow f db).flows j)
          ≡ occurs b (chain_at db.flows j)
            + (if compute_flow_key f.kd == j then (if f.address == b then 1 else 0) else 0)
    added-occurs j b =
        let i = compute_flow_key f.kd in
        let c = chain_at db.flows i in
        ap (occurs b) (added-chains j) ∙ elim (Bool-cases (i == j)) [
          | inl p ↦ rw p (
              occurs-append b c (f.address ∷ [])
              ∙ ground (arith, ap (λ x. occurs b (chain_at db.flows x)) ((==_iff i j).0 p)))
          | inr p ↦ rw p (omega arith)
        ]

    -- Linking a flow of the heap that has no bucket keeps a well-formed table well-formed.
    pub pcp_db_add_flow-IsWellFormed : IsWellFormed (pcp_db_add_flow f db)
    unfolding pcp_db_add_flow
    pcp_db_add_flow-IsWellFormed =
        let i = compute_flow_key f.kd in
        record {
          table = length-map (cut_after f.address) _ ∙ length-set db.flows i _ ∙ w.table;
          addresses = λ a g h. ground (arith, w.addresses a g);
          linked = λ j a h. elim (Bool-cases (f.address == a)) [
            | inl p ↦
                let here : i ≡ j =
                  ground (arith, added-occurs j a, nowhere j, (==_iff f.address a).0 p) in
                (record f { key_bucket = some i }, rw p refl, ap some here)
            | inr p ↦
                let (g, there, k) = w.linked j a (ground (arith, added-occurs j a)) in
                (g, rw p there, k)
          ];
          listed = λ j a g h k. ground (arith, added-occurs j a, w.listed j a g);
          unique = λ j a. ground (arith, added-occurs j a, nowhere j, w.unique j a);
          fresh = λ a h. ground (arith, w.fresh a);
        }
