-- ===== src/ClientDb/Lookup.antt =====
-- Looking flows up in lib/src/pcp_client_db.c: pcp_get_flow after pcp_db_add_flow, and after the key
-- of a linked flow has changed.
use emulebb_libpcpnatpmp.Base.{
  ℕ, Bool, ◌≡◌, inl, inr, refl, sym, ◌∙◌, ap, arith, true, List, [], ◌∷◌, ◌++◌, Option, none, some,
  ◌⊎◌, ◌↔◌, ◌==◌, ==_iff, if◌then◌else◌, Bool-cases,
}
use mathlib.Core.List.{append-nil}
use emulebb_libpcpnatpmp.Data.{FlowKeyData, Flow, Server}
use emulebb_libpcpnatpmp.ClientDb.Key.{compute_flow_key, key_equal, key_equal→eq, key_equal_refl}
use emulebb_libpcpnatpmp.ClientDb.Invariant.{IsWellFormed, added-chains}
use emulebb_libpcpnatpmp.ClientDb.Flows.{
  Heap, FlowDb, update, chain_at, pcp_db_add_flow, matches_flow, is_match, chain_find, pcp_get_flow,
}

abbrev pub first_of_two : Option ℕ → Option ℕ → Option ℕ
first_of_two none b = b
first_of_two (some a) b = some a

chain_find-append :
    (h : Heap) (kd : FlowKeyData) (i : ℕ) (c d : List ℕ)
    → chain_find h kd i (c ++ d) ≡ first_of_two (chain_find h kd i c) (chain_find h kd i d)
unfolding chain_find
chain_find-append h kd i [] d = refl
chain_find-append h kd i (a ∷ c) d = ground (arith, chain_find-append h kd i c d)

pub chain_find-heap :
    (h h' : Heap) (kd : FlowKeyData) (i : ℕ) (c : List ℕ)
    → ((a : ℕ) → is_match h kd i a ≡ is_match h' kd i a)
    → chain_find h kd i c ≡ chain_find h' kd i c
unfolding chain_find
chain_find-heap h h' kd i [] same = refl
chain_find-heap h h' kd i (a ∷ c) same = ground (arith, same a, chain_find-heap h h' kd i c same)

pub is_match-update :
    (h : Heap) (f : Flow) (b : Option ℕ)
    → h f.address ≡ some f
    → (kd : FlowKeyData) (i a : ℕ)
    → is_match (update h f.address (some (record f { key_bucket = b }))) kd i a ≡ is_match h kd i a
unfolding is_match
is_match-update h f b e kd i a = elim (Bool-cases (f.address == a)) [
  | inl p ↦
      rw p (ap (matches_flow kd i) (sym e) ∙ ap (λ x. matches_flow kd i (h x)) ((==_iff _ a).0 p))
  | inr p ↦ rw p
]

-- A key that the flow answers to has the flow's hash.
hash_of_match :
    (kd : FlowKeyData) (i : ℕ) (f : Flow)
    → matches_flow kd i (some f) ≡ true
    → (compute_flow_key f.kd == compute_flow_key kd) ≡ true
hash_of_match kd i f h =
    let same : key_equal kd f.kd ≡ true = ground arith in
    (==_iff _ _).1 (ap compute_flow_key (sym (key_equal→eq kd f.kd same)))

found_iff :
    (old new : Option ℕ) (b : Bool) (x a : ℕ)
    → new ≡ first_of_two old (if b then some x else none)
    → (new ≡ some a) ↔ ((old ≡ some a) ⊎ ((old ≡ none) × (a ≡ x) × (b ≡ true)))
found_iff old new b x a e = ground arith

module _ (db : FlowDb) (w : IsWellFormed db) (f : Flow) (live : db.heap f.address ≡ some f)
    (unlinked : f.key_bucket ≡ none) where
  found_alone :
      (kd : FlowKeyData) (i : ℕ)
      → chain_find db.heap kd i
          (if compute_flow_key f.kd == compute_flow_key kd then f.address ∷ [] else [])
        ≡ (if matches_flow kd i (some f) then some f.address else none)
  unfolding chain_find is_match
  found_alone kd i = elim (Bool-cases (matches_flow kd i (some f))) [
    | inl p ↦ rw (hash_of_match kd i f p) (rw live refl)
    | inr p ↦ elim (Bool-cases (compute_flow_key f.kd == compute_flow_key kd)) [
      | inl q ↦ rw q (rw live refl)
      | inr q ↦ rw q (rw p)
    ]
  ]

  added_chain :
      (kd : FlowKeyData)
      → chain_at (pcp_db_add_flow f db).flows (compute_flow_key kd)
        ≡ chain_at db.flows (compute_flow_key kd)
          ++ (if compute_flow_key f.kd == compute_flow_key kd then f.address ∷ [] else [])
  added_chain kd =
      let i = compute_flow_key f.kd in
      let j = compute_flow_key kd in
      added-chains db w f live unlinked j ∙ elim (Bool-cases (i == j)) [
        | inl p ↦ rw p (ap (λ x. chain_at db.flows x ++ f.address ∷ []) ((==_iff i j).0 p))
        | inr p ↦ rw p (sym (append-nil (chain_at db.flows j)))
      ]

  is_match-added :
      (kd : FlowKeyData) (i a : ℕ)
      → is_match (pcp_db_add_flow f db).heap kd i a ≡ is_match db.heap kd i a
  unfolding pcp_db_add_flow
  is_match-added kd i a = is_match-update db.heap f _ live kd i a

  added_found :
      (kd : FlowKeyData) (s : Server)
      → pcp_get_flow kd s (pcp_db_add_flow f db)
        ≡ first_of_two
            (pcp_get_flow kd s db)
            (if matches_flow kd s.index (some f) then some f.address else none)
  unfolding pcp_get_flow
  added_found kd s =
      let b = compute_flow_key kd in
      let last = if compute_flow_key f.kd == b then f.address ∷ [] else [] in
      ap (chain_find (pcp_db_add_flow f db).heap kd s.index) (added_chain kd)
      ∙ chain_find-heap (pcp_db_add_flow f db).heap db.heap kd s.index (chain_at db.flows b ++ last)
          (is_match-added kd s.index)
      ∙ chain_find-append db.heap kd s.index (chain_at db.flows b) last
      ∙ ap (first_of_two (chain_find db.heap kd s.index (chain_at db.flows b)))
          (found_alone kd s.index)

  -- The key and the server that a flow answers to.
  abbrev pub AnswersTo : FlowKeyData → Server → Type 0
  AnswersTo kd s = (kd ≡ f.kd) × (s.index ≡ f.pcp_server_indx)

  matches-AnswersTo :
      (kd : FlowKeyData) (s : Server) → (matches_flow kd s.index (some f) ≡ true) ↔ AnswersTo kd s
  matches-AnswersTo kd s = (
    λ m. (key_equal→eq kd f.kd (ground arith), ground arith),
    λ (k, i).
        let same : key_equal kd f.kd ≡ true = ap (key_equal kd) (sym k) ∙ key_equal_refl kd in
        ground arith,
  )

  -- In a well-formed table, after a flow of the heap that is in no chain was added, a lookup finds an
  -- address exactly if it found it before, or found nothing and the address is the added flow's,
  -- whose key is the one looked for and whose server has the index of the one given.
  pub pcp_get_flow-pcp_db_add_flow :
      (kd : FlowKeyData) (s : Server) (a : ℕ)
      → (pcp_get_flow kd s (pcp_db_add_flow f db) ≡ some a) ↔ (
          (pcp_get_flow kd s db ≡ some a)
          ⊎ ((pcp_get_flow kd s db ≡ none) × (a ≡ f.address) × AnswersTo kd s))
  pcp_get_flow-pcp_db_add_flow kd s a =
      let m = matches-AnswersTo kd s in
      let b = matches_flow kd s.index (some f) in
      let (to, from) =
        found_iff (pcp_get_flow kd s db) (pcp_get_flow kd s (pcp_db_add_flow f db)) b f.address a
          (added_found kd s) in
      (
        λ h. elim (to h) [ inl e ↦ inl e | inr (n, e, t) ↦ inr (n, e, m.0 t) ],
        λ r. from (elim r [ inl e ↦ inl e | inr (n, e, t) ↦ inr (n, e, m.1 t) ]),
      )
