-- ===== src/Interface/Info.antt =====
-- pcp_flow_get_info of lib/src/pcp_api.c: what is told of the flows of a next_child chain. Memory is
-- available, and the place for the count is given.
use emulebb_libpcpnatpmp.Base.{
  ℕ, zero, suc, ◌+◌, ◌≤◌, ◌≡◌, refl, sym, ap, ◌∙◌, arith, ◌%◌, ◌<◌, ltb, set, replicate, ◌++◌, List,
  [], ◌∷◌, Option, none, some, true, length, if◌then◌else◌,
}
use mathlib.Core.Option
use mathlib.Core.List.{append_assoc}
use emulebb_libpcpnatpmp.Data.{Flow}
use emulebb_libpcpnatpmp.ClientDb.Flows.{Heap, FlowDb}
use emulebb_libpcpnatpmp.Interface.Told.{
  FlowInfo, info_of, zero_info, told, told_step, AllTold, told-AllTold,
}
use emulebb_libpcpnatpmp.ClientDb.Rekey.{Children, no_more, child}

-- The first loop counts in 32 bits; none where a link leads to no flow.
unfoldable pub count_loop : ℕ → Heap → Option ℕ → ℕ → Option ℕ
count_loop fuel h none n = some n
count_loop zero h (some a) n = none
count_loop (suc fuel) h (some a) n = elim (h a) [
  | none ↦ none
  | some f ↦ count_loop fuel h f.next_child ((n + 1) % 4294967296)
]

-- The second loop writes the entries of the buffer; none also where it would write behind it.
unfoldable pub fill_loop : ℕ → Heap → Option ℕ → ℕ → List FlowInfo → Option (List FlowInfo)
fill_loop fuel h none i buf = some buf
fill_loop zero h (some a) i buf = none
fill_loop (suc fuel) h (some a) i buf = elim (h a) [
  | none ↦ none
  | some f ↦
      let rest = fill_loop fuel h f.next_child (i + 1) (set buf i (info_of f)) in
      if ltb i (length buf) then rest else none
]

abbrev pub pair_up : List FlowInfo → ℕ → List FlowInfo × ℕ
pair_up buf cnt = (buf, cnt)

unfoldable pub fill : FlowDb → Option ℕ → Option ℕ → Option (List FlowInfo × ℕ)
unfolding fill_loop
fill db o none = none
fill db o (some cnt) =
    Option.map (λ buf. pair_up buf cnt)
      (fill_loop db.next_address db.heap o 0 (replicate cnt zero_info))

-- The buffer and the count. There are no more flows on a chain than addresses have been given out.
unfoldable pub pcp_flow_get_info : Option ℕ → FlowDb → Option (List FlowInfo × ℕ)
unfolding fill count_loop
pcp_flow_get_info o db = fill db o (count_loop db.next_address db.heap o 0)

count_loop_lem :
    (fuel : ℕ) (h : Heap) (o : Option ℕ) (cs : List ℕ) (n : ℕ)
    → Children h o cs
    → length cs ≤ fuel
    → n + length cs < 4294967296
    → count_loop fuel h o n ≡ some (n + length cs)
unfolding count_loop
count_loop_lem fuel h none [] n no_more l b = ap some (omega arith)
count_loop_lem (suc fuel) h (some _) (a ∷ cs) n (child {f} e c) l b =
    let next : (n + 1) % 4294967296 ≡ n + 1 = omega arith in
    rw (e, count_loop)
      (rw next (
        count_loop_lem fuel h f.next_child cs (n + 1) c (omega arith) (omega arith)
        ∙ ap some (omega arith)))
count_loop_lem fuel h none (a ∷ cs) n c l b = elim c [ ]
count_loop_lem zero h (some _) [] n c l b = elim c [ ]
count_loop_lem (suc fuel) h (some _) [] n c l b = elim c [ ]
count_loop_lem zero h (some _) (a ∷ cs) n (child e c) l b = absurd (omega arith)

set_after :
    (done rest : List FlowInfo) (u v : FlowInfo)
    → (set (done ++ u ∷ rest) (length done) v ≡ (done ++ v ∷ []) ++ rest)
      × (length done < length (done ++ u ∷ rest))
      × (length (done ++ v ∷ []) ≡ length done + 1)
set_after [] rest u v = (refl, omega arith, omega arith)
set_after (x ∷ done) rest u v =
    let (p, q, r) = set_after done rest u v in
    (ap (λ l. x ∷ l) p, omega (arith, q), omega (arith, r))

fill_step :
    (fuel : ℕ) (h : Heap) (a : ℕ) (f : Flow) (i : ℕ) (buf : List FlowInfo)
    → h a ≡ some f
    → i < length buf
    → fill_loop (suc fuel) h (some a) i buf
      ≡ fill_loop fuel h f.next_child (i + 1) (set buf i (info_of f))
unfolding fill_loop
fill_step fuel h a f i buf e lt =
    let inside : ltb i (length buf) ≡ true = ground arith in rw (e, fill_loop) (rw inside refl)

fill_loop_lem :
    (fuel : ℕ) (h : Heap) (o : Option ℕ) (cs : List ℕ) (done : List FlowInfo)
    → Children h o cs
    → length cs ≤ fuel
    → fill_loop fuel h o (length done) (done ++ replicate (length cs) zero_info)
      ≡ some (done ++ told h cs)
unfolding fill_loop
fill_loop_lem fuel h none [] done no_more l = refl
fill_loop_lem (suc fuel) h (some _) (a ∷ cs) done (child {f} e c) l =
    let (p, q, r) = set_after done (replicate (length cs) zero_info) zero_info (info_of f) in
    let rest = fill_loop_lem fuel h f.next_child cs (done ++ info_of f ∷ []) c (omega arith) in
    let index : length done + 1 ≡ length (done ++ info_of f ∷ []) = omega (arith, r) in
    fill_step fuel h a f (length done) (done ++ zero_info ∷ replicate (length cs) zero_info) e q
    ∙ ap (fill_loop fuel h f.next_child (length done + 1)) p
    ∙ ap
        (λ i.
          fill_loop fuel h f.next_child i
            ((done ++ info_of f ∷ []) ++ replicate (length cs) zero_info))
        index
    ∙ rest
    ∙ ap some (append_assoc done (info_of f ∷ []) (told h cs))
    ∙ ap (λ x. some (done ++ x)) (sym (told_step h a f cs e))
fill_loop_lem fuel h none (a ∷ cs) done c l = elim c [ ]
fill_loop_lem zero h (some _) [] done c l = elim c [ ]
fill_loop_lem (suc fuel) h (some _) [] done c l = elim c [ ]
fill_loop_lem zero h (some _) (a ∷ cs) done (child e c) l = absurd (omega arith)

-- pcp_flow_get_info of a chain that ends, with fewer than 2^32 flows on it and no more than addresses
-- have been given out, writes nothing behind its buffer. It gives the number of the flows and an entry
-- for each, in their order: its state, server, source address and scope, lifetimes and the low 8 bits
-- of its result code, and the ports, protocol, destination and external address of a MAP or PEER flow,
-- which are zero for another.
pub pcp_flow_get_info-told :
    (o : Option ℕ) (cs : List ℕ) (db : FlowDb)
    → Children db.heap o cs
    → length cs ≤ db.next_address
    → length cs < 4294967296
    → (is : List FlowInfo) × (pcp_flow_get_info o db ≡ some (is, length cs)) × AllTold db.heap cs is
unfolding pcp_flow_get_info
pcp_flow_get_info-told o cs db c l b = (
  told db.heap cs,
  ap (fill db o)
        (count_loop_lem db.next_address db.heap o cs 0 c l (omega arith) ∙ ap some (omega arith))
      ∙ ap (Option.map (λ buf. pair_up buf (length cs)))
          (fill_loop_lem db.next_address db.heap o cs [] c l),
  told-AllTold db.heap o cs c,
)
