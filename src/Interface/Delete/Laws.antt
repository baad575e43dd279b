-- ===== src/Interface/Delete/Laws.antt =====
-- What pcp_delete_flow of lib/src/pcp_api.c leaves of the flow table and of the servers.
use emulebb_libpcpnatpmp.Base.{
  ℕ, zero, suc, ◌≤◌, ◌≡◌, refl, ap, ◌∙◌, arith, List, [], ◌∷◌, Option, none, some, if◌then◌else◌,
  length, ltb,
}
use emulebb_libpcpnatpmp.Data.{Flow}
use emulebb_libpcpnatpmp.ClientDb.Chains.{occurs}
use emulebb_libpcpnatpmp.ClientDb.Rekey.{Children, no_more, child}
use emulebb_libpcpnatpmp.System.{Sys, ◌>>=◌, ◌>>◌, load, and_then}
use emulebb_libpcpnatpmp.System.Sound.{IsSound, IsSafe, IsSafe-IsSound}
use emulebb_libpcpnatpmp.Interface.Delete.{
  freed, pcp_delete_flow_intern, delete_loop, pcp_delete_flow,
}
use emulebb_libpcpnatpmp.Interface.Delete.Chains.{Children-once, Children-kept}
use emulebb_libpcpnatpmp.Interface.Delete.Freed.{
  OwnsPing, freed-heap, left, freed-OwnsPing, freed-IsSound,
}

-- The flows of a list are gone, and the others are as before.
abbrev pub Deleted : List ℕ → Sys → Sys → Type 0
Deleted cs c d = (b : ℕ) → d.db.heap b ≡ (if ltb 0 (occurs b cs) then none else c.db.heap b)

load_there : (a : ℕ) (f : Flow) (c : Sys) → c.db.heap a ≡ some f → load a c ≡ some (f, c)
unfolding load
load_there a f c e = rw (e, load) refl

pub intern_there :
    (a : ℕ) (f : Flow) (c : Sys)
    → c.db.heap a ≡ some f
    → pcp_delete_flow_intern a c ≡ some (tt, freed c a f)
unfolding pcp_delete_flow_intern
intern_there a f c e = rw (e, pcp_delete_flow_intern) refl

delete_step :
    (fuel a : ℕ) (f : Flow) (c : Sys)
    → c.db.heap a ≡ some f
    → delete_loop (suc fuel) (some a) c ≡ delete_loop fuel f.next_child (freed c a f)
unfolding delete_loop ◌>>=◌
delete_step fuel a f c e =
    ap (λ x. and_then x (λ g. pcp_delete_flow_intern a >> delete_loop fuel g.next_child))
      (load_there a f c e)
    ∙ ap (λ x. and_then x (λ _. delete_loop fuel f.next_child)) (intern_there a f c e)

delete_loop_lem :
    (fuel : ℕ) (o : Option ℕ) (cs : List ℕ) (c : Sys)
    → IsSound c
    → OwnsPing c
    → Children c.db.heap o cs
    → length cs ≤ fuel
    → (d : Sys) × (delete_loop fuel o c ≡ some (tt, d)) × IsSound d × OwnsPing d × Deleted cs c d
unfolding delete_loop
delete_loop_lem fuel none [] c s own no_more l = (c, refl, s, own, λ b. refl)
delete_loop_lem (suc fuel) (some _) (a ∷ cs) c s own (child {f} e ch) l =
    let off = Children-once c.db.heap a f cs e ch in
    let kept = Children-kept (λ b o. left c s own a f e b (λ q. ground (arith, off))) ch in
    let (d, ran, s', own', gone) =
      delete_loop_lem fuel f.next_child cs (freed c a f) (freed-IsSound c s own a f e)
        (freed-OwnsPing c s own a f e) kept (omega arith) in
    (
      d,
      delete_step fuel a f c e ∙ ran,
      s',
      own',
      λ b. gone b ∙ ground (arith, freed-heap c s a f e b),
    )
delete_loop_lem fuel none (a ∷ cs) c s own ch l = elim ch [ ]
delete_loop_lem zero (some _) [] c s own ch l = elim ch [ ]
delete_loop_lem (suc fuel) (some _) [] c s own ch l = elim ch [ ]
delete_loop_lem zero (some _) (a ∷ cs) c s own (child e ch) l = absurd (omega arith)

-- In a sound state in which a ping message is a flow of its server and the server is in use,
-- pcp_delete_flow of a chain with no more flows than addresses have been given out comes to an end
-- and frees exactly the flows of the chain: the others are as they were, and the state is sound again,
-- so that neither the flow table nor a ping message leads to a freed flow.
pub pcp_delete_flow-Deleted :
    (o : Option ℕ) (cs : List ℕ) (c : Sys)
    → IsSound c
    → OwnsPing c
    → Children c.db.heap o cs
    → length cs ≤ c.db.next_address
    → (d : Sys) × (pcp_delete_flow o c ≡ some (tt, d)) × IsSound d × OwnsPing d × Deleted cs c d
unfolding pcp_delete_flow
pcp_delete_flow-Deleted o cs c s own ch l = delete_loop_lem c.db.next_address o cs c s own ch l

gone_or_kept :
    (n : ℕ) (old new : Option Flow) (f : Flow)
    → new ≡ (if ltb 0 n then none else old)
    → new ≡ some f
    → (n ≡ 0) × (old ≡ some f)
gone_or_kept n old new f e h = ground arith

kept_if_off : (n : ℕ) (old : Option Flow) → n ≡ 0 → (if ltb 0 n then none else old) ≡ old
kept_if_off n old e = ground arith

-- If next_child leads to the flows of the chain only along the chain, as pcp_new_flow links them, a safe
-- state is safe again after pcp_delete_flow of the chain.
pcp_delete_flow-IsSafe :
    (o : Option ℕ) (cs : List ℕ) (c : Sys)
    → IsSafe c
    → OwnsPing c
    → Children c.db.heap o cs
    → length cs ≤ c.db.next_address
    → ((a b : ℕ) (f : Flow)
        → c.db.heap a ≡ some f
        → f.next_child ≡ some b
        → occurs a cs ≡ 0
        → occurs b cs ≡ 0)
    → (d : Sys) × (pcp_delete_flow o c ≡ some (tt, d)) × IsSafe d
pcp_delete_flow-IsSafe o cs c s own ch l apart =
    let (d, ran, s', own', gone) = pcp_delete_flow-Deleted o cs c (IsSafe-IsSound c s) own ch l in
    (
      d,
      ran,
      record {
        db = s'.db;
        real = s'.real;
        ping = s'.ping;
        child = λ a b f e k.
            let (off, there) =
              gone_or_kept (occurs a cs) (c.db.heap a) (d.db.heap a) f (gone a) e in
            let (lt, (g, live)) = s.child a b f there k in
            (
              lt,
              (
                g,
                gone b ∙ kept_if_off (occurs b cs) (c.db.heap b) (apart a b f there k off) ∙ live,
              ),
            );
      },
    )
