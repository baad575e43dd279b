-- ===== src/Interface/Terminate/Laws.antt =====
-- pcp_terminate of lib/src/pcp_api.c frees everything.
use emulebb_libpcpnatpmp.Base.{
  ℕ, ◌≡◌, ap, ◌∙◌, arith, Bool, false, [], Option, none, some, ltb, if◌then◌else◌,
}
use emulebb_libpcpnatpmp.Wire.{In6Addr}
use emulebb_libpcpnatpmp.Data.{Flow}
use emulebb_libpcpnatpmp.ClientDb.Chains.{occurs}
use emulebb_libpcpnatpmp.ClientDb.Invariant.{IsWellFormed}
use emulebb_libpcpnatpmp.System.{Sys, ◌>>=◌, and_then}
use emulebb_libpcpnatpmp.System.Sound.{IsSound}
use emulebb_libpcpnatpmp.System.Iterate.{flatten}
use emulebb_libpcpnatpmp.Pulse.{Datagram}
use emulebb_libpcpnatpmp.Interface.Delete.Freed.{OwnsPing}
use emulebb_libpcpnatpmp.Interface.Terminate.{pcp_db_free_pcp_servers, pcp_terminate}
use emulebb_libpcpnatpmp.Interface.Terminate.Freeing.{delete_all-Deleted, linked_listed}
use emulebb_libpcpnatpmp.Interface.Terminate.Servers.{pcp_db_free_pcp_servers-done}

-- No server is left, no flow that was linked, and the table is well-formed; a flow that is left
-- was there before.
pub record AllFreed (c d : Sys) : Type 0 where
  pub servers : d.servers ≡ []
  pub flows :
      (b i : ℕ) (f : Flow) → c.db.heap b ≡ some f → f.key_bucket ≡ some i → d.db.heap b ≡ none
  pub table : IsWellFormed d.db
  pub others : (b : ℕ) (f : Flow) → d.db.heap b ≡ some f → c.db.heap b ≡ some f

-- In a sound state in which a ping message is a flow of its server and the server is in use,
-- pcp_terminate without closing the flows comes to its end without following a null or dangling
-- pointer. Then every flow of the table is freed, and no server is left.
pub pcp_terminate-AllFreed :
    (is_linklocal : In6Addr → Bool) (rounds : ℕ) (m : Option Datagram) (c : Sys)
    → IsSound c
    → OwnsPing c
    → (d : Sys) × (pcp_terminate is_linklocal rounds m false c ≡ some (tt, d)) × AllFreed c d
unfolding pcp_terminate ◌>>=◌
pcp_terminate-AllFreed is_linklocal rounds m c s own =
    let (c1, ran, s1, own1, gone) = delete_all-Deleted c s own in
    let (d, ran', db, empty) = pcp_db_free_pcp_servers-done c1 in
    let left : (b : ℕ)
        → d.db.heap b ≡ (if ltb 0 (occurs b (flatten c.db.flows)) then none else c.db.heap b) =
      λ b. ap (λ x. x.heap b) db ∙ gone b in
    (
      d,
      ap (λ x. and_then x (λ _. pcp_db_free_pcp_servers)) ran ∙ ran',
      record {
        servers = empty;
        flows = λ b i f e k. left b ∙ ground (arith, linked_listed c s own b i f e k);
        table = rw db s1.db;
        others = λ b f e. ground (arith, left b);
      },
    )
