-- ===== src/System/Sound.antt =====
-- What every action on the context keeps, and the rules to prove that an action does.
use emulebb_libpcpnatpmp.Base.{
  ℕ, ◌<◌, ◌≡◌, ◌≢◌, refl, ◌∙◌, ap, Bool, true, false, some, get_elem?, if◌then◌else◌,
}
use emulebb_libpcpnatpmp.Data.{Flow, Server, pfs_any}
use emulebb_libpcpnatpmp.ClientDb.Invariant.{IsWellFormed}
use emulebb_libpcpnatpmp.System.{Sys, Action, pure, ◌>>=◌, and_then}

-- A pointer to a flow leads to one.
abbrev pub IsLive : Sys → ℕ → Type 0
IsLive c a = (f : Flow) × (c.db.heap a ≡ some f)

abbrev pub HasServer : Sys → ℕ → Type 0
HasServer c i = (s : Server) × (get_elem? c.servers i ≡ some s)

-- The flow table is well-formed, no flow is in the wildcard state, and a server's ping message is a
-- flow that is there.
pub record IsSound (c : Sys) : Type 0 where
  pub db : IsWellFormed c.db
  pub real : (a : ℕ) (f : Flow) → c.db.heap a ≡ some f → f.state ≢ pfs_any
  pub ping :
      (i a : ℕ) (s : Server)
      → get_elem? c.servers i ≡ some s
      → s.ping_flow_msg ≡ some a
      → IsLive c a

-- A sound state in which next_child leads from a flow to one that is there and was made later.
pub record IsSafe (c : Sys) : Type 0 where
  pub db : IsWellFormed c.db
  pub real : (a : ℕ) (f : Flow) → c.db.heap a ≡ some f → f.state ≢ pfs_any
  pub ping :
      (i a : ℕ) (s : Server)
      → get_elem? c.servers i ≡ some s
      → s.ping_flow_msg ≡ some a
      → IsLive c a
  pub child :
      (a b : ℕ) (f : Flow) → c.db.heap a ≡ some f → f.next_child ≡ some b → (a < b) × IsLive c b

pub IsSafe-IsSound : (c : Sys) → IsSafe c → IsSound c
IsSafe-IsSound c s = record { db = s.db; real = s.real; ping = s.ping }

-- No flow is lost, and no record of the array of servers.
pub record Extends (c d : Sys) : Type 0 where
  pub flows : (a : ℕ) → IsLive c a → IsLive d a
  pub servers : (i : ℕ) → HasServer c i → HasServer d i

pub Extends-refl : (c : Sys) → Extends c c
Extends-refl c = record { flows = λ a l. l; servers = λ i s. s }

pub Extends-trans : {c d e : Sys} → Extends c d → Extends d e → Extends c e
Extends-trans p q = record {
  flows = λ a l. q.flows a (p.flows a l);
  servers = λ i s. q.servers i (p.servers i s);
}

module _ {A : Type 0} where
  -- The action comes to an end without following a pointer to nothing, in a safe state that extends
  -- the one before, and its result is as told.
  pub record Runs (m : Action A) (Q : A → Sys → Type 0) (c : Sys) : Type 0 where
    pub value : A
    pub after : Sys
    pub ran : m c ≡ some (value, after)
    pub safe : IsSafe after
    pub extends : Extends c after
    pub post : Q value after

  abbrev pub Always : A → Sys → Type 0
  Always a c = Unit {0}

module _ {A : Type 0} where
  pub Runs-pure : (Q : A → Sys → Type 0) (a : A) (c : Sys) → IsSafe c → Q a c → Runs (pure a) Q c
  Runs-pure Q a c s q = record {
    value = a;
    after = c;
    ran = refl;
    safe = s;
    extends = Extends-refl c;
    post = q;
  }

  pub Runs-if :
      (b : Bool) (m n : Action A) (Q : A → Sys → Type 0) (c : Sys)
      → (b ≡ true → Runs m Q c)
      → (b ≡ false → Runs n Q c)
      → Runs (if b then m else n) Q c
  Runs-if true m n Q c p q = p refl
  Runs-if false m n Q c p q = q refl

  pub Runs-weaken :
      (m : Action A) (P Q : A → Sys → Type 0) (c : Sys)
      → Runs m P c
      → ((a : A) (d : Sys) → P a d → Q a d)
      → Runs m Q c
  Runs-weaken m P Q c r h = record {
    value = r.value;
    after = r.after;
    ran = r.ran;
    safe = r.safe;
    extends = r.extends;
    post = h r.value r.after r.post;
  }

module _ {A B : Type 0} where
  pub Runs-bind :
      (m : Action A) (k : A → Action B) (P : A → Sys → Type 0) (Q : B → Sys → Type 0) (c : Sys)
      → Runs m P c
      → ((a : A) (d : Sys) → IsSafe d → Extends c d → P a d → Runs (k a) Q d)
      → Runs (m >>= k) Q c
  unfolding ◌>>=◌
  Runs-bind m k P Q c r h =
      let t = h r.value r.after r.safe r.extends r.post in
      record {
        value = t.value;
        after = t.after;
        ran = ap (λ x. and_then x k) r.ran ∙ t.ran;
        safe = t.safe;
        extends = Extends-trans r.extends t.extends;
        post = t.post;
      }

  -- The same, with what can be read off left out.
  pub then_do :
      {m : Action A} {k : A → Action B} {P : A → Sys → Type 0} {Q : B → Sys → Type 0} {c : Sys}
      → Runs m P c
      → ((a : A) (d : Sys) → IsSafe d → Extends c d → P a d → Runs (k a) Q d)
      → Runs (m >>= k) Q c
  then_do {m} {k} {P} {Q} {c} r h = Runs-bind m k P Q c r h
