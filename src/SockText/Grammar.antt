-- ===== src/SockText/Grammar.antt =====
-- The spellings of a host and a port that sock_pton of lib/src/net/sock_ntop.c takes apart.
use emulebb_libpcpnatpmp.Base.{
  ℕ, ◌-◌, ◌≡◌, ◌≢◌, refl, ap, ◌∙◌, arith, Bool, true, false, [], ◌∷◌, ◌++◌, Option, none, some,
  length, length-append, ◌==◌,
}
use emulebb_libpcpnatpmp.SockText.{
  Text, colon, open_bracket, close_bracket, is_space, skip_ws, take, find_bracket, scan_port,
  host_before, split_host_port,
}

-- The character does not occur in the text.
abbrev pub Lacks : ℕ → Text → Type 0
Lacks x [] = Unit {0}
Lacks x (c ∷ cs) = (c ≢ x) × Lacks x cs

-- The text begins with none of a space and a bracket.
abbrev pub BeginsHost : Text → Type 0
BeginsHost [] = Unit {0}
BeginsHost (c ∷ cs) = (is_space c ≡ false) × (c ≢ open_bracket)

pub data Spells : Option Text → Option Text → Text → Type 0 where
  bare : (host : Text) → BeginsHost host → Lacks colon host → Spells (some host) none host
  with_port :
      (c : ℕ) (host port : Text)
      → BeginsHost (c ∷ host)
      → Lacks colon (c ∷ host)
      → Lacks colon port
      → Spells (some (c ∷ host)) (some port) (c ∷ host ++ (colon ∷ port))
  only_port : (port : Text) → Lacks colon port → Spells none (some port) (colon ∷ port)
  two_colons :
      (before between after : Text)
      → BeginsHost (before ++ (colon ∷ between ++ (colon ∷ after)))
      → Spells
          (some (before ++ (colon ∷ between ++ (colon ∷ after))))
          none
          (before ++ (colon ∷ between ++ (colon ∷ after)))
  bracketed :
      (host : Text)
      → Lacks close_bracket host
      → Spells (some host) none (open_bracket ∷ host ++ (close_bracket ∷ []))
  bracketed_port :
      (host port : Text)
      → Lacks close_bracket host
      → Spells (some host) (some port) (open_bracket ∷ host ++ (close_bracket ∷ colon ∷ port))

take_all : (xs ys : Text) → take (length xs) (xs ++ ys) ≡ xs
unfolding take
take_all [] ys = ground arith
take_all (x ∷ xs) ys = ground (arith, take_all xs ys)

scan_port-Lacks :
    (known : Bool) (xs : Text)
    → Lacks colon xs
    → (port : Option Text) → scan_port known xs port ≡ (false, port)
unfolding scan_port
scan_port-Lacks known [] l port = refl
scan_port-Lacks known (x ∷ xs) l none = ground (arith, scan_port-Lacks known xs l.1 none)
scan_port-Lacks known (x ∷ xs) l (some p) = ground (arith, scan_port-Lacks known xs l.1 (some p))

scan_port-found :
    (known : Bool) (xs port : Text)
    → Lacks colon xs
    → scan_port known (xs ++ (colon ∷ port)) none ≡ scan_port known port (some port)
unfolding scan_port
scan_port-found known [] port l = refl
scan_port-found known (x ∷ xs) port l = ground (arith, scan_port-found known xs port l.1)

-- A second colon in a text without brackets.
scan_port-again : (xs ys p : Text) → scan_port false (xs ++ (colon ∷ ys)) (some p) ≡ (true, none)
unfolding scan_port
scan_port-again [] ys p = refl
scan_port-again (x ∷ xs) ys p = ground (arith, scan_port-again xs ys p)

scan_port-two :
    (xs ys zs : Text) → scan_port false (xs ++ (colon ∷ ys ++ (colon ∷ zs))) none ≡ (true, none)
unfolding scan_port
scan_port-two [] ys zs = scan_port-again ys zs (ys ++ (colon ∷ zs))
scan_port-two (x ∷ xs) ys zs = ground (
  arith,
  scan_port-two xs ys zs,
  scan_port-again xs (ys ++ (colon ∷ zs)) (xs ++ (colon ∷ ys ++ (colon ∷ zs))),
)

-- After brackets the first colon counts.
scan_port-known : (xs p : Text) → scan_port true xs (some p) ≡ (false, some p)
unfolding scan_port
scan_port-known [] p = refl
scan_port-known (x ∷ xs) p = ground (arith, scan_port-known xs p)

pub find_bracket-Lacks :
    (xs ys : Text)
    → Lacks close_bracket xs
    → find_bracket (xs ++ (close_bracket ∷ ys)) ≡ some (xs, ys)
unfolding find_bracket
find_bracket-Lacks [] ys l = refl
find_bracket-Lacks (x ∷ xs) ys l = ground (arith, find_bracket-Lacks xs ys l.1)

abbrev pub AllSpace : Text → Type 0
AllSpace [] = Unit {0}
AllSpace (c ∷ cs) = (is_space c ≡ true) × AllSpace cs

pub skip_ws-AllSpace : (ws t : Text) → AllSpace ws → skip_ws (ws ++ t) ≡ skip_ws t
unfolding skip_ws
skip_ws-AllSpace [] t a = refl
skip_ws-AllSpace (c ∷ ws) t a = rw a.0 (skip_ws-AllSpace ws t a.1)

skip_ws-BeginsHost : (t : Text) → BeginsHost t → skip_ws t ≡ t
unfolding skip_ws
skip_ws-BeginsHost [] h = refl
skip_ws-BeginsHost (c ∷ t) h = rw h.0 refl

skip_ws-Spells : (h p : Option Text) (t : Text) → Spells h p t → skip_ws t ≡ t
unfolding skip_ws
skip_ws-Spells _ _ _ (bare host b l) = skip_ws-BeginsHost host b
skip_ws-Spells _ _ _ (with_port c host port b l k) =
    skip_ws-BeginsHost (c ∷ host ++ (colon ∷ port)) b
skip_ws-Spells _ _ _ (only_port port l) = refl
skip_ws-Spells _ _ _ (two_colons x y z b) = skip_ws-BeginsHost _ b
skip_ws-Spells _ _ _ (bracketed host l) = refl
skip_ws-Spells _ _ _ (bracketed_port host port l) = refl

abbrev spelled : Text → Bool × Option Text → Option (Option Text × Option Text)
spelled t r = some (host_before t r, r.1)

-- Without a bracket in front, the text is split as the scan says.
split-scanned :
    (t : Text) (r : Bool × Option Text)
    → BeginsHost t
    → scan_port false t none ≡ r
    → split_host_port t ≡ spelled t r
unfolding split_host_port scan_port
split-scanned [] r b e = ap (spelled []) e
split-scanned (c ∷ cs) r b e =
    let no_bracket : (c == open_bracket) ≡ false = ground (arith, b.1) in
    rw no_bracket (ap (spelled (c ∷ cs)) e)

-- The host before the port's colon.
host_before-colon :
    (c : ℕ) (host port : Text)
    → host_before (c ∷ host ++ (colon ∷ port)) (false, some port) ≡ some (c ∷ host)
unfolding take
host_before-colon c host port =
    let long : length (c ∷ host ++ (colon ∷ port)) - length port - 1 ≡ length (c ∷ host) =
      omega (arith, length-append host (colon ∷ port)) in
    rw long (ground (arith, take_all (c ∷ host) (colon ∷ port)))

split-bracket :
    (host rest : Text)
    → Lacks close_bracket host
    → split_host_port (open_bracket ∷ host ++ (close_bracket ∷ rest))
      ≡ some (some host, (scan_port true rest none).1)
unfolding split_host_port
split-bracket host rest l = rw (find_bracket-Lacks host rest l) refl

no_host : (port : Text) → host_before (colon ∷ port) (false, some port) ≡ none
no_host port =
    let none_left : length (colon ∷ port) - length port - 1 ≡ 0 = omega arith in rw none_left refl

split-Spells : (h p : Option Text) (t : Text) → Spells h p t → split_host_port t ≡ some (h, p)
unfolding scan_port
split-Spells _ _ _ (bare host b l) =
    split-scanned host (false, none) b (scan_port-Lacks false host l none)
split-Spells _ _ _ (with_port c host port b l k) =
    split-scanned (c ∷ host ++ (colon ∷ port)) (false, some port) b
      (scan_port-found false (c ∷ host) port l ∙ scan_port-Lacks false port k (some port))
    ∙ ap (λ h. some (h, some port)) (host_before-colon c host port)
split-Spells _ _ _ (only_port port l) =
    split-scanned (colon ∷ port) (false, some port) (refl, λ e. omega arith)
      (scan_port-found false [] port tt ∙ scan_port-Lacks false port l (some port))
    ∙ ap (λ h. some (h, some port)) (no_host port)
split-Spells _ _ _ (two_colons x y z b) =
    split-scanned (x ++ (colon ∷ y ++ (colon ∷ z))) (true, none) b (scan_port-two x y z)
split-Spells _ _ _ (bracketed host l) = split-bracket host [] l
split-Spells _ _ _ (bracketed_port host port l) =
    split-bracket host (colon ∷ port) l
    ∙ ap (λ r. some (some host, r.1)) (scan_port-known port port)

-- Every spelling of a host and a port, or of one of them, with any spaces before it, is split into
-- them: a host without colons, with a port or alone; a port alone; an address with two colons or
-- more; and an address in brackets, with a port or alone.
pub split_host_port-Spells :
    (ws : Text) (h p : Option Text) (t : Text)
    → AllSpace ws
    → Spells h p t
    → split_host_port (skip_ws (ws ++ t)) ≡ some (h, p)
split_host_port-Spells ws h p t a k =
    ap split_host_port (skip_ws-AllSpace ws t a ∙ skip_ws-Spells h p t k) ∙ split-Spells h p t k
