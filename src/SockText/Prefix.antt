-- ===== src/SockText/Prefix.antt =====
-- Addresses with a prefix length, sock_pton_with_prefix of lib/src/net/sock_ntop.c.
use emulebb_libpcpnatpmp.Base.{
  ℕ, ◌≡◌, ◌↔◌, refl, ap, ◌∙◌, arith, true, List, [], ◌∷◌, ◌++◌, Option, none, some, ℤ, pos, ◌≤ℤ◌,
}
use emulebb_libpcpnatpmp.Interface.Address.{Sockaddr, inet}
use emulebb_libpcpnatpmp.SockText.{
  Text, open_bracket, close_bracket, slash, Resolver, cut_prefix, scan_port, prefix_length, skip_ws,
  split_brackets, resolve_prefixed, sock_pton_with_prefix, first_result,
}
use emulebb_libpcpnatpmp.SockText.Grammar.{Lacks, AllSpace, skip_ws-AllSpace, find_bracket-Lacks}

-- What stands in the brackets: an address without a slash, or one followed by a slash and a
-- prefix without another.
pub data SpellsPrefix : Text → Option Text → Text → Type 0 where
  no_prefix : (host : Text) → Lacks slash host → SpellsPrefix host none host
  prefixed :
      (host prefix : Text)
      → Lacks slash prefix
      → SpellsPrefix host (some prefix) (host ++ (slash ∷ prefix))

cut_prefix-Lacks : (cs : Text) → Lacks slash cs → cut_prefix cs ≡ (cs, none)
unfolding cut_prefix
cut_prefix-Lacks [] l = refl
cut_prefix-Lacks (c ∷ cs) l = ground (arith, cut_prefix-Lacks cs l.1)

cut_prefix-slash :
    (host prefix : Text)
    → Lacks slash prefix
    → cut_prefix (host ++ (slash ∷ prefix)) ≡ (host, some prefix)
unfolding cut_prefix
cut_prefix-slash [] prefix l = rw (cut_prefix-Lacks prefix l) refl
cut_prefix-slash (c ∷ host) prefix l = ground (arith, cut_prefix-slash host prefix l)

cut_prefix-SpellsPrefix :
    (host : Text) (prefix : Option Text) (t : Text)
    → SpellsPrefix host prefix t
    → cut_prefix t ≡ (host, prefix)
cut_prefix-SpellsPrefix _ _ _ (no_prefix host l) = cut_prefix-Lacks host l
cut_prefix-SpellsPrefix _ _ _ (prefixed host prefix l) = cut_prefix-slash host prefix l

module _ (g : Resolver) (atoi : Text → ℤ) (ws host inside rest : Text) (prefix : Option Text)
    (spaces : AllSpace ws) (k : SpellsPrefix host prefix inside)
    (closed : Lacks close_bracket inside) (sa : Sockaddr) (old : ℤ) where
  abbrev whole : Text
  whole = ws ++ (open_bracket ∷ inside ++ (close_bracket ∷ rest))

  brackets_split : split_brackets (skip_ws whole) ≡ some (inside, rest)
  unfolding skip_ws split_brackets
  brackets_split =
      ap split_brackets
        (skip_ws-AllSpace ws (open_bracket ∷ inside ++ (close_bracket ∷ rest)) spaces)
      ∙ find_bracket-Lacks inside rest closed

  resolved :
      sock_pton_with_prefix g atoi (some whole) sa old
      ≡ resolve_prefixed g host rest sa (prefix_length atoi prefix)
  unfolding sock_pton_with_prefix
  resolved =
      rw (sock_pton_with_prefix, brackets_split, cut_prefix-SpellsPrefix host prefix inside k) refl

  module _ (ip port : ℕ) (more : List Sockaddr)
      (found : g (some host) (scan_port true rest none).1 ≡ some (inet ip port ∷ more)) where
    -- An address in brackets, perhaps with a prefix, and after any spaces, whose host is
    -- resolved to an IPv4 address first, is that address with the prefix given, or with 128; and
    -- it is accepted exactly if the prefix is at most 32. So without a prefix it is refused.
    pub sock_pton_with_prefix-v4 :
        let r = sock_pton_with_prefix g atoi (some whole) sa old in
        (r.sa ≡ inet ip port)
        × (r.int_prefix ≡ prefix_length atoi prefix)
        × ((r.ret ≡ pos 0) ↔ (prefix_length atoi prefix ≤ℤ pos 32))
    unfolding resolve_prefixed first_result
    sock_pton_with_prefix-v4 = rw (resolved, resolve_prefixed, found) (refl, refl, ground arith)
