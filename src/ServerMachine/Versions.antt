-- ===== src/ServerMachine/Versions.antt =====
-- Version negotiation: what handle_wait_io_receive_msg and handle_version_negotiation of
-- lib/src/pcp_event_handler.c do to the version of a server that refuses it.
use emulebb_libpcpnatpmp.Base.{
  ℕ, suc, zero, ◌+◌, ◌%◌, ◌<◌, ◌≤◌, ◌≡◌, inl, inr, refl, arith, List, [], ◌∷◌, Option, none, some,
  Option-cases, ◌==◌, length, if◌then◌else◌,
}
use emulebb_libpcpnatpmp.Data.{Server}

-- A response PCP_RES_UNSUPP_VERSION: its version is tried next.
unfoldable pub unsupp_version : ℕ → Server → Server
unsupp_version recv_version s = record s { next_version = recv_version }

-- A version that is refused as it stands is lowered. next_version is a uint8_t.
abbrev pub lower_version : Server → Server
lower_version s = record s {
  next_version =
      if s.next_version == s.pcp_version then (s.next_version + 255) % 256 else s.next_version;
}

-- The version part of handle_version_negotiation, with PCP_MIN_SUPPORTED_VERSION 0; none where it
-- gives the server up.
unfoldable pub negotiate : Server → Option Server
negotiate s =
    let t = lower_version s in
    if s.pcp_version == 0 then none else some (record t { pcp_version = t.next_version })

-- A server that refuses again and again, with the versions that it names.
unfoldable pub refusals : List ℕ → Server → Option Server
refusals [] s = some s
refusals (v ∷ vs) s = elim (negotiate (unsupp_version v s)) [ none ↦ none | some t ↦ refusals vs t ]

-- No version that the server names lies above the one that it refuses, and all are bytes.
abbrev pub NotAbove : List ℕ → Server → Type 0
NotAbove [] s = Unit {0}
NotAbove (v ∷ vs) s =
    (v ≤ s.pcp_version) × ((t : Server) → negotiate (unsupp_version v s) ≡ some t → NotAbove vs t)

negotiate_falls :
    (v : ℕ) (s t : Server)
    → v ≤ s.pcp_version
    → s.pcp_version < 256
    → negotiate (unsupp_version v s) ≡ some t
    → t.pcp_version < s.pcp_version
unfolding negotiate unsupp_version
negotiate_falls v s t h k e = ground arith

negotiate_zero : (v : ℕ) (s : Server) → s.pcp_version ≡ 0 → negotiate (unsupp_version v s) ≡ none
unfolding negotiate unsupp_version
negotiate_zero v s z = ground arith

-- A server whose version is a byte, and that names no version above the refused one, is given
-- up after at most one refusal more than its version number: the negotiation ends.
pub refusals_end :
    (vs : List ℕ) (s : Server)
    → s.pcp_version < 256
    → s.pcp_version < length vs
    → NotAbove vs s
    → refusals vs s ≡ none
unfolding refusals
refusals_end [] s b l n = absurd (omega arith)
refusals_end (v ∷ vs) s b l (h, n) = elim (Option-cases (negotiate (unsupp_version v s))) [
  | inl e ↦ rw (e, refusals) refl
  | inr (t, e) ↦
      let lt = negotiate_falls v s t h b e in
      rw (e, refusals) (refusals_end vs t (omega arith) (omega arith) (n t e))
]

-- A server that is asked with version 1 and names 2, and then the other way round.
abbrev pub alternating : ℕ → List ℕ
alternating zero = []
alternating (suc n) = 2 ∷ 1 ∷ alternating n

-- A server that refuses version 1 with version 2 and version 2 with version 1 is never given up: the
-- negotiation goes on with version 1 after every two refusals.
pub refusals_alternate :
    (n : ℕ) (s : Server)
    → s.pcp_version ≡ 1
    → (t : Server) × (refusals (alternating n) s ≡ some t) × (t.pcp_version ≡ 1)
unfolding refusals negotiate unsupp_version
refusals_alternate zero s e = (s, refl, e)
refusals_alternate (suc n) s e =
    let s' : Server = record s { next_version = 1; pcp_version = 1 } in
    let (t, run, v) = refusals_alternate n s' refl in (t, rw e run, v)
