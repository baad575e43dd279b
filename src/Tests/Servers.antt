-- ===== src/Tests/Servers.antt =====
-- The theorems on the server machine and on changes of a flow, at concrete values.
use emulebb_libpcpnatpmp.Base.{◌≡◌, refl, arith, false, none, some, [], ◌∷◌}
use emulebb_libpcpnatpmp.Data.{Flow, Server, pfs_wait_for_lifetime_renew}
use emulebb_libpcpnatpmp.ServerMachine.Versions.{
  refusals, alternating, NotAbove, negotiate, unsupp_version, refusals_end, refusals_alternate,
}
use emulebb_libpcpnatpmp.Tests.{map_flow, pcp_server}

-- Version 2 is refused with 1, version 1 with 1 and version 0 with 0.
three_NotAbove : NotAbove (1 ∷ 1 ∷ 0 ∷ []) pcp_server
unfolding negotiate unsupp_version
three_NotAbove = (omega arith, λ t e. (ground arith, λ t' e'. (omega arith, λ t'' e''. tt)))

refusals_end_example : refusals (1 ∷ 1 ∷ 0 ∷ []) pcp_server ≡ none
refusals_end_example =
    refusals_end (1 ∷ 1 ∷ 0 ∷ []) pcp_server (omega arith) (omega arith) three_NotAbove

abbrev version_1_server : Server
version_1_server = record pcp_server { pcp_version = 1 }

refusals_alternate_example :
    (t : Server) × (refusals (alternating 5) version_1_server ≡ some t) × (t.pcp_version ≡ 1)
refusals_alternate_example = refusals_alternate 5 version_1_server refl

abbrev mapped_flow : Flow
mapped_flow = record map_flow {
  state = pfs_wait_for_lifetime_renew;
  pfailure_option_present = false;
}
