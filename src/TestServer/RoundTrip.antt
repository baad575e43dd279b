-- ===== src/TestServer/RoundTrip.antt =====
-- A MAP request of lib/src/pcp_msg.c goes to the server of test-server/pcp-server.c, and its
-- response comes back to parse_response.
use emulebb_libpcpnatpmp.Base.{ℕ, ◌+◌, ◌≤◌, ◌≡◌, refl, sym, ◌∙◌, inl, inr, arith}
use emulebb_libpcpnatpmp.Wire.{Buffer, zero_buffer}
use emulebb_libpcpnatpmp.Wire.Laws.{Agree}
use emulebb_libpcpnatpmp.Data.{Flow, Server, opcode_map}
use emulebb_libpcpnatpmp.Msg.Build.{add_options}
use emulebb_libpcpnatpmp.Msg.Lengths.{
  fixed_part, fixed_len, options_len, IsPcpRequest, fixed_part-len, add_options-Appends,
}
use emulebb_libpcpnatpmp.Msg.Options.{HoldsOptions, add_options-HoldsOptions}
use emulebb_libpcpnatpmp.Msg.RoundTrip.{fixed_part-version, fixed_part-opcode}
use emulebb_libpcpnatpmp.FlowMachine.Table.{res_success}
use emulebb_libpcpnatpmp.TestServer.{reset_option_occur}
use emulebb_libpcpnatpmp.TestServer.Analysis.{
  print_pcp_req, analyze_version_1, analyze_version_2, analyze_opcode, analyze_options, walk_at,
}
use emulebb_libpcpnatpmp.TestServer.Accepts.{analyze_options-HoldsOptions}

-- The buffer holds the request of a flow, from its first byte to its last.
abbrev pub HoldsRequest : Server → Flow → Buffer → Type 0
HoldsRequest s f m =
    Agree 0 (fixed_len s f + options_len f) m (add_options f (fixed_part s f zero_buffer)).0

module _ {f : Flow} {p hi : ℕ} {m m' : Buffer} (a : Agree 0 hi m m')
    (short : p + options_len f ≤ hi) (h : HoldsOptions f p m') where
  HoldsOptions-Agree : HoldsOptions f p m
  HoldsOptions-Agree = record {
    filter = λ e. a p (omega arith) (ground arith) ∙ h.filter e;
    prefer_failure = λ e. a _ (omega arith) (ground arith) ∙ h.prefer_failure e;
    third_party = λ e. a _ (omega arith) (ground arith) ∙ h.third_party e;
  }

module _ (s : Server) (f : Flow) (k : IsPcpRequest s f) (map : f.kd.operation ≡ opcode_map)
    (m : Buffer) (held : HoldsRequest s f m) where
  options_held : HoldsOptions f (fixed_len s f) m
  options_held =
      HoldsOptions-Agree held (omega arith)
        (rw (sym (fixed_part-len s f k zero_buffer)) (add_options-HoldsOptions f _))

  pub before_options : Agree 0 (fixed_len s f) m (fixed_part s f zero_buffer).0
  before_options i lo hi =
      held i lo (omega arith)
      ∙ (add_options-Appends f (fixed_part s f zero_buffer)).below i
          (omega (arith, fixed_part-len s f k zero_buffer))

  pub version_held : m 0 ≡ s.pcp_version
  version_held = before_options 0 (omega arith) (omega arith) ∙ fixed_part-version s f k

  pub opcode_held : m 1 ≡ 1
  opcode_held = before_options 1 (omega arith) (omega arith) ∙ fixed_part-opcode s f k ∙ map

  -- A MAP structure of `n` bytes.
  structure_accepted :
      (n : ℕ)
      → fixed_len s f ≡ 24 + n
      → (analyze_opcode m reset_option_occur (fixed_len s f + options_len f) n n).0 ≡ res_success
  unfolding analyze_opcode
  structure_accepted n e =
      let w = walk_at reset_option_occur (fixed_len s f + options_len f) n n in
      let ok : (analyze_options m w).0 ≡ res_success =
        analyze_options-HoldsOptions f m w (omega (arith, opcode_held)) refl (omega arith)
          (rw (sym e) options_held) in
      ground (arith, ok)

  -- The request is accepted by a server of its version or a later one.
  pub print_pcp_req-HoldsRequest :
      (version : ℕ)
      → s.pcp_version ≤ version
      → (print_pcp_req m (fixed_len s f + options_len f) reset_option_occur version).0 ≡ res_success
  unfolding print_pcp_req analyze_version_1 analyze_version_2
  print_pcp_req-HoldsRequest version le = elim k.version [
    | inl v ↦ ground (arith, structure_accepted 24, version_held, opcode_held)
    | inr v ↦ ground (arith, structure_accepted 36, version_held, opcode_held)
  ]
