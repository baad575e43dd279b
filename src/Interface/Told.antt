-- ===== src/Interface/Told.antt =====
-- What pcp_flow_get_info of lib/src/pcp_api.c tells of a flow.
use emulebb_libpcpnatpmp.Base.{
  ℕ, ◌≡◌, ◌≢◌, ◌⊎◌, inl, inr, refl, sym, ap, arith, ◌||◌, ◌%◌, List, [], ◌∷◌, Option, none, some, ℤ,
  pos, ◌==◌, Bool-cases, if◌then◌else◌,
}
use mathlib.Core.Path.{subst}
use emulebb_libpcpnatpmp.Wire.{In6Addr, zero_in6}
use emulebb_libpcpnatpmp.Data.{
  Flow, FlowState, pfs_any, pfs_idle, pfs_wait_for_server_init, pfs_send, pfs_wait_resp,
  pfs_send_renew, pfs_failed, pfs_wait_after_short_life_error, pfs_wait_for_lifetime_renew, FState,
  pcp_state_processing, pcp_state_succeeded, pcp_state_short_lifetime_error, pcp_state_failed,
  opcode_map, opcode_peer,
}
use emulebb_libpcpnatpmp.ClientDb.Flows.{Heap}
use emulebb_libpcpnatpmp.ClientDb.Rekey.{Children, no_more, child}

-- pcp_flow_info_t
pub record FlowInfo : Type 0 where
  pub result : FState
  pub pcp_server_ip : In6Addr
  pub ext_ip : In6Addr
  pub ext_port : ℕ
  pub recv_lifetime_end : ℤ
  pub lifetime_renew_s : ℕ
  pub pcp_result_code : ℕ
  pub int_ip : In6Addr
  pub int_port : ℕ
  pub int_scope_id : ℕ
  pub dst_ip : In6Addr
  pub dst_port : ℕ
  pub protocol : ℕ

abbrev pub info_result : FlowState → FState
info_result pfs_wait_after_short_life_error = pcp_state_short_lifetime_error
info_result pfs_wait_for_lifetime_renew = pcp_state_succeeded
info_result pfs_failed = pcp_state_failed
info_result _ = pcp_state_processing

-- The fields that every flow has, in a record of zeros. The result code has 8 bits.
abbrev pub info_of_any : Flow → FlowInfo
info_of_any f = record {
  result = info_result f.state;
  pcp_server_ip = f.kd.pcp_server_ip;
  ext_ip = zero_in6;
  ext_port = 0;
  recv_lifetime_end = f.recv_lifetime;
  lifetime_renew_s = f.lifetime;
  pcp_result_code = f.recv_result % 256;
  int_ip = f.kd.src_ip;
  int_port = 0;
  int_scope_id = f.kd.scope_id;
  dst_ip = zero_in6;
  dst_port = 0;
  protocol = 0;
}

abbrev pub info_of : Flow → FlowInfo
info_of f =
    if f.kd.operation == opcode_map || f.kd.operation == opcode_peer
    then record (info_of_any f) {
      dst_ip = f.kd.dst_ip;
      ext_ip = f.ext_ip;
      int_port = f.kd.src_port;
      dst_port = f.kd.dst_port;
      ext_port = f.ext_port;
      protocol = f.kd.protocol;
    }
    else info_of_any f

abbrev pub zero_info : FlowInfo
zero_info = record {
  result = pcp_state_processing;
  pcp_server_ip = zero_in6;
  ext_ip = zero_in6;
  ext_port = 0;
  recv_lifetime_end = pos 0;
  lifetime_renew_s = 0;
  pcp_result_code = 0;
  int_ip = zero_in6;
  int_port = 0;
  int_scope_id = 0;
  dst_ip = zero_in6;
  dst_port = 0;
  protocol = 0;
}

-- What is told of the flows of a list.
abbrev pub told : Heap → List ℕ → List FlowInfo
told h [] = []
told h (a ∷ cs) = elim (h a) [ none ↦ told h cs | some f ↦ info_of f ∷ told h cs ]

pub told_step :
    (h : Heap) (a : ℕ) (f : Flow) (cs : List ℕ)
    → h a ≡ some f
    → told h (a ∷ cs) ≡ info_of f ∷ told h cs
told_step h a f cs e = ap (λ o. elim o [ none ↦ told h cs | some g ↦ info_of g ∷ told h cs ]) e

-- What the application is told of a state.
pub data IsResult : FlowState → FState → Type 0 where
  has_failed : IsResult pfs_failed pcp_state_failed
  has_mapping : IsResult pfs_wait_for_lifetime_renew pcp_state_succeeded
  has_error : IsResult pfs_wait_after_short_life_error pcp_state_short_lifetime_error
  goes_on :
      (s : FlowState)
      → s ≢ pfs_failed
      → s ≢ pfs_wait_for_lifetime_renew
      → s ≢ pfs_wait_after_short_life_error
      → IsResult s pcp_state_processing

-- What is told of every flow: the result code in the 8 bits of its field.
pub record TellsAny (f : Flow) (i : FlowInfo) : Type 0 where
  pub result : IsResult f.state i.result
  pub pcp_server_ip : i.pcp_server_ip ≡ f.kd.pcp_server_ip
  pub recv_lifetime_end : i.recv_lifetime_end ≡ f.recv_lifetime
  pub lifetime_renew_s : i.lifetime_renew_s ≡ f.lifetime
  pub pcp_result_code : i.pcp_result_code ≡ f.recv_result % 256
  pub int_ip : i.int_ip ≡ f.kd.src_ip
  pub int_scope_id : i.int_scope_id ≡ f.kd.scope_id

-- What is told of a mapping besides.
pub record TellsMapping (f : Flow) (i : FlowInfo) : Type 0 where
  pub int_port : i.int_port ≡ f.kd.src_port
  pub dst_ip : i.dst_ip ≡ f.kd.dst_ip
  pub dst_port : i.dst_port ≡ f.kd.dst_port
  pub ext_ip : i.ext_ip ≡ f.ext_ip
  pub ext_port : i.ext_port ≡ f.ext_port
  pub protocol : i.protocol ≡ f.kd.protocol

-- What stands in the same fields for another operation.
pub record TellsZeros (i : FlowInfo) : Type 0 where
  pub int_port : i.int_port ≡ 0
  pub dst_ip : i.dst_ip ≡ zero_in6
  pub dst_port : i.dst_port ≡ 0
  pub ext_ip : i.ext_ip ≡ zero_in6
  pub ext_port : i.ext_port ≡ 0
  pub protocol : i.protocol ≡ 0

abbrev pub MapsOrPeers : Flow → Type 0
MapsOrPeers f = (f.kd.operation ≡ opcode_map) ⊎ (f.kd.operation ≡ opcode_peer)

pub data Tells : Flow → FlowInfo → Type 0 where
  tells_mapping :
      (f : Flow) (i : FlowInfo) → MapsOrPeers f → TellsAny f i → TellsMapping f i → Tells f i
  tells_other :
      (f : Flow) (i : FlowInfo) → ¬ MapsOrPeers f → TellsAny f i → TellsZeros i → Tells f i

-- The entries tell of the flows of a list, in their order.
pub data AllTold (h : Heap) : List ℕ → List FlowInfo → Type 0 where
  no_entry : AllTold h [] []
  entry :
      {a : ℕ} {f : Flow} {i : FlowInfo} {cs : List ℕ} {is : List FlowInfo}
      → h a ≡ some f
      → Tells f i
      → AllTold h cs is
      → AllTold h (a ∷ cs) (i ∷ is)

info_result-IsResult : (s : FlowState) → IsResult s (info_result s)
info_result-IsResult pfs_failed = has_failed
info_result-IsResult pfs_wait_for_lifetime_renew = has_mapping
info_result-IsResult pfs_wait_after_short_life_error = has_error
info_result-IsResult pfs_any = goes_on pfs_any (λ e. cc) (λ e. cc) (λ e. cc)
info_result-IsResult pfs_idle = goes_on pfs_idle (λ e. cc) (λ e. cc) (λ e. cc)
info_result-IsResult pfs_wait_for_server_init =
    goes_on pfs_wait_for_server_init (λ e. cc) (λ e. cc) (λ e. cc)
info_result-IsResult pfs_send = goes_on pfs_send (λ e. cc) (λ e. cc) (λ e. cc)
info_result-IsResult pfs_wait_resp = goes_on pfs_wait_resp (λ e. cc) (λ e. cc) (λ e. cc)
info_result-IsResult pfs_send_renew = goes_on pfs_send_renew (λ e. cc) (λ e. cc) (λ e. cc)

info_of_any-TellsAny : (f : Flow) → TellsAny f (info_of_any f)
info_of_any-TellsAny f = record {
  result = info_result-IsResult f.state;
  pcp_server_ip = refl;
  recv_lifetime_end = refl;
  lifetime_renew_s = refl;
  pcp_result_code = refl;
  int_ip = refl;
  int_scope_id = refl;
}

info_of-Tells : (f : Flow) → Tells f (info_of f)
info_of-Tells f =
    let any = info_of_any-TellsAny f in
    elim (Bool-cases (f.kd.operation == opcode_map || f.kd.operation == opcode_peer)) [
      | inl p ↦ rw p (
          tells_mapping f _ (ground arith)
            (record {
              result = any.result;
              pcp_server_ip = refl;
              recv_lifetime_end = refl;
              lifetime_renew_s = refl;
              pcp_result_code = refl;
              int_ip = refl;
              int_scope_id = refl;
            })
            (record {
              int_port = refl;
              dst_ip = refl;
              dst_port = refl;
              ext_ip = refl;
              ext_port = refl;
              protocol = refl;
            }))
      | inr p ↦ rw p (
          tells_other f (info_of_any f) (λ m. ground arith) any
            (record {
              int_port = refl;
              dst_ip = refl;
              dst_port = refl;
              ext_ip = refl;
              ext_port = refl;
              protocol = refl;
            }))
    ]

pub told-AllTold :
    (h : Heap) (o : Option ℕ) (cs : List ℕ) → Children h o cs → AllTold h cs (told h cs)
told-AllTold h _ _ no_more = no_entry
told-AllTold h _ (a ∷ cs) (child {f} e c) =
    subst (λ is. AllTold h (a ∷ cs) is) (sym (told_step h a f cs e))
      (entry e (info_of-Tells f) (told-AllTold h f.next_child cs c))
