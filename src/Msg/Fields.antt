-- ===== src/Msg/Fields.antt =====
-- The fields of MAP and PEER structures in a buffer of lib/src/pcp_msg.c, as they are written and read.
use emulebb_libpcpnatpmp.Base.{ℕ, ◌+◌, ◌≤◌, ◌≡◌, ◌∙◌, arith}
use emulebb_libpcpnatpmp.Wire.{
  Buffer, In6Addr, Nonce, zero_buffer, peek16, peek_in6, peek_nonce, in6_bytes, nonce_bytes, poke,
}
use emulebb_libpcpnatpmp.Wire.Laws.{
  IsByte, IsWord16, IsWord32, IsIn6Addr, IsNonce, join16, join32, Agree, peek16-Agree,
  peek_in6-Agree,
}
use emulebb_libpcpnatpmp.Data.{Flow, FlowKeyData}
use emulebb_libpcpnatpmp.Msg.Build.{put_map_v1, put_peer_v1}

-- The numbers of a key and of a flow fit their C types.
pub record IsKey (kd : FlowKeyData) : Type 0 where
  pub protocol : IsByte kd.protocol
  pub src_port : IsWord16 kd.src_port
  pub dst_port : IsWord16 kd.dst_port
  pub nonce : IsNonce kd.nonce
  pub src_ip : IsIn6Addr kd.src_ip
  pub dst_ip : IsIn6Addr kd.dst_ip

pub record IsFlow (f : Flow) : Type 0 where
  pub key : IsKey f.kd
  pub lifetime : IsWord32 f.lifetime
  pub ext_ip : IsIn6Addr f.ext_ip
  pub ext_port : IsWord16 f.ext_port

-- The buffer holds the flow's MAP fields at `loc`; a PEER structure continues with its own.
pub record HoldsMap (f : Flow) (loc : ℕ) (m : Buffer) : Type 0 where
  pub protocol : m loc ≡ f.kd.protocol
  pub src_port : peek16 m (loc + 4) ≡ f.kd.src_port
  pub ext_port : peek16 m (loc + 6) ≡ f.ext_port
  pub ext_ip : peek_in6 m (loc + 8) ≡ f.ext_ip

pub record HoldsPeer (f : Flow) (loc : ℕ) (m : Buffer) : Type 0 where
  pub map : HoldsMap f loc m
  pub dst_port : peek16 m (loc + 24) ≡ f.kd.dst_port
  pub dst_ip : peek_in6 m (loc + 28) ≡ f.kd.dst_ip

pub in6_joined : (a : In6Addr) → IsIn6Addr a → peek_in6 (poke 0 (in6_bytes a) zero_buffer) 0 ≡ a
in6_joined a h = λ i. record {
  w0 = join32 a.w0 h.word0 i;
  w1 = join32 a.w1 h.word1 i;
  w2 = join32 a.w2 h.word2 i;
  w3 = join32 a.w3 h.word3 i;
}

pub nonce_joined : (a : Nonce) → IsNonce a → peek_nonce (poke 24 (nonce_bytes a) zero_buffer) 24 ≡ a
nonce_joined a h = λ i. record {
  n0 = join32 a.n0 h.word0 i;
  n1 = join32 a.n1 h.word1 i;
  n2 = join32 a.n2 h.word2 i;
}

module _ (f : Flow) (h : IsFlow f) (m : Buffer) where
  pub put_map_v1-HoldsMap : HoldsMap f 24 (put_map_v1 f 24 m)
  unfolding put_map_v1
  put_map_v1-HoldsMap = record {
    protocol = omega arith;
    src_port = join16 _ h.key.src_port;
    ext_port = join16 _ h.ext_port;
    ext_ip = in6_joined f.ext_ip h.ext_ip;
  }

  pub put_map_v2-HoldsMap : HoldsMap f 36 (put_map_v1 f 36 m)
  unfolding put_map_v1
  put_map_v2-HoldsMap = record {
    protocol = omega arith;
    src_port = join16 _ h.key.src_port;
    ext_port = join16 _ h.ext_port;
    ext_ip = in6_joined f.ext_ip h.ext_ip;
  }

  pub put_peer_v1-HoldsPeer : HoldsPeer f 24 (put_peer_v1 f 24 m)
  unfolding put_peer_v1 put_map_v1
  put_peer_v1-HoldsPeer = record {
    map = record {
      protocol = omega arith;
      src_port = join16 _ h.key.src_port;
      ext_port = join16 _ h.ext_port;
      ext_ip = in6_joined f.ext_ip h.ext_ip;
    };
    dst_port = join16 _ h.key.dst_port;
    dst_ip = in6_joined f.kd.dst_ip h.key.dst_ip;
  }

  pub put_peer_v2-HoldsPeer : HoldsPeer f 36 (put_peer_v1 f 36 m)
  unfolding put_peer_v1 put_map_v1
  put_peer_v2-HoldsPeer = record {
    map = record {
      protocol = omega arith;
      src_port = join16 _ h.key.src_port;
      ext_port = join16 _ h.ext_port;
      ext_ip = in6_joined f.ext_ip h.ext_ip;
    };
    dst_port = join16 _ h.key.dst_port;
    dst_ip = in6_joined f.kd.dst_ip h.key.dst_ip;
  }

pub HoldsMap-Agree :
    {f : Flow} {loc hi : ℕ} {m m' : Buffer}
    → Agree 24 hi m m'
    → 24 ≤ loc
    → loc + 24 ≤ hi
    → HoldsMap f loc m'
    → HoldsMap f loc m
HoldsMap-Agree {loc} a lo hi h = record {
  protocol = a loc lo (omega arith) ∙ h.protocol;
  src_port = peek16-Agree a (loc + 4) (omega arith) (omega arith) ∙ h.src_port;
  ext_port = peek16-Agree a (loc + 6) (omega arith) (omega arith) ∙ h.ext_port;
  ext_ip = peek_in6-Agree a (loc + 8) (omega arith) (omega arith) ∙ h.ext_ip;
}

pub HoldsPeer-Agree :
    {f : Flow} {loc hi : ℕ} {m m' : Buffer}
    → Agree 24 hi m m'
    → 24 ≤ loc
    → loc + 44 ≤ hi
    → HoldsPeer f loc m'
    → HoldsPeer f loc m
HoldsPeer-Agree {loc} a lo hi h = record {
  map = HoldsMap-Agree a lo (omega arith) h.map;
  dst_port = peek16-Agree a (loc + 24) (omega arith) (omega arith) ∙ h.dst_port;
  dst_ip = peek_in6-Agree a (loc + 28) (omega arith) (omega arith) ∙ h.dst_ip;
}

-- The nonce stands before the structure that follows it.
pub under_nonce-HoldsMap :
    (f : Flow) (m : Buffer) → HoldsMap f 36 m → HoldsMap f 36 (poke 24 (nonce_bytes f.kd.nonce) m)
under_nonce-HoldsMap f m h = record {
  protocol = h.protocol;
  src_port = h.src_port;
  ext_port = h.ext_port;
  ext_ip = h.ext_ip;
}

pub under_nonce-HoldsPeer :
    (f : Flow) (m : Buffer) → HoldsPeer f 36 m → HoldsPeer f 36 (poke 24 (nonce_bytes f.kd.nonce) m)
under_nonce-HoldsPeer f m h = record {
  map = under_nonce-HoldsMap f m h.map;
  dst_port = h.dst_port;
  dst_ip = h.dst_ip;
}
