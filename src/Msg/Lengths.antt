-- ===== src/Msg/Lengths.antt =====
-- Where build_pcp_msg of lib/src/pcp_msg.c writes, and how long its messages are.
use emulebb_libpcpnatpmp.Base.{
  ℕ, ◌+◌, ◌%◌, ◌<◌, ◌≤◌, ◌≡◌, refl, ap, ◌∙◌, arith, Bool, true, false, some, ltb, if◌then◌else◌,
  pos, length, List, ◌++◌, ◌==◌, ◌⊎◌, bit_or,
}
use emulebb_libpcpnatpmp.Wire.{Buffer, poke, be8, be16, be32, in6_bytes, nonce_bytes}
use emulebb_libpcpnatpmp.Wire.Laws.{Agree, poke-below, poke-above}
use emulebb_libpcpnatpmp.Data.{Flow, Server, opcode_map, opcode_peer}
use emulebb_libpcpnatpmp.Msg.Build.{
  Built, Cursor, filter_bytes, prefer_failure_bytes, third_party_bytes, add_filter_option,
  add_prefer_failure_option, add_third_party_option, add_options, build_pcp_options, build_pcp_map,
  build_pcp_peer, put_map_v1, put_peer_v1, put_request_header, buffer_or_calloc, keep_msg,
  build_pcp_request, build_pcp_msg,
}

-- How many bytes the options of a flow take.
abbrev pub options_len : Flow → ℕ
options_len f =
    (if f.filter_option_present then 24 else 0)
    + (if f.pfailure_option_present then 4 else 0)
    + (if f.third_party_option_present then 20 else 0)

-- A step of the building that writes `n` bytes at the cursor and nothing else.
pub record Appends (n : ℕ) (c d : Cursor) : Type 0 where
  pub cursor : d.1 ≡ c.1 + n
  pub below : (i : ℕ) → i < c.1 → d.0 i ≡ c.0 i
  pub above : (i : ℕ) → c.1 + n ≤ i → d.0 i ≡ c.0 i

Appends-poke :
    (bs : List ℕ) (n : ℕ) (c : Cursor) → length bs ≡ n → Appends n c (poke c.1 bs c.0, c.1 + n)
Appends-poke bs n c e = record {
  cursor = refl;
  below = λ i h. poke-below bs c.1 i c.0 h;
  above = λ i h. poke-above bs c.1 i c.0 (omega arith);
}

Appends-nothing : (c : Cursor) → Appends 0 c c
Appends-nothing c = record { cursor = omega arith; below = λ i h. refl; above = λ i h. refl }

Appends-if :
    (b : Bool) {n : ℕ} (c d : Cursor)
    → Appends n c d
    → Appends (if b then n else 0) c (if b then d else c)
Appends-if true c d h = h
Appends-if false c d h = Appends-nothing c

Appends-trans : {m n : ℕ} {c d e : Cursor} → Appends m c d → Appends n d e → Appends (m + n) c e
Appends-trans {m} {n} {c} {d} {e} p q = record {
  cursor = omega arith;
  below = λ i h. q.below i (omega arith) ∙ p.below i h;
  above = λ i h. q.above i (omega arith) ∙ p.above i (omega arith);
}

pub add_options-Appends : (f : Flow) (c : Cursor) → Appends (options_len f) c (add_options f c)
unfolding add_options add_filter_option add_prefer_failure_option add_third_party_option
add_options-Appends f c =
    Appends-trans
      (Appends-trans
        (Appends-if f.filter_option_present c _ (Appends-poke (filter_bytes f) 24 c refl))
        (Appends-if f.pfailure_option_present _ _ (Appends-poke prefer_failure_bytes 4 _ refl)))
      (Appends-if f.third_party_option_present _ _ (Appends-poke (third_party_bytes f) 20 _ refl))

-- The options of a flow end the message, and leave what stands before them.
pub record Ends (f : Flow) (c : Cursor) (b : Built) : Type 0 where
  pub ret : b.ret ≡ pos 0
  pub len : b.len ≡ c.1 + options_len f
  pub before : (i : ℕ) → i < c.1 → b.buffer i ≡ c.0 i
  pub after : (i : ℕ) → b.len ≤ i → b.buffer i ≡ c.0 i
  pub options : b.buffer ≡ (add_options f c).0

pub build_pcp_options-Ends :
    (f : Flow) (len : ℕ) (c : Cursor) → c.1 ≤ 80 → Ends f c (build_pcp_options f len c)
unfolding build_pcp_options
build_pcp_options-Ends f len c h =
    let a = add_options-Appends f c in
    let small : ltb 4294967295 (add_options f c).1 ≡ false = ground arith in
    rw small (record {
      ret = refl;
      len = a.cursor;
      before = a.below;
      after = λ i k. a.above i (omega arith);
      options = refl;
    })

put_request_header-above :
    (s : Server) (f : Flow) (m : Buffer) (i : ℕ) → 24 ≤ i → put_request_header s f m i ≡ m i
unfolding put_request_header
put_request_header-above s f m i h =
    let start = be8 s.pcp_version ++ be8 (bit_or (m 1) (f.kd.operation % 128)) in
    poke-above (be32 f.lifetime ++ in6_bytes f.kd.src_ip) 4 i (poke 0 start m) h
    ∙ poke-above start 0 i m (omega arith)

put_map_v1-above :
    (f : Flow) (loc : ℕ) (m : Buffer) (i : ℕ) → loc + 24 ≤ i → put_map_v1 f loc m i ≡ m i
unfolding put_map_v1
put_map_v1-above f loc m i h =
    let m₁ = poke loc (be8 f.kd.protocol) m in
    let m₂ = poke (loc + 4) (be16 f.kd.src_port ++ be16 f.ext_port) m₁ in
    poke-above (in6_bytes f.ext_ip) (loc + 8) i m₂ (omega arith)
    ∙ poke-above (be16 f.kd.src_port ++ be16 f.ext_port) (loc + 4) i m₁ (omega arith)
    ∙ poke-above (be8 f.kd.protocol) loc i m (omega arith)

put_peer_v1-above :
    (f : Flow) (loc : ℕ) (m : Buffer) (i : ℕ) → loc + 44 ≤ i → put_peer_v1 f loc m i ≡ m i
unfolding put_peer_v1
put_peer_v1-above f loc m i h =
    let m₁ = put_map_v1 f loc m in
    let m₂ = poke (loc + 24) (be16 f.kd.dst_port) m₁ in
    poke-above (in6_bytes f.kd.dst_ip) (loc + 28) i m₂ (omega arith)
    ∙ poke-above (be16 f.kd.dst_port) (loc + 24) i m₁ (omega arith)
    ∙ put_map_v1-above f loc m i (omega arith)

-- The cursor behind the fixed part of a MAP or PEER request.
abbrev pub fixed_part : Server → Flow → Buffer → Cursor
fixed_part s f m =
    let h = put_request_header s f m in
    if f.kd.operation == opcode_peer
    then (if s.pcp_version == 1
        then (put_peer_v1 f 24 h, 68)
        else (poke 24 (nonce_bytes f.kd.nonce) (put_peer_v1 f 36 h), 80))
    else (if s.pcp_version == 1
        then (put_map_v1 f 24 h, 48)
        else (poke 24 (nonce_bytes f.kd.nonce) (put_map_v1 f 36 h), 60))

-- Its length: the header of 24 bytes and the structure of the operation in the version.
abbrev pub fixed_len : Server → Flow → ℕ
fixed_len s f =
    24
    + (if f.kd.operation == opcode_peer
        then (if s.pcp_version == 1 then 44 else 56)
        else (if s.pcp_version == 1 then 24 else 36))

keep_built :
    (f : Flow) (b : Built)
    → b.ret ≡ pos 0
    → keep_msg f b ≡ record f { pcp_msg_buffer = some b.buffer; pcp_msg_len = b.len }
unfolding keep_msg
keep_built f b e = ground arith

-- PCP version 1 or 2, MAP or PEER.
pub record IsPcpRequest (s : Server) (f : Flow) : Type 0 where
  pub version : (s.pcp_version ≡ 1) ⊎ (s.pcp_version ≡ 2)
  pub operation : (f.kd.operation ≡ opcode_map) ⊎ (f.kd.operation ≡ opcode_peer)

module _ (s : Server) (f : Flow) (k : IsPcpRequest s f) (m : Buffer) where
  build_pcp_request_lem : build_pcp_request s f m ≡ build_pcp_options f 24 (fixed_part s f m)
  unfolding build_pcp_request build_pcp_map build_pcp_peer
  build_pcp_request_lem = ground arith

  fixed_part-above : (i : ℕ) → (fixed_part s f m).1 ≤ i → (fixed_part s f m).0 i ≡ m i
  fixed_part-above i h = ground (
    arith,
    put_request_header-above s f m i,
    put_map_v1-above f 24 (put_request_header s f m) i,
    put_map_v1-above f 36 (put_request_header s f m) i,
    put_peer_v1-above f 24 (put_request_header s f m) i,
    put_peer_v1-above f 36 (put_request_header s f m) i,
    poke-above (nonce_bytes f.kd.nonce) 24 i (put_peer_v1 f 36 (put_request_header s f m)),
    poke-above (nonce_bytes f.kd.nonce) 24 i (put_map_v1 f 36 (put_request_header s f m)),
  )

  pub fixed_part-len : (fixed_part s f m).1 ≡ fixed_len s f
  fixed_part-len = ground arith

-- The message of a flow: in the buffer, `len` bytes, a multiple of four and far below
-- PCP_MAX_LEN, with nothing written behind its end.
pub record FitsMessage (s : Server) (f g : Flow) : Type 0 where
  pub buffer : Buffer
  pub kept : g.pcp_msg_buffer ≡ some buffer
  pub len : g.pcp_msg_len ≡ fixed_len s f + options_len f
  pub bounded : g.pcp_msg_len ≤ 128
  pub aligned : g.pcp_msg_len % 4 ≡ 0
  pub before : Agree 0 (fixed_len s f) buffer (fixed_part s f (buffer_or_calloc f.pcp_msg_buffer)).0
  pub after : (i : ℕ) → g.pcp_msg_len ≤ i → buffer i ≡ buffer_or_calloc f.pcp_msg_buffer i
  pub options : buffer ≡ (add_options f (fixed_part s f (buffer_or_calloc f.pcp_msg_buffer))).0

module _ (s : Server) (f : Flow) (k : IsPcpRequest s f) where
  build_pcp_msg_lem :
      build_pcp_msg (some s) f
      ≡ keep_msg f (build_pcp_request s f (buffer_or_calloc f.pcp_msg_buffer))
  unfolding build_pcp_msg
  build_pcp_msg_lem = ground arith

  -- A MAP or PEER request of PCP version 1 or 2 is built: its length is that of the header, the
  -- structure and the options present, a multiple of four and at most 128; and the buffer is
  -- unchanged from the message's end on.
  pub build_pcp_msg-FitsMessage : FitsMessage s f (build_pcp_msg (some s) f)
  build_pcp_msg-FitsMessage =
      let m = buffer_or_calloc f.pcp_msg_buffer in
      let c = fixed_part s f m in
      let b = build_pcp_options f 24 c in
      let n = fixed_part-len s f k m in
      let e = build_pcp_options-Ends f 24 c (ground arith) in
      let g : Flow = record f { pcp_msg_buffer = some b.buffer; pcp_msg_len = b.len } in
      let made : build_pcp_msg (some s) f ≡ g =
        build_pcp_msg_lem
        ∙ ap (keep_msg f) (build_pcp_request_lem s f k m)
        ∙ keep_built f b e.ret in
      rw made (record {
        buffer = b.buffer;
        kept = refl;
        len = omega arith;
        bounded = ground arith;
        aligned = ground arith;
        before = λ i _ h. e.before i (omega arith);
        after = λ i h. e.after i h ∙ fixed_part-above s f k m i (omega arith);
        options = e.options;
      })
