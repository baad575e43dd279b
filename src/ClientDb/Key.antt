-- ===== src/ClientDb/Key.antt =====
-- The hash of a flow's key: compute_flow_key of lib/src/pcp_client_db.c, over the bytes of struct
-- flow_key_data as the common 64-bit ABIs lay it out, with scope_id in little-endian order. The
-- padding is zero, since every key is cleared by memset before it is filled.
use emulebb_libpcpnatpmp.Base.{
  ℕ, ◌*◌, ◌/◌, ◌%◌, ◌<◌, ◌≡◌, arith, bit_xor, List, [], ◌∷◌, ◌++◌, Bool, true, ◌&&◌, ◌==◌,
}
use emulebb_libpcpnatpmp.Wire.{be8, be16, In6Addr, in6_bytes, Nonce, nonce_bytes}
use emulebb_libpcpnatpmp.Data.{FlowKeyData}

abbrev le32 : ℕ → List ℕ
le32 v = v % 256 ∷ v / 256 % 256 ∷ v / 65536 % 256 ∷ v / 16777216 % 256 ∷ []

-- sizeof(struct flow_key_data) is 76.
unfoldable pub key_bytes : FlowKeyData → List ℕ
key_bytes kd =
    be8 kd.operation
    ++ (0 ∷ 0 ∷ 0 ∷ [])
    ++ in6_bytes kd.src_ip
    ++ in6_bytes kd.pcp_server_ip
    ++ le32 kd.scope_id
    ++ nonce_bytes kd.nonce
    ++ be8 kd.protocol
    ++ (0 ∷ [])
    ++ be16 kd.src_port
    ++ in6_bytes kd.dst_ip
    ++ be16 kd.dst_port
    ++ (0 ∷ 0 ∷ [])

-- One round: `h & 0xff000000` is what a shift by eight pushes out.
unfoldable pub hash_round : ℕ → ℕ → ℕ
hash_round k h = bit_xor (bit_xor (h * 256 % 4294967296) (h / 16777216)) k

-- The bytes are taken from the last to the first.
unfoldable pub hash_bytes : List ℕ → ℕ
unfolding hash_round
hash_bytes [] = 0
hash_bytes (k ∷ ks) = hash_round k (hash_bytes ks)

-- FLOW_HASH_BITS is 5.
unfoldable pub compute_flow_key : FlowKeyData → ℕ
unfolding hash_bytes key_bytes
compute_flow_key kd = hash_bytes (key_bytes kd) * 0x9E3779B9 % 4294967296 / 134217728

-- FLOW_HASH_SIZE, 2 << FLOW_HASH_BITS
abbrev pub flow_hash_size : ℕ
flow_hash_size = 64

pub compute_flow_key-lt : (kd : FlowKeyData) → compute_flow_key kd < 32
unfolding compute_flow_key
compute_flow_key-lt kd = omega arith

abbrev pub in6_beq : In6Addr → In6Addr → Bool
in6_beq a b = a.w0 == b.w0 && a.w1 == b.w1 && a.w2 == b.w2 && a.w3 == b.w3

abbrev pub nonce_beq : Nonce → Nonce → Bool
nonce_beq a b = a.n0 == b.n0 && a.n1 == b.n1 && a.n2 == b.n2

-- memcmp over the whole structure, equal.
unfoldable pub key_equal : FlowKeyData → FlowKeyData → Bool
key_equal a b =
    a.operation == b.operation
    && in6_beq a.src_ip b.src_ip
    && in6_beq a.pcp_server_ip b.pcp_server_ip
    && a.scope_id == b.scope_id
    && nonce_beq a.nonce b.nonce
    && a.protocol == b.protocol
    && a.src_port == b.src_port
    && in6_beq a.dst_ip b.dst_ip
    && a.dst_port == b.dst_port

pub key_equal_refl : (a : FlowKeyData) → key_equal a a ≡ true
unfolding key_equal
key_equal_refl a = ground arith

pub key_equal→eq : (a b : FlowKeyData) → key_equal a b ≡ true → a ≡ b
unfolding key_equal
key_equal→eq a b h = ground arith
