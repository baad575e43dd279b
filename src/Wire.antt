-- ===== src/Wire.antt =====
-- Message buffers and the integers written into them. A buffer of lib/src/pcp_msg.c is the bytes
-- at its offsets, zero where calloc or memset left it so. Ports, addresses and nonces are kept by
-- the code in network order throughout: a number here is the one that their bytes spell in that
-- order, and htonl, htons, ntohl and ntohs are the writing and reading of such bytes.
pub mod Laws
use emulebb_libpcpnatpmp.Base.{ℕ, ◌+◌, ◌*◌, ◌/◌, ◌%◌, List, [], ◌∷◌, ◌++◌, ◌==◌, if◌then◌else◌}

abbrev pub Buffer : Type 0
Buffer = ℕ → ℕ

-- calloc(1, PCP_MAX_LEN)
abbrev pub zero_buffer : Buffer
zero_buffer i = 0

-- The bytes stored at an offset and after it.
abbrev pub poke : ℕ → List ℕ → Buffer → Buffer
poke off [] m i = m i
poke off (b ∷ bs) m i = if i == off then b else poke (off + 1) bs m i

abbrev pub be8 : ℕ → List ℕ
be8 v = v % 256 ∷ []

abbrev pub be16 : ℕ → List ℕ
be16 v = v / 256 % 256 ∷ v % 256 ∷ []

abbrev pub be32 : ℕ → List ℕ
be32 v = v / 16777216 % 256 ∷ v / 65536 % 256 ∷ v / 256 % 256 ∷ v % 256 ∷ []

abbrev pub peek16 : Buffer → ℕ → ℕ
peek16 m off = m off * 256 + m (off + 1)

abbrev pub peek32 : Buffer → ℕ → ℕ
peek32 m off = m off * 16777216 + m (off + 1) * 65536 + m (off + 2) * 256 + m (off + 3)

-- struct in6_addr, as its four words in network order.
pub record In6Addr : Type 0 where
  pub w0 : ℕ
  pub w1 : ℕ
  pub w2 : ℕ
  pub w3 : ℕ

abbrev pub in6_bytes : In6Addr → List ℕ
in6_bytes a = be32 a.w0 ++ be32 a.w1 ++ be32 a.w2 ++ be32 a.w3

abbrev pub peek_in6 : Buffer → ℕ → In6Addr
peek_in6 m off = record {
  w0 = peek32 m off;
  w1 = peek32 m (off + 4);
  w2 = peek32 m (off + 8);
  w3 = peek32 m (off + 12);
}

abbrev pub zero_in6 : In6Addr
zero_in6 = record { w0 = 0; w1 = 0; w2 = 0; w3 = 0 }

-- struct pcp_nonce
pub record Nonce : Type 0 where
  pub n0 : ℕ
  pub n1 : ℕ
  pub n2 : ℕ

abbrev pub nonce_bytes : Nonce → List ℕ
nonce_bytes n = be32 n.n0 ++ be32 n.n1 ++ be32 n.n2

abbrev pub peek_nonce : Buffer → ℕ → Nonce
peek_nonce m off = record { n0 = peek32 m off; n1 = peek32 m (off + 4); n2 = peek32 m (off + 8) }

abbrev pub zero_nonce : Nonce
zero_nonce = record { n0 = 0; n1 = 0; n2 = 0 }
