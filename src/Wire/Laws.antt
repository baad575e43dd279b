-- ===== src/Wire/Laws.antt =====
-- Reading back what was written in network order.
use emulebb_libpcpnatpmp.Base.{
  ℕ, ◌+◌, ◌*◌, ◌/◌, ◌%◌, ◌<◌, ◌≤◌, ◌≡◌, refl, arith, length, List, [], ◌∷◌,
}
use emulebb_libpcpnatpmp.Wire.{Buffer, In6Addr, Nonce, poke, peek16, peek32, peek_in6, peek_nonce}

abbrev pub IsByte : ℕ → Type 0
IsByte n = n < 256

abbrev pub IsWord16 : ℕ → Type 0
IsWord16 n = n < 65536

abbrev pub IsWord32 : ℕ → Type 0
IsWord32 n = n < 4294967296

pub record IsIn6Addr (a : In6Addr) : Type 0 where
  pub word0 : IsWord32 a.w0
  pub word1 : IsWord32 a.w1
  pub word2 : IsWord32 a.w2
  pub word3 : IsWord32 a.w3

pub record IsNonce (n : Nonce) : Type 0 where
  pub word0 : IsWord32 n.n0
  pub word1 : IsWord32 n.n1
  pub word2 : IsWord32 n.n2

pub join16 : (v : ℕ) → IsWord16 v → v / 256 % 256 * 256 + v % 256 ≡ v
join16 v h = omega arith

pub join32 :
    (v : ℕ)
    → IsWord32 v
    → v / 16777216 % 256 * 16777216 + v / 65536 % 256 * 65536 + v / 256 % 256 * 256 + v % 256 ≡ v
join32 v h = omega arith

-- The two buffers hold the same bytes from `lo` up to `hi`.
abbrev pub Agree : ℕ → ℕ → Buffer → Buffer → Type 0
Agree lo hi m m' = (i : ℕ) → lo ≤ i → i < hi → m i ≡ m' i

pub poke-below : (bs : List ℕ) (off i : ℕ) (m : Buffer) → i < off → poke off bs m i ≡ m i
poke-below [] off i m h = refl
poke-below (b ∷ bs) off i m h = ground (arith, poke-below bs (off + 1) i m)

pub poke-above :
    (bs : List ℕ) (off i : ℕ) (m : Buffer) → off + length bs ≤ i → poke off bs m i ≡ m i
poke-above [] off i m h = refl
poke-above (b ∷ bs) off i m h = ground (arith, poke-above bs (off + 1) i m)

module _ {lo hi : ℕ} {m m' : Buffer} (a : Agree lo hi m m') (off : ℕ) (low : lo ≤ off) where
  pub peek16-Agree : off + 2 ≤ hi → peek16 m off ≡ peek16 m' off
  peek16-Agree h = omega (arith, a off low (omega arith), a (off + 1) (omega arith) (omega arith))

  pub peek32-Agree : off + 4 ≤ hi → peek32 m off ≡ peek32 m' off
  peek32-Agree h = omega (
    arith,
    a off low (omega arith),
    a (off + 1) (omega arith) (omega arith),
    a (off + 2) (omega arith) (omega arith),
    a (off + 3) (omega arith) (omega arith),
  )

module _ {lo hi : ℕ} {m m' : Buffer} (a : Agree lo hi m m') (off : ℕ) (low : lo ≤ off) where
  pub peek_in6-Agree : off + 16 ≤ hi → peek_in6 m off ≡ peek_in6 m' off
  peek_in6-Agree h = λ i. record {
    w0 = peek32-Agree a off low (omega arith) i;
    w1 = peek32-Agree a (off + 4) (omega arith) (omega arith) i;
    w2 = peek32-Agree a (off + 8) (omega arith) (omega arith) i;
    w3 = peek32-Agree a (off + 12) (omega arith) (omega arith) i;
  }

  pub peek_nonce-Agree : off + 12 ≤ hi → peek_nonce m off ≡ peek_nonce m' off
  peek_nonce-Agree h = λ i. record {
    n0 = peek32-Agree a off low (omega arith) i;
    n1 = peek32-Agree a (off + 4) (omega arith) (omega arith) i;
    n2 = peek32-Agree a (off + 8) (omega arith) (omega arith) i;
  }
