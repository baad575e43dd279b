-- ===== src/Epoch.antt =====
-- The test for a restarted server, compare_epochs of lib/src/pcp_utils.h: how far the server's
-- epoch and the client's clock have moved apart since the previous response.
pub mod Laws
use emulebb_libpcpnatpmp.Base.{
  ℕ, ◌+◌, ◌-◌, ◌/◌, ◌%◌, Bool, ◌||◌, ℤ, pos, negsuc, ◌-ℤ◌, ltb, ◌==◌, if◌then◌else◌,
}
use emulebb_libpcpnatpmp.Data.{RecvMsg, Server}

-- A cast to uint32_t.
abbrev pub u32_of : ℤ → ℕ
u32_of (pos n) = n % 4294967296
u32_of (negsuc n) = 4294967295 - n % 4294967296

abbrev pub sub32 : ℕ → ℕ → ℕ
sub32 a b = (a + 4294967296 - b % 4294967296) % 4294967296

-- `a + 2 < b - (b >> 4)` on uint32_t
abbrev pub runs_behind : ℕ → ℕ → Bool
runs_behind a b = ltb ((a + 2) % 4294967296) (b - b / 16)

-- The first response sets what the later ones are compared with.
unfoldable pub init_epoch : RecvMsg → Server → Server
init_epoch f s =
    if s.epoch == 4294967295 then record s { epoch = f.recv_epoch; cepoch = f.received_time } else s

-- Whether the server has restarted, and the server as it is left.
unfoldable pub compare_epochs : RecvMsg → Server → Bool × Server
compare_epochs f s =
    let t = init_epoch f s in
    let c_delta = u32_of (f.received_time -ℤ t.cepoch) in
    let s_delta = sub32 f.recv_epoch t.epoch in
    (runs_behind c_delta s_delta || runs_behind s_delta c_delta, t)
