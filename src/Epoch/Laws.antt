-- ===== src/Epoch/Laws.antt =====
-- What compare_epochs of lib/src/pcp_utils.h takes for a restart.
use emulebb_libpcpnatpmp.Base.{
  ℕ, ◌+◌, ◌-◌, ◌/◌, ◌<◌, ◌≤◌, ◌≡◌, ◌↔◌, ◌⊎◌, ap, arith, true, false, ◌||◌, ℤ, pos, pos_part,
  neg_part, ◌+ℤ◌, ◌-ℤ◌, +ℤ_parts, -ℤ_parts, eq_of_parts, ◌==◌,
}
use emulebb_libpcpnatpmp.Data.{RecvMsg, Server}
use emulebb_libpcpnatpmp.Epoch.{compare_epochs, init_epoch, runs_behind, sub32}

cancel : (a b : ℤ) (n : ℕ) → a ≡ b +ℤ pos n → a -ℤ b ≡ pos n
cancel a b n e =
    eq_of_parts (a -ℤ b) (pos n)
      (omega (arith, -ℤ_parts a b, +ℤ_parts b (pos n), ap pos_part e, ap neg_part e))

-- The first response of a server is never taken for a restart.
pub compare_epochs-first :
    (f : RecvMsg) (s : Server)
    → s.epoch ≡ 4294967295
    → f.recv_epoch < 4294967296
    → (compare_epochs f s).0 ≡ false
unfolding compare_epochs init_epoch
compare_epochs-first f s e h =
    let same : f.received_time -ℤ f.received_time ≡ pos 0 =
      eq_of_parts _ (pos 0) (omega (arith, -ℤ_parts f.received_time f.received_time)) in
    rw (ap (λ x. x == 4294967295) e) (rw same (ground arith))

module _ (f : RecvMsg) (s : Server) (known : s.epoch < 4294967295) (c : ℕ)
    (clock : f.received_time ≡ s.cepoch +ℤ pos c) where
  compare_epochs-deltas :
      c < 2147483648
      → compare_epochs f s ≡ (
        runs_behind c (sub32 f.recv_epoch s.epoch) || runs_behind (sub32 f.recv_epoch s.epoch) c,
        s,
      )
  unfolding compare_epochs init_epoch
  compare_epochs-deltas small =
      let no : (s.epoch == 4294967295) ≡ false = ground arith in
      rw no (rw (cancel f.received_time s.cepoch c clock) (ground arith))

  -- Where the client's clock and the server's epoch have both gone forward, by less than 2^31
  -- seconds, the server has restarted exactly if one of them, and two seconds, is still less than the
  -- other without its sixteenth part.
  pub compare_epochs-forward :
      (d : ℕ)
      → f.recv_epoch ≡ s.epoch + d
      → f.recv_epoch < 4294967296
      → c < 2147483648
      → d < 2147483648
      → ((compare_epochs f s).0 ≡ true) ↔ ((c + 2 < d - d / 16) ⊎ (d + 2 < c - c / 16))
  compare_epochs-forward d e r hc hd =
      let delta : sub32 f.recv_epoch s.epoch ≡ d = omega arith in
      rw (compare_epochs-deltas hc) (rw delta (ground arith))

  -- An epoch that has gone back, by 2^31 seconds at most, is a restart.
  pub compare_epochs-back :
      f.recv_epoch < s.epoch
      → s.epoch ≤ f.recv_epoch + 2147483648
      → c < 1073741824
      → (compare_epochs f s).0 ≡ true
  compare_epochs-back lt le hc = rw (compare_epochs-deltas (omega arith)) (ground arith)
