-- ===== src/Commands/Timeouts.antt =====
-- cmd/dabri/commands.go: the timeouts of the commands.
use dabri.Commands.{int64, derive_timeout, pos, Text, default_timeout, negsuc}
use dabri.Prelude.{ℕ, ◌<◌, ◌≤◌, ◌*◌, ◌≡◌, refl, arith}

int64-eq : (n : ℕ) → n < 9223372036854775808 → int64 n ≡ pos n
unfolding int64
int64-eq n h = ground (arith, h)

-- A timeout given in seconds is the one that is used, in nanoseconds, when it is positive and at most
-- 9223372036; the default of the command is used for any that is not positive.
derive_timeout-eq :
    (command : Text) (n m : ℕ)
    → 0 < n
    → n ≤ 9223372036
    → (derive_timeout command (pos n) ≡ pos (n * 1000000000))
      × (derive_timeout command (pos 0) ≡ default_timeout command)
      × (derive_timeout command (negsuc m) ≡ default_timeout command)
unfolding derive_timeout
derive_timeout-eq command n m h k =
    (ground (arith, h, int64-eq (n * 1000000000) (omega arith)), refl, refl)
