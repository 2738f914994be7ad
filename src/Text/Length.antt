-- ===== src/Text/Length.antt =====
-- `strlen`.
use ece391os.Prelude.{ℕ, zero, suc, ◌+◌, ◌≤◌, ◌<◌, ◌≡◌, ◌≢◌, arith, some}
use ece391os.Memory.{Mem}
use ece391os.Text.{strlen_from, strlen, address_space}

-- A NUL-terminated string of `n` bytes stands at `s`.
pub record IsString (m : Mem) (s n : ℕ) : Type 0 where
  pub inside : (i : ℕ) → i < n → m (s + i) ≢ 0
  pub ends : m (s + n) ≡ 0
  pub fits : n < address_space

strlen_from_lem :
    (f : ℕ) (m : Mem) (s len n : ℕ)
    → IsString m s n
    → len ≤ n
    → n < len + f
    → strlen_from f m s len ≡ some n
unfolding strlen_from
strlen_from_lem zero m s len n h le lt = absurd (omega arith)
strlen_from_lem (suc f) m s len n h le lt =
    ground (arith, h.inside len, h.ends, strlen_from_lem f m s (len + 1) n)

pub strlen_of_string : (m : Mem) (s n : ℕ) → IsString m s n → strlen m s ≡ some n
unfolding strlen
strlen_of_string m s n h = strlen_from_lem address_space m s 0 n h (omega arith) h.fits
