-- ===== src/Fs/Device.antt =====
-- lib/fspatch: the numbers of a device file (mkdev.go, stat_unix.go). Numbers of 64 bits are given as
-- what their bits spell; each mask and shift is written as the remainder and quotient that it is.
use repeatr.Base.{ℕ, ◌+◌, ◌*◌, ◌/◌, ◌%◌, ◌≡◌, refl, arith}

-- `Mkdev`
unfoldable pub mkdev : ℕ → ℕ → ℕ
mkdev major minor = (minor / 256) % 4096 * 1048576 + major % 4096 * 256 + minor % 256

-- `ReadDev`, of the `Rdev` that stat gave.
unfoldable pub read_dev : ℕ → ℕ × ℕ
read_dev rdev = ((rdev / 256) % 256, rdev % 256 + (rdev / 4096 / 256) % 4096 * 256)

-- What `ReadDev` reads of the number that `Mkdev` made: the low 8 bits of the major and the low 20 of the minor number.
pub read_dev-mkdev :
    (major minor : ℕ) → read_dev (mkdev major minor) ≡ (major % 256, minor % 1048576)
unfolding read_dev mkdev
read_dev-mkdev major minor =
    let n : ℕ = (minor / 256) % 4096 * 1048576 + major % 4096 * 256 + minor % 256 in
    let high : (n / 256) % 256 ≡ major % 256 = omega arith in
    let low : n % 256 + (n / 4096 / 256) % 4096 * 256 ≡ minor % 1048576 = omega arith in
    rw (high, low) refl
