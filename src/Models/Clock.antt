-- ===== src/Models/Clock.antt =====
-- Identifiers and time: `uuid.UUID`, `datetime` and `timedelta(minutes=...)`.
use knpodly.Base.{ℕ, ℤ, ◌*ℤ◌}

abbrev pub Uuid : Type 0
Uuid = ℕ

abbrev pub Time : Type 0
Time = ℤ

-- `timedelta(minutes=m)`, in microseconds
unfoldable pub minutes : ℤ → ℤ
unfolding ◌*ℤ◌
minutes m = m *ℤ 60000000
