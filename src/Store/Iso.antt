-- ===== src/Store/Iso.antt =====
-- The order of the times that SQLite holds as text (`_iso` of sqlite_store.py). `isoformat` prints
-- the fraction as six digits, and leaves it out where it is zero: `…:00Z` and `…:00.500000Z`.
-- `Z` sorts after the dot, so as text a whole second stands behind every fraction of it.
use doxx.Base.{ℕ, ◌+◌, ◌*◌, ◌/◌, ◌%◌, Bool, leb, ◌==◌, if◌then◌else◌}
use doxx.Store.Rows.{Time}

abbrev pub second : ℕ
second = 1000000

-- The place of a time's text among the texts of times: the seconds, then the fraction.
unfoldable pub iso_rank : Time → ℕ
iso_rank t = t / second * 1000001 + (if t % second == 0 then second else t % second)

-- `a <= b` in SQL, on two such texts
unfoldable pub iso_le : Time → Time → Bool
unfolding iso_rank
iso_le a b = leb (iso_rank a) (iso_rank b)
