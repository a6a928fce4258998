-- ===== src/Calendar/Weekdays.antt =====
-- The weekday of a date, as a remainder.
use planmaker.Common.{ℕ, zero, suc, ◌+◌, ◌%◌, ◌<◌, ◌≡◌, refl, arith}
use planmaker.Calendar.{Date, weekday_index, weekday_at, index_of, weekday_key}

pub weekday_index-eq : (d : Date) → weekday_index d ≡ (d + 1) % 7
unfolding weekday_index
weekday_index-eq d = ground arith

pub index_of-weekday_at : (i : ℕ) → i < 7 → index_of (weekday_at i) ≡ i
unfolding index_of
index_of-weekday_at zero h = refl
index_of-weekday_at (suc zero) h = refl
index_of-weekday_at (suc (suc zero)) h = refl
index_of-weekday_at (suc (suc (suc zero))) h = refl
index_of-weekday_at (suc (suc (suc (suc zero)))) h = refl
index_of-weekday_at (suc (suc (suc (suc (suc zero))))) h = refl
index_of-weekday_at (suc (suc (suc (suc (suc (suc n)))))) h = omega arith

pub index_of-weekday_key : (d : Date) → index_of (weekday_key d) ≡ (d + 1) % 7
unfolding weekday_key
index_of-weekday_key d = ground (arith, index_of-weekday_at (weekday_index d), weekday_index-eq d)

pub weekday_key-eq : (d : Date) → weekday_key d ≡ weekday_at ((d + 1) % 7)
unfolding weekday_key
weekday_key-eq d = rw weekday_index-eq
