-- ===== src/Generator/Rows.antt =====
-- The rows of a station.
use linux_application_develo.Shared.{
  ℕ, zero, suc, ◌+◌, ◌-◌, ◌*◌, ◌/◌, ◌≤◌, ◌≡◌, true, false, ltb, arith, inl, inr, Bool-cases,
}
use linux_application_develo.Shared.Int.{ℤ, pos_part, ◌+ℤ◌, ◌-ℤ◌, ltb_ℤ}
use linux_application_develo.Generator.{hour, hourly_rows}

-- The seconds from a time to a later one.
abbrev pub seconds_to : ℤ → ℤ → ℕ
seconds_to ts end = pos_part (end -ℤ ts)

next_hour : (ts end : ℤ) → seconds_to (ts +ℤ hour) end ≡ seconds_to ts end - 3600
unfolding ◌+ℤ◌ ◌-ℤ◌
next_hour ts end = ground arith

is_before : (ts end : ℤ) → ltb_ℤ ts end ≡ ltb 0 (seconds_to ts end)
unfolding ◌-ℤ◌
is_before ts end = ground arith

-- With as many rounds as there are hours, begun or whole, hourlyRows counts those hours.
pub hourly_rows_lem :
    (n : ℕ) (ts end : ℤ)
    → seconds_to ts end ≤ n * 3600
    → hourly_rows n ts end ≡ (seconds_to ts end + 3599) / 3600
unfolding hourly_rows
hourly_rows_lem zero ts end h = omega (arith, h)
hourly_rows_lem (suc n) ts end h =
    let later = hourly_rows_lem n (ts +ℤ hour) end (omega (arith, h, next_hour ts end)) in
    elim (Bool-cases (ltb 0 (seconds_to ts end))) [
      | inl e ↦
          rw (is_before ts end, e)
            (omega (arith, later, next_hour ts end, ltb_pos (seconds_to ts end) e))
      | inr e ↦ rw (is_before ts end, e) (omega (arith, ltb_zero (seconds_to ts end) e))
    ]
  where
    ltb_pos : (k : ℕ) → ltb 0 k ≡ true → 1 ≤ k
    ltb_pos k e = ground arith

    ltb_zero : (k : ℕ) → ltb 0 k ≡ false → k ≡ 0
    ltb_zero k e = ground arith
