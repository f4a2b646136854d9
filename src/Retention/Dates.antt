-- ===== src/Retention/Dates.antt =====
-- src/services/retention/evaluator.ts: the bucket keys. Parsing an ISO timestamp and reading its
-- fields in local time are the platform's: a record of the two functions.
use obsidian_archivist.Common.Text.{Text}
use obsidian_archivist.Common.{
  zero, ◌%◌, ◌-◌, ◌/◌, ltb, ◌*◌, ◌+◌, suc, ◌++◌, if◌then◌else◌, ℕ, Option, none, some, [], ◌∷◌,
}

-- Fields as `Date` numbers them: the month from 0, the day from 1.
pub record DateFields : Type 0 where
  pub year : ℕ
  pub month : ℕ
  pub day : ℕ

-- `new Date(iso).getTime()`, where none stands for NaN, and the local fields of an instant.
pub record Dates : Type 0 where
  pub time_of : Text → Option ℕ
  pub local_fields : ℕ → DateFields

-- `String(n)`, with as much fuel as the number.
digits : ℕ → ℕ → Text
digits zero n = []
digits (suc fuel) n =
    let front = digits fuel (n / 10) in
    if ltb n 10 then (48 + n) ∷ [] else front ++ (48 + n % 10) ∷ []

unfoldable pub decimal : ℕ → Text
unfolding digits
decimal n = digits (n + 1) n

-- `String(n).padStart(2, '0')`.
unfoldable pub pad2 : ℕ → Text
unfolding decimal
pad2 n = if ltb n 10 then 48 ∷ decimal n else decimal n

abbrev pub dash : ℕ
dash = 45

abbrev pub not_a_number : Text
not_a_number = 78 ∷ 97 ∷ 78 ∷ []

unfoldable pub month_key : DateFields → Text
unfolding decimal pad2
month_key f = decimal f.year ++ dash ∷ pad2 (f.month + 1)

unfoldable pub date_key : DateFields → Text
unfolding decimal pad2
date_key f = decimal f.year ++ dash ∷ pad2 (f.month + 1) ++ dash ∷ pad2 f.day

unfoldable pub local_date_key : Dates → Text → Text
unfolding date_key
local_date_key dates iso = elim (dates.time_of iso) [
  | none ↦ not_a_number ++ dash ∷ not_a_number ++ dash ∷ not_a_number
  | some t ↦ date_key (dates.local_fields t)
]

unfoldable pub local_month_key : Dates → Text → Text
unfolding month_key
local_month_key dates iso = elim (dates.time_of iso) [
  | none ↦ not_a_number ++ dash ∷ not_a_number
  | some t ↦ month_key (dates.local_fields t)
]

-- Years before 0 do not occur: the months of a date are more than those of the window.
unfoldable pub monthly_cutoff_key : DateFields → ℕ → Text
unfolding month_key
monthly_cutoff_key now total_months =
    let cutoff = now.year * 12 + now.month - total_months in
    let year = cutoff / 12 in
    month_key (record { year = year; month = cutoff - year * 12; day = 1 })
