-- ===== src/Policies/Windows.antt =====
-- backend/app/schemas/policies.py, `PolicyRuleCreate`: the maintenance windows that a rule may have,
-- and when such a window is open.
use ops_pilot_ai.Base.{
  ℕ, ◌+◌, ◌-◌, ◌*◌, ◌/◌, ◌%◌, ◌≤◌, ◌<◌, Bool, true, false, not, ◌&&◌, ◌||◌, Option, none, some,
  List, [], ◌∷◌, ◌≡◌, ◌↔◌, refl, arith, contains, nat_eq, if◌then◌else◌, ltb, leb, all, is_none,
  ◌⊎◌, inl, inr,
}
use ops_pilot_ai.Storage.Rows.{PolicyRuleRecord}
use ops_pilot_ai.Policies.Rules.{
  is_empty, day_length, hour, minute, weekday, inside_bounds, inside_maintenance_window,
}

abbrev has_no_repeats : List ℕ → Bool
has_no_repeats [] = true
has_no_repeats (d ∷ days) =
    let rest = has_no_repeats days in if contains days d then false else rest

abbrev bounds_valid : Option ℕ → Option ℕ → Bool
bounds_valid none none = true
bounds_valid (some start) (some end) = leb start 1439 && leb 1 end && leb end 1440 && ltb start end
bounds_valid _ _ = false

-- `validate_maintenance_window` with the bounds of the fields that it reads: weekdays that do not
-- repeat, a window with both ends or none that does not cross midnight, days only with a window.
unfoldable pub window_valid : List ℕ → Option ℕ → Option ℕ → Bool
unfolding all
window_valid days start end =
    has_no_repeats days
    && all (λ d. leb d 6) days
    && bounds_valid start end
    && (is_empty days || not (is_none start))

abbrev pub HasValidWindow : PolicyRuleRecord → Type 0
HasValidWindow r =
    window_valid r.maintenance_days r.maintenance_start_minute r.maintenance_end_minute ≡ true

minute_of_day : (t : ℕ) → hour t * 60 + minute t ≡ t % day_length / 60_000_000
minute_of_day t = omega arith

abbrev IsOpen : List ℕ → ℕ → ℕ → ℕ → Type 0
IsOpen days start end t =
    ((days ≡ []) ⊎ (contains days (weekday t) ≡ true))
    × (start * 60_000_000 ≤ t % day_length)
    × (t % day_length < end * 60_000_000)

bounds_iff :
    (days : List ℕ) (start end t : ℕ)
    → (inside_bounds days (some start) (some end) t ≡ true) ↔ IsOpen days start end t
bounds_iff [] start end t = (
  λ h. (inl refl, ground (arith, minute_of_day t), ground (arith, minute_of_day t)),
  λ h. ground (arith, minute_of_day t),
)
bounds_iff (d ∷ days) start end t = (
  λ h. (inr (ground arith), ground (arith, minute_of_day t), ground (arith, minute_of_day t)),
  λ h. ground (arith, minute_of_day t),
)

-- The window of a rule with both ends is open exactly on its days, from its first minute up to its
-- last, on the clock of the day in UTC.
pub inside_iff :
    (r : PolicyRuleRecord) (start end t : ℕ)
    → r.maintenance_start_minute ≡ some start
    → r.maintenance_end_minute ≡ some end
    → (inside_maintenance_window r t ≡ true) ↔ (
        ((r.maintenance_days ≡ []) ⊎ (contains r.maintenance_days (weekday t) ≡ true))
        × (start * 60_000_000 ≤ t % day_length)
        × (t % day_length < end * 60_000_000))
unfolding inside_maintenance_window
inside_iff r start end t hs he = rw (hs, he) (bounds_iff r.maintenance_days start end t)

-- The start of the window on the next day whose weekday is `d`, counted from the day after `t`.
abbrev next_opening : ℕ → ℕ → ℕ → ℕ
next_opening d start t =
    (t / day_length + 1 + (d + 7 - (t / day_length + 4) % 7) % 7) * day_length + start * 60_000_000

weekday-next_opening : (d start t : ℕ) → d < 7 → start < 1440 → weekday (next_opening d start t) ≡ d
weekday-next_opening d start t h k = omega arith

next_opening_time :
    (d start t : ℕ) → start < 1440 → next_opening d start t % day_length ≡ start * 60_000_000
next_opening_time d start t k = omega arith

next_opening_bounds :
    (d start t : ℕ)
    → start < 1440
    → (t < next_opening d start t) × (next_opening d start t ≤ t + 8 * day_length)
next_opening_bounds d start t k = omega arith

window_facts :
    (days : List ℕ) (start end : ℕ)
    → window_valid days (some start) (some end) ≡ true
    → (start < 1440) × (start < end) × (all (λ d. leb d 6) days ≡ true)
unfolding window_valid
window_facts days start end h = ground arith

opens_on :
    (days : List ℕ) (start end d t : ℕ)
    → (start < 1440) × (start < end)
    → d < 7
    → (days ≡ []) ⊎ (contains days d ≡ true)
    → (t' : ℕ) × (t ≤ t')
      × (t' ≤ t + 8 * day_length)
      × (inside_bounds days (some start) (some end) t' ≡ true)
opens_on days start end d t (k, l) h m =
    let (p, q) = next_opening_bounds d start t k in
    let e = next_opening_time d start t k in
    (
      next_opening d start t,
      omega (arith, p),
      q,
      (bounds_iff days start end (next_opening d start t)).1
          (rw (weekday-next_opening d start t h k) m, omega (arith, e), omega (arith, e)),
    )

window_recurs :
    (days : List ℕ) (start end : Option ℕ) (t : ℕ)
    → window_valid days start end ≡ true
    → (t' : ℕ) × (t ≤ t') × (t' ≤ t + 8 * day_length) × (inside_bounds days start end t' ≡ true)
unfolding window_valid
window_recurs days none end t h = (t, omega arith, omega arith, refl)
window_recurs days (some start) none t h = (t, omega arith, omega arith, refl)
window_recurs [] (some start) (some end) t h =
    let (k, l, a) = window_facts [] start end h in
    opens_on [] start end 0 t (k, l) (omega arith) (inl refl)
window_recurs (d ∷ days) (some start) (some end) t h =
    let (k, l, a) = window_facts (d ∷ days) start end h in
    opens_on (d ∷ days) start end d t (k, l) (ground (arith, a)) (inr (ground arith))

-- A rule whose window was validated is never closed for good: from every instant it is open again
-- within eight days.
pub valid_window_recurs :
    (r : PolicyRuleRecord) (t : ℕ)
    → HasValidWindow r
    → (t' : ℕ) × (t ≤ t') × (t' ≤ t + 8 * day_length) × (inside_maintenance_window r t' ≡ true)
unfolding inside_maintenance_window
valid_window_recurs r t h =
    window_recurs r.maintenance_days r.maintenance_start_minute r.maintenance_end_minute t h
