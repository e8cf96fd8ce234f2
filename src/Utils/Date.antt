-- ===== src/Utils/Date.antt =====
-- `getHoursAgoInBrazil` of src/utils/date.util.ts. What `Intl.DateTimeFormat` and the local `Date`
-- constructor make of the present is a parameter: it may be any instant.
use recharge_plataform_api.Prelude.{ℕ, ◌*◌, ◌≡◌}
use recharge_plataform_api.Prelude.Int.{ℤ, pos, ◌-ℤ◌, int_laws}

unfoldable pub get_hours_ago_in_brazil : (ℤ → ℤ) → ℤ → ℕ → ℤ
get_hours_ago_in_brazil brazil_local now hours =
    let brazil_now : ℤ = brazil_local now in
    let offset : ℤ = brazil_now -ℤ now in
    let hours_ago_in_brazil : ℤ = brazil_now -ℤ pos (hours * 60 * 60 * 1000) in
    hours_ago_in_brazil -ℤ offset

-- Whatever instant the conversion through the time zone gives (daylight saving included), the result
-- is the present less the hours.
pub get_hours_ago_in_brazil_lem :
    (brazil_local : ℤ → ℤ) (now : ℤ) (hours : ℕ)
    → get_hours_ago_in_brazil brazil_local now hours ≡ now -ℤ pos (hours * 60 * 60 * 1000)
unfolding get_hours_ago_in_brazil
get_hours_ago_in_brazil_lem brazil_local now hours = omega int_laws
