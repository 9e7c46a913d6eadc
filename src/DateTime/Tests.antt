-- ===== src/DateTime/Tests.antt =====
-- The theorems of the dates at concrete times.
use libjustasic.Base.{◌≡◌, refl}
use libjustasic.Base.Text.{codes}
use libjustasic.DateTime.{
  plain, days, hours, minutes, day_piece, hour_piece, minute_piece, duration,
}

shown : duration plain 90061 ≡ codes "%ld day%c%s%ld hour%c%s%ld munute%c"
unfolding duration day_piece hour_piece minute_piece days hours minutes
shown = refl
