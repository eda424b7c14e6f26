-- ===== src/Format/Tests.antt =====
-- Durations and hashes on concrete inputs.
use cdn_platform.Prelude.{◌≡◌, refl, none, some, codes, decimal, ◌/◌}
use cdn_platform.Format.{format_duration, short_hash}
use cdn_platform.Format.Reading.{read_duration, read_duration-format_duration}

durations :
    (format_duration none ≡ codes "0 分钟")
    × (format_duration (some 90061) ≡ codes "1 天 1 小时 1 分钟")
    × (format_duration (some 86400) ≡ codes "1 天")
unfolding format_duration decimal
durations = (refl, refl, refl)

hashes : short_hash (some (codes "0123456789abcdef")) ≡ codes "0123456789...abcdef"
unfolding short_hash
hashes = refl

read_duration-format_duration_example : read_duration (format_duration (some 90061)) ≡ 90061 / 60
read_duration-format_duration_example = read_duration-format_duration 90061
