-- ===== src/Tests/Times.antt =====
-- One hour, one minute and ten seconds.
use brewblox_devcon_spark.Base.{◌≡◌}
use brewblox_devcon_spark.TimeUtils.{serialize_duration}
use brewblox_devcon_spark.TimeUtils.Durations.{read_duration, read-serialize_duration}

read-serialize_duration_example : read_duration (serialize_duration 3670) 0 ≡ 3670
read-serialize_duration_example = read-serialize_duration 3670
