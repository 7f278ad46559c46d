-- ===== src/Tests/ConfigTests.antt =====
-- The settings on the empty environment.
use videum_video_platform.Common.{none}
use videum_video_platform.Config.{Environment}

abbrev unset : Environment
unset name = none
