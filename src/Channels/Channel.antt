-- ===== src/Channels/Channel.antt =====
-- nestjs-project/src/channels/entities/channel.entity.ts, without the timestamps.
use videum_video_platform.Common.{ℕ, Option, Text}

pub record Channel : Type 0 where
  pub id : ℕ
  pub name : Text
  pub nickname : Text
  pub description : Option Text
  pub user_id : ℕ
