-- ===== src/Videos/Startup.antt =====
-- `onModuleInit` of nestjs-project/src/videos/videos.service.ts: the queue's connection, and the
-- listener without which an `error` event ends the process.
use videum_video_platform.Common.{
  ℕ, ◌+◌, ◌≡◌, Bool, Result, ok, err, internal, ◌==◌, arith, if◌then◌else◌,
}

pub record QueueConnection : Type 0 where
  pub error_listeners : ℕ

-- The Boolean says whether `waitUntilReady` resolves.
unfoldable pub on_module_init : Bool → QueueConnection → Result (Unit {0}) × QueueConnection
on_module_init ready queue = (
  if ready then ok tt else err internal,
  record queue { error_listeners = queue.error_listeners + 1 },
)

pub data ErrorEvent : Type 0 where
  logged crashed : ErrorEvent

-- An `error` event of an emitter without listeners is thrown.
unfoldable pub emit_error : QueueConnection → ErrorEvent
emit_error queue = if queue.error_listeners == 0 then crashed else logged

-- Once the module is initialized, or has failed to be, no `error` event ends the process.
pub emit_error-on_module_init :
    (ready : Bool) (queue : QueueConnection) → emit_error (on_module_init ready queue).1 ≡ logged
unfolding on_module_init emit_error
emit_error-on_module_init ready queue = ground arith
