-- ===== src/System/Terminate.antt =====
-- `Scheduler::terminate` of src/scheduler.cpp.
use tasking_framework.System.World.{World}
