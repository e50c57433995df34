-- ===== src/Singleton/Instance.antt =====
-- There is one instance.
use linux_communication.Common.{Bool, true, false}
use linux_communication.Singleton.{
  Stage, outside, testing, locking, retesting, allocating, constructing, publishing, unlocking,
  reading, returned, Singleton,
}

-- Between the lock and the unlock.
pub is_inside : Stage → Bool
is_inside outside = false
is_inside testing = false
is_inside locking = false
is_inside retesting = true
is_inside allocating = true
is_inside (constructing p) = true
is_inside (publishing p) = true
is_inside unlocking = true
is_inside reading = false
is_inside (returned p) = false
