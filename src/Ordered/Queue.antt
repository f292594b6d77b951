-- ===== src/Ordered/Queue.antt =====
-- The ring of native events: post, and the part of drain under the mutex.
use roo_wifi.Base.{ℕ, ◌+◌, ◌-◌, ◌%◌, true, ◌==◌, if◌then◌else◌, set, get_or}
use roo_wifi.Ordered.Events.{Event, empty_slot, queued, expand}
use roo_wifi.Ordered.Station.{NativeStation, Adapter}

-- queue_.size()
abbrev pub queue_size : ℕ
queue_size = 16

module _ {n : NativeStation} where
  -- OrderedInterface::post
  unfoldable pub post : Event → Adapter n → Adapter n
  post event s =
      if s.count == queue_size then record s { overflow = true; scheduled = true } else record s {
        queue = set s.queue ((s.head + s.count) % queue_size) (queued event);
        count = s.count + 1;
        scheduled = true;
      }

  -- `queue_[head_].expand()`
  unfoldable pub front : Adapter n → Event
  front s = expand (get_or s.queue s.head empty_slot)

  -- The steps of drain that take the first event off.
  unfoldable pub advance : Adapter n → Adapter n
  advance s = record s { head = (s.head + 1) % queue_size; count = s.count - 1 }
