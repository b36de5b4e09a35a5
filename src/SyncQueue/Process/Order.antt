-- ===== src/SyncQueue/Process/Order.antt =====
-- SyncQueue.process: the order of the `_id`s.
