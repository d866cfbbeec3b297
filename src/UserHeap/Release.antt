-- ===== src/UserHeap/Release.antt =====
-- `free` as a whole.
