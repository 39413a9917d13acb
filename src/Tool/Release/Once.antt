-- ===== src/Tool/Release/Once.antt =====
-- A run frees no block twice, and none that `malloc` has not returned.
