-- ===== src/Tests/ChangeRuns.antt =====
-- The services after a shutdown and after changes of a method, and the temporary files.
