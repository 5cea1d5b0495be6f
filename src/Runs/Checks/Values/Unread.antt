-- ===== src/Runs/Checks/Values/Unread.antt =====
-- What the check of a CPU list lets through.
