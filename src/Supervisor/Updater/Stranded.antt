-- ===== src/Supervisor/Updater/Stranded.antt =====
-- apply-bundle.mjs and rollback.mjs: updates that leave the node without a working worker.
