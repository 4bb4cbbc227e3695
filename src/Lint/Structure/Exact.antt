-- ===== src/Lint/Structure/Exact.antt =====
-- The structural check has nothing to say of a scope exactly where the scope is well-formed.
