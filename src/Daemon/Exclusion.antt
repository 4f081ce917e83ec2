-- ===== src/Daemon/Exclusion.antt =====
-- At most one daemon serves at the socket, while one starts at a time.
