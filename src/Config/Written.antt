-- ===== src/Config/Written.antt =====
-- From the characters of a configuration to the values that a program reads from it.
