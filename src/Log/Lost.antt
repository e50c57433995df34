-- ===== src/Log/Lost.antt =====
-- What is left of a line of the log.
use mathlib.Core.Option
