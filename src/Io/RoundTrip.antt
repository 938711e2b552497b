-- ===== src/Io/RoundTrip.antt =====
-- A read through nvfuse_readfile_core() of what nvfuse_writefile_core() wrote.
