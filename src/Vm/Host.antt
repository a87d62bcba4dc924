-- ===== src/Vm/Host.antt =====
-- The UNIX files behind an `OpenFile` of the stub file system (filesys/openfile.h, FILESYS_STUB),
-- which seeks and then calls read(2) or write(2). The two calls are parameters of the model, and so
-- is what is left of a header in memory where they read too few bytes.
use osproject.Base.{ℕ, List}

pub record Host : Type 0 where
  -- The bytes that reading `n` bytes at an offset delivers.
  pub read_at : List ℕ → ℕ → ℕ → List ℕ
  -- The file after bytes have been written at an offset.
  pub write_at : List ℕ → ℕ → List ℕ → List ℕ
  -- The bytes of a local `NoffHeader` that nothing has been read into.
  pub unset : ℕ → ℕ
