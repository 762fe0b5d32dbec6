-- ===== src/Rw11/Disk/Buffer.antt =====
-- tools/src/librw11/Rw11VirtDiskBuffer.{cpp,ipp}: the buffer of one block.
use w.Base.{ℕ, ◌+◌, ◌-◌, ◌%◌, ◌^◌, List, length, take, replicate, ◌==◌, if◌then◌else◌}

pub record Buffer : Type 0 where
  pub bytes : List ℕ
  pub n_write : ℕ

unfoldable pub create : ℕ → Buffer
create blksize = record { bytes = replicate blksize 0; n_write = 0 }

-- The count of writes stops at its maximum.
unfoldable pub write : List ℕ → Buffer → Buffer
write ds b =
    let n = (b.n_write + 1) % 2 ^ 32 in
    record {
      bytes = take (length b.bytes) ds;
      n_write = if n == 0 then (n + (2 ^ 32 - 1)) % 2 ^ 32 else n;
    }
