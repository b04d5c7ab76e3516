-- ===== src/Fs/Read.antt =====
-- `read_data` against the file as a sequence of bytes.
use cl_os.Prelude.{
  ℕ, zero, suc, ◌+◌, ◌-◌, ◌*◌, ◌/◌, ◌%◌, ◌≤◌, ◌<◌, ◌≡◌, ap, ◌≢◌, inl, inr, Mem, arith, ltb,
  if◌then◌else◌, ◌==◌, pos, minus_one, min, lt_or_ge, Bool-cases, ◌⊎◌,
}
use cl_os.Fs.Image.{inode_cnt, inode_length, data_block, datablock_adrs, bytes_per_block}
use cl_os.Fs.{Flow, returned, running, copy_block, copy_blocks, result, read_data}
use cl_os.Fs.Block.{blit, copy_block_lem}

module _ (bblock : Mem) (inode : ℕ) where
  -- Byte `p` of the file: a byte of the data block that the inode lists for it.
  abbrev pub file_byte : ℕ → ℕ
  file_byte p =
      bblock (
        datablock_adrs bblock (data_block bblock inode (p / bytes_per_block)) + p % bytes_per_block)

  -- Every block that holds a byte of the file has a number other than 0, which `read_data` takes
  -- for the end of the file.
  abbrev pub IsAllocated : Type 0
  IsAllocated =
      (b : ℕ) → b * bytes_per_block < inode_length bblock inode → data_block bblock inode b ≢ 0

  file_byte_at :
      (p b r : ℕ)
      → p ≡ 4096 * b + r
      → r < 4096
      → file_byte p ≡ bblock (datablock_adrs bblock (data_block bblock inode b) + r)
  file_byte_at p b r e h =
      let q : p / 4096 ≡ b = omega arith in let m : p % 4096 ≡ r = omega arith in rw (q, m)

  -- The buffer holds the first `n` bytes of the file from `off` on, and is `buf` behind them.
  abbrev pub Holds : Mem → ℕ → ℕ → Mem → Type 0
  Holds buf off n b = (m : ℕ) → b m ≡ (if ltb m n then file_byte (off + m) else buf m)

  abbrev Done : Mem → ℕ → ℕ → Flow → Type 0
  Done buf off c (returned n b) = (n ≡ c) × Holds buf off c b
  Done buf off c (running n b) = (n ≡ c) × Holds buf off c b

  -- The block number `bl` from its byte `j` on lies in the file from `off + n` on.
  blit-Holds :
      (buf : Mem) (off bl j n c : ℕ) (b : Mem)
      → off + n ≡ 4096 * bl + j
      → j + c ≤ 4096
      → Holds buf off n b
      → Holds buf off
          (n + c)
          (blit bblock (datablock_adrs bblock (data_block bblock inode bl) + j) n c b)
  blit-Holds buf off bl j n c b e h hold m =
      ground (arith, hold m, file_byte_at (off + m) bl (j + (m - n)), address)
    where
      adrs : ℕ
      adrs = datablock_adrs bblock (data_block bblock inode bl)

      address : bblock (adrs + j + (m - n)) ≡ bblock (adrs + (j + (m - n)))
      address = ap bblock (omega arith)

  module _ (buf : Mem) (off length : ℕ) (inside : off + length ≤ inode_length bblock inode)
      (alloc : IsAllocated) where
    -- The bytes that `rounds` blocks give, the first from `off % 4096` on.
    abbrev room : ℕ → ℕ
    room rounds = 4096 * rounds - off % 4096

    -- `n` bytes are there when the round `i` begins.
    abbrev IsReady : ℕ → ℕ → Type 0
    IsReady i n = (n ≡ room i) × (n ≤ length)

    copy_blocks-Done :
        (k i n rounds : ℕ) (b : Mem)
        → i + k ≡ rounds
        → 0 < rounds
        → IsReady i n
        → Holds buf off n b
        → Done buf off (min length (room rounds)) (copy_blocks bblock inode off length i k n b)
    unfolding copy_blocks
    copy_blocks-Done zero i n rounds b e p r h = ground arith
    copy_blocks-Done (suc k) i n rounds b e p r h = elim (Bool-cases (cur == 0)) [
      | inl z ↦ ground (arith, z, used, h)
      | inr nz ↦ elim (lt_or_ge (length - n) (bytes_per_block - first)) [
        | inl l ↦ ground (arith, nz, block, placed (length - n) (omega (arith, small)))
        | inr g ↦ ground (
          arith,
          nz,
          block,
          copy_blocks-Done k (i + 1) (n + (bytes_per_block - first)) rounds _ (omega arith) p
              (ground arith) (placed (bytes_per_block - first) (omega (arith, small))),
        )
      ]
    ]
      where
        first : ℕ
        first = if i == 0 then off % bytes_per_block else 0

        cur : ℕ
        cur = data_block bblock inode (off / bytes_per_block + i)

        here : off + n ≡ 4096 * (off / 4096 + i) + first
        here = ground arith

        small : first < 4096
        small = ground arith

        used : n < length → cur ≢ 0
        used l = alloc (off / bytes_per_block + i) (omega (arith, here))

        block :
            copy_block bblock
              (datablock_adrs bblock cur)
              (inode_length bblock inode)
              length
              first
              (bytes_per_block - first)
              n
              b
            ≡ (if ltb (length - n) (bytes_per_block - first)
                then returned length
                    (blit bblock (datablock_adrs bblock cur + first) n (length - n) b)
                else running
                    (n + (bytes_per_block - first))
                    (blit bblock (datablock_adrs bblock cur + first) n (bytes_per_block - first) b))
        block =
            copy_block_lem bblock (datablock_adrs bblock cur) (inode_length bblock inode) length
              (omega arith) first (bytes_per_block - first) n b r.1

        placed :
            (c : ℕ)
            → first + c ≤ 4096
            → Holds buf off (n + c) (blit bblock (datablock_adrs bblock cur + first) n c b)
        placed c l = blit-Holds buf off (off / 4096 + i) first n c b here l h

-- How many bytes `read_data` returns: at most `length`, at most what is left of the file, and at
-- most what `length / 4096 + 1` blocks hold from the offset in the first of them on.
abbrev pub read_count : ℕ → ℕ → ℕ → ℕ
read_count file_length off length =
    let want = min length (file_length - off) in
    min want (bytes_per_block * (want / bytes_per_block + 1) - off % bytes_per_block)

result-Done :
    (bblock : Mem) (inode : ℕ) (buf : Mem) (off c : ℕ) (f : Flow)
    → Done bblock inode buf off c f
    → ((result f).0 ≡ pos c) × Holds bblock inode buf off c (result f).1
result-Done bblock inode buf off c (returned n b) (e, h) = (ap pos e, h)
result-Done bblock inode buf off c (running n b) (e, h) = (ap pos e, h)

-- The two loops, begun with an empty buffer.
read_blocks :
    (bblock : Mem) (inode : ℕ) (buf : Mem) (off want : ℕ)
    → off + want ≤ inode_length bblock inode
    → IsAllocated bblock inode
    → let f = copy_blocks bblock inode off want 0 (want / 4096 + 1) 0 buf in
      let c = min want (4096 * (want / 4096 + 1) - off % 4096) in
      ((result f).0 ≡ pos c) × Holds bblock inode buf off c (result f).1
read_blocks bblock inode buf off want h alloc =
    result-Done bblock inode buf off _ (copy_blocks bblock inode off want 0 (want / 4096 + 1) 0 buf)
      (copy_blocks-Done bblock inode buf off want h alloc (want / 4096 + 1) 0 0 (want / 4096 + 1)
        buf (omega arith) (omega arith) (omega arith) (λ m. ground arith))

module _ (bblock : Mem) (inode off : ℕ) (buf : Mem) (length : ℕ) where
  -- `read_data` inside a file whose blocks are allocated: it returns `read_count` and puts exactly
  -- so many bytes of the file, from the offset on, into the buffer, which is unchanged behind them.
  pub read_data_lem :
      inode < inode_cnt bblock
      → off < inode_length bblock inode
      → 0 < length
      → IsAllocated bblock inode
      → let (r, b) = read_data bblock inode off buf length in
        let c = read_count (inode_length bblock inode) off length in
        (r ≡ pos c) × Holds bblock inode buf off c b
  unfolding read_data
  read_data_lem hi ho hl alloc =
      ground (arith, read_blocks bblock inode buf off want (ground arith) alloc)
    where
      want : ℕ
      want =
          if ltb (inode_length bblock inode - off) length
          then inode_length bblock inode - off
          else length

  -- `read_data` returns -1, the buffer unchanged, for an inode out of range and for an offset
  -- behind the end of the file.
  pub read_data_refused :
      (inode_cnt bblock ≤ inode) ⊎ (inode_length bblock inode < off)
      → read_data bblock inode off buf length ≡ (minus_one, buf)
  unfolding read_data
  read_data_refused h = ground arith

  -- It returns 0, the buffer unchanged, at the end of the file and for a length of 0.
  pub read_data_end :
      inode < inode_cnt bblock
      → off ≤ inode_length bblock inode
      → (off ≡ inode_length bblock inode) ⊎ (length ≡ 0)
      → read_data bblock inode off buf length ≡ (pos 0, buf)
  unfolding read_data
  read_data_end hi ho h = ground arith
