-- ===== src/Programs/Cat.antt =====
-- `cat` on the calls of the kernel: `reg_file_read` behind descriptor `fd`, and `tWrite` behind descriptor 1.
use mathlib.Core.Path.{subst}
use cl_os.Prelude.{
  ℕ, zero, suc, ◌+◌, ◌-◌, ◌≤◌, ◌<◌, ◌≡◌, ◌≢◌, refl, ap, sym, ◌∙◌, if◌then◌else◌, ℤ, pos, negsuc,
  minus_one, Mem, some, arith, inl, ==_iff,
}
use cl_os.Pcb.{FileArray, FileStruct, open_flag, set_file}
use cl_os.Fs.Image.{inode_cnt, inode_length, type_file}
use cl_os.Fs.Read.{IsAllocated, file_byte, read_count, read_data_end}
use cl_os.Fs.Ops.{reg_file_read, advance}
use cl_os.Fs.Ops.Position.{reg_file_read_lem}
use cl_os.Terminal.{t_write}
use cl_os.Programs.{Calls, cat_loop, cat}
use cl_os.Programs.Output.{put_bytes, put_bytes_cong, put_bytes_add, t_write_full}

-- The descriptors of the process, and what the terminal writes to.
pub record Io (S : Type 0) : Type 0 where
  pub files : FileArray
  pub device : S

-- What `cat` needs of its descriptor, with `k` bytes left behind the position.
pub record IsReadable (bblock : Mem) (f : FileStruct) (k : ℕ) : Type 0 where
  pub regular : f.flags ≡ type_file + open_flag
  pub inode_there : f.inode < inode_cnt bblock
  pub left : f.file_position + k ≡ inode_length bblock f.inode
  pub allocated : IsAllocated bblock f.inode
  pub plain : (p : ℕ) → p < inode_length bblock f.inode → file_byte bblock f.inode p ≢ 0

zero_plus : (n : ℕ) → 0 + n ≡ n
zero_plus n = omega arith

-- The calls as the kernel has them, where `fd` is an open regular file and descriptor 1 the terminal.
module _ {S : Type 0} (putc : ℕ → S → S) (bblock : Mem) where
  unfoldable pub read_file : ℤ → Mem → ℕ → Io S → ℤ × Mem × Io S
  read_file (pos fd) buf nbytes s =
      let (r, b, files') = reg_file_read bblock s.files fd buf nbytes in
      (r, b, record s { files = files' })
  read_file (negsuc n) buf nbytes s = (minus_one, buf, s)

  unfoldable pub write_terminal : ℤ → Mem → ℤ → Io S → ℤ × Io S
  write_terminal fd buf (pos n) s =
      let (w, d) = t_write putc buf n s.device in (pos w, record s { device = d })
  write_terminal fd buf (negsuc n) s = (pos 0, s)

module _ {S : Type 0} (calls : Calls S) where
  open calls use {read, write}

  cat_loop_end :
      (fuel size : ℕ) (fd : ℤ) (buf buf' : Mem) (s s' : S)
      → read fd buf size s ≡ (pos 0, buf', s')
      → cat_loop calls (suc fuel) size fd buf s ≡ some (0, s')
  unfolding cat_loop
  cat_loop_end fuel size fd buf buf' s s' e = rw (e, cat_loop) refl

  cat_loop_more :
      (fuel size c w : ℕ) (fd : ℤ) (buf buf' : Mem) (s s' s'' : S)
      → 0 < c
      → read fd buf size s ≡ (pos c, buf', s')
      → write (pos 1) buf' (pos c) s' ≡ (pos w, s'')
      → cat_loop calls (suc fuel) size fd buf s ≡ cat_loop calls fuel size fd buf' s''
  unfolding cat_loop
  cat_loop_more fuel size zero w fd buf buf' s s' s'' p e e' = absurd (omega arith)
  cat_loop_more fuel size (suc c) w fd buf buf' s s' s'' p e e' =
      rw (e, cat_loop, e', cat_loop) refl

module _ {S : Type 0} (putc : ℕ → S → S) (bblock : Mem) (size fd : ℕ) where
  read_file_end :
      (buf : Mem) (s : Io S)
      → (s.files fd).flags ≡ type_file + open_flag
      → (s.files fd).inode < inode_cnt bblock
      → (s.files fd).file_position ≡ inode_length bblock (s.files fd).inode
      → read_file putc bblock (pos fd) buf size s
        ≡ (pos 0, buf, record s { files = set_file s.files fd (advance (s.files fd) (pos 0)) })
  unfolding read_file reg_file_read
  read_file_end buf s hf hi e =
      let f = s.files fd in
      rw
        (
          read_data_end bblock f.inode f.file_position buf size hi (omega (arith, e)) (inl e),
          reg_file_read,
          (==_iff _ _).1 hf,
        )
        refl

  write_terminal_full :
      (buf : Mem) (c : ℕ) (s : Io S)
      → ((j : ℕ) → j < c → buf j ≢ 0)
      → write_terminal putc bblock (pos 1) buf (pos c) s
        ≡ (pos c, record s { device = put_bytes putc buf 0 c s.device })
  unfolding write_terminal
  write_terminal_full buf c s h =
      ap (λ r. (pos r.0, record s { device = r.1 })) (t_write_full putc buf c s.device h)

  abbrev shows : FileStruct → ℕ → S → S
  shows f k d = put_bytes putc (file_byte bblock f.inode) f.file_position k d

  abbrev moved : FileStruct → ℕ → FileStruct
  moved f c = record f { file_position = f.file_position + c }

  -- A round of the loop where bytes are left: it reads and writes `c` of them.
  cat_round :
      (calls : Calls (Io S))
      → calls.read ≡ read_file putc bblock
      → calls.write ≡ write_terminal putc bblock
      → (fuel k : ℕ) (buf : Mem) (s : Io S) → 0 < size
      → IsReadable bblock (s.files fd) (suc k)
      → (s'' : Io S) × (c : ℕ) × IsReadable bblock (s''.files fd) (suc k - c)
        × (buf' : Mem) × (cat_loop calls (suc fuel) size (pos fd) buf s
            ≡ cat_loop calls fuel size (pos fd) buf' s'')
        × ((0 < c)
            × (c ≤ suc k)
            × (s''.files fd ≡ moved (s.files fd) c)
            × (s''.device ≡ shows (s.files fd) c s.device))
  unfolding read_file
  cat_round calls er ew fuel k buf s p h =
      let f = s.files fd in
      let got = reg_file_read bblock s.files fd buf size in
      let c = read_count (inode_length bblock f.inode) f.file_position size in
      let (r, q, holds, others) =
        reg_file_read_lem bblock s.files fd buf size h.regular h.inode_there (omega (arith, h.left))
          p h.allocated in
      let below : c ≤ suc k = omega (arith, h.left) in
      let s' : Io S = record s { files = got.2 } in
      let s'' : Io S = record s' { device = put_bytes putc got.1 0 c s.device } in
      let bytes : (j : ℕ) → j < c → got.1 j ≡ file_byte bblock f.inode (f.file_position + j) =
        λ j l. ground (arith, holds j) in
      let nf : s''.files fd ≡ moved f c =
        others fd ∙ ap (λ b. if b then moved f c else s.files fd) ((==_iff fd fd).1 refl) in
      (
        s'',
        c,
        subst (λ g. IsReadable bblock g (suc k - c)) (sym nf)
            (record {
              regular = h.regular;
              inode_there = h.inode_there;
              left = omega (arith, h.left);
              allocated = h.allocated;
              plain = h.plain;
            }),
        got.1,
        cat_loop_more calls fuel size c c (pos fd) buf got.1 s s' s'' q
            (ap (λ read. read (pos fd) buf size s) er ∙ ap (λ x. (x, got.1, s')) r)
            (ap (λ write. write (pos 1) got.1 (pos c) s') ew
              ∙ write_terminal_full got.1 c s' (λ j l z.
                h.plain (f.file_position + j) (omega (arith, h.left)) (sym (bytes j l) ∙ z))),
        (
          q,
          below,
          nf,
          put_bytes_cong putc got.1 (file_byte bblock f.inode) c 0 f.file_position s.device
              (λ j l. ap got.1 (zero_plus j) ∙ bytes j l),
        ),
      )

  cat_loop_lem :
      (calls : Calls (Io S))
      → calls.read ≡ read_file putc bblock
      → calls.write ≡ write_terminal putc bblock
      → (fuel k : ℕ) (buf : Mem) (s : Io S) → 0 < size
      → IsReadable bblock (s.files fd) k
      → k < fuel
      → (files' : FileArray) × (cat_loop calls fuel size (pos fd) buf s
          ≡ some (0, record { files = files'; device = shows (s.files fd) k s.device }))
  cat_loop_lem calls er ew zero k buf s p h l = absurd (omega arith)
  cat_loop_lem calls er ew (suc fuel) zero buf s p h l =
      let f = s.files fd in
      (
        set_file s.files fd (advance f (pos 0)),
        cat_loop_end calls fuel size (pos fd) buf buf s _ (
            ap (λ read. read (pos fd) buf size s) er
            ∙ read_file_end buf s h.regular h.inode_there (omega (arith, h.left))),
      )
  cat_loop_lem calls er ew (suc fuel) (suc k) buf s p h l =
      let (s'', c, fresh, buf', step, (q, below, nf, d)) = cat_round calls er ew fuel k buf s p h in
      let (files', e) = cat_loop_lem calls er ew fuel (suc k - c) buf' s'' p fresh (omega arith) in
      (
        files',
        step
            ∙ e
            ∙ ap (λ d. some (0, record { files = files'; device = d }))
                (ap (λ f. shows f (suc k - c) s''.device) nf
                  ∙ ap (shows (moved (s.files fd) c) (suc k - c)) d
                  ∙ put_bytes_add putc (file_byte bblock (s.files fd).inode) c (suc k - c)
                      (s.files fd).file_position (suc k) s.device (omega arith)),
      )

-- `cat` whose argument names a file that opens, an allocated regular file without NULs with `k`
-- bytes behind the position of its descriptor, on the kernel's reads of regular files and writes to
-- the terminal, with more than `k` rounds of fuel: it ends with status 0 and has put the bytes of
-- the file from that position to the end on the terminal, each once and in their order, however few
-- of them the single reads return.
pub cat_lem :
    {S : Type 0} (putc : ℕ → S → S) (bblock : Mem) (calls : Calls (Io S)) (fuel fd k : ℕ)
    (buf name : Mem) (s s1 s2 : Io S)
    → calls.read ≡ read_file putc bblock
    → calls.write ≡ write_terminal putc bblock
    → calls.getargs buf 1024 s ≡ (pos 0, name, s1)
    → calls.open_file name s1 ≡ (pos fd, s2)
    → IsReadable bblock (s2.files fd) k
    → k < fuel
    → (files' : FileArray) × (cat calls fuel buf s
        ≡ some (
          0,
          record {
            files = files';
            device =
                put_bytes putc
                  (file_byte bblock (s2.files fd).inode)
                  (s2.files fd).file_position
                  k
                  s2.device;
          },
        ))
unfolding cat
cat_lem putc bblock calls fuel fd k buf name s s1 s2 er ew eg eo h l =
    let (files', e) =
      cat_loop_lem putc bblock 1024 fd calls er ew fuel k name s2 (omega arith) h l in
    (files', rw (eg, cat, eo, cat) e)
