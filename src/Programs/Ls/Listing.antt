-- ===== src/Programs/Ls/Listing.antt =====
-- `ls` on the calls of the kernel: `dir_read` behind the descriptor of the directory, and `tWrite` behind descriptor 1.
use mathlib.Core.Path.{subst}
use cl_os.Prelude.{
  ℕ, zero, suc, ◌+◌, ◌<◌, ◌≡◌, ◌≢◌, refl, ap, sym, ◌∙◌, ◌==◌, ltb, if◌then◌else◌, ℤ, pos, negsuc,
  minus_one, Mem, IsBytes, store, some, arith, inl, inr, ==_iff, eq_or_ne,
}
use cl_os.Prelude.Literal.{literal}
use cl_os.Strings.Copy.{char_of}
use cl_os.Pcb.{FileArray, FileStruct, open_flag}
use cl_os.Fs.Image.{file_name, type_dir}
use cl_os.Fs.Ops.{dir_read}
use cl_os.Fs.Ops.Position.{dir_read_lem, dir_read_end}
use cl_os.Terminal.{write_from, t_write}
use cl_os.Programs.{Calls}
use cl_os.Programs.Cat.{Io, write_terminal}
use cl_os.Programs.Ls.{ls_loop, ls}

-- `dir_read` on the descriptors of the process.
unfoldable pub read_directory : {S : Type 0} → Mem → ℤ → Mem → ℕ → Io S → ℤ × Mem × Io S
read_directory bblock (pos fd) buf nbytes s =
    let (r, b, files') = dir_read bblock s.files fd buf nbytes in
    (r, b, record s { files = files' })
read_directory bblock (negsuc n) buf nbytes s = (minus_one, buf, s)

-- What `ls` needs of its descriptor: the open directory at entry `d`, with `k` entries that have names.
pub record IsListable (bblock : Mem) (f : FileStruct) (d k : ℕ) : Type 0 where
  pub directory : f.flags ≡ type_dir + open_flag
  pub at_entry : f.file_position ≡ d
  pub named : (j : ℕ) → j < k → file_name bblock (d + j) 0 ≢ 0
  pub ended : file_name bblock (d + k) 0 ≡ 0

module _ {S : Type 0} (putc : ℕ → S → S) where
  -- The characters of a string from index `i` on up to its NUL, at most `k` of them.
  abbrev pub put_string : Mem → ℕ → ℕ → S → S
  put_string f i zero s = s
  put_string f i (suc k) s =
      let rest = put_string f (i + 1) k (putc (f i) s) in if f i == 0 then s else rest

  put_string_cong :
      (f g : Mem) (i k : ℕ) (s : S)
      → ((j : ℕ) → j < i + k → f j ≡ g j)
      → put_string f i k s ≡ put_string g i k s
  put_string_cong f g i zero s h = refl
  put_string_cong f g i (suc k) s h =
      let e : f i ≡ g i = h i (omega arith) in
      rw (e, put_string_cong f g (i + 1) k (putc (g i) s) (λ j p. h j (omega arith))) refl

  put_string_nul : (f : Mem) (i k : ℕ) (s : S) → f i ≡ 0 → put_string f i k s ≡ s
  put_string_nul f i zero s z = refl
  put_string_nul f i (suc k) s z = ground arith

  -- A buffer of 33 bytes with a string padded with NULs and a newline at its end.
  line_lem :
      (buf : Mem) (k i w : ℕ) (s : S)
      → i + k ≡ 32
      → buf 32 ≡ b'\n'
      → ((j : ℕ) → j + 1 < 32 → buf j ≡ 0 → buf (j + 1) ≡ 0)
      → (write_from putc buf 33 i (suc k) w s).1 ≡ putc b'\n' (put_string buf i k s)
  unfolding write_from
  line_lem buf zero i w s e n h = ground (arith, ap buf here)
    where
      here : i ≡ 32
      here = omega (arith, e)
  line_lem buf (suc k) i w s e n h = elim (eq_or_ne (buf i) 0) [
    | inl z ↦ ground (arith, line_lem buf k (i + 1) w s (omega arith) n h, over k (omega arith) z)
    | inr nz ↦ ground (arith, line_lem buf k (i + 1) (w + 1) (putc (buf i) s) (omega arith) n h)
  ]
    where
      over : (k : ℕ) → i + suc k ≡ 32 → buf i ≡ 0 → put_string buf (i + 1) k s ≡ s
      over zero e z = refl
      over (suc k) e z = put_string_nul buf (i + 1) (suc k) s (h i (omega arith) z)

  -- The names of the entries of the directory from `d` on, `k` of them, each with a newline.
  abbrev pub list_names : Mem → ℕ → ℕ → S → S
  list_names bblock d zero s = s
  list_names bblock d (suc k) s =
      list_names bblock (d + 1) k (putc b'\n' (put_string (char_of (file_name bblock d)) 0 32 s))

  string_line :
      (name : Mem) (buf : Mem) (s : S)
      → ((i : ℕ) → i < 33 → buf i ≡ (if i == 32 then b'\n' else char_of name i))
      → (t_write putc buf 33 s).1 ≡ putc b'\n' (put_string (char_of name) 0 32 s)
  unfolding t_write
  string_line name buf s h =
      line_lem buf 32 0 0 s refl (h 32 (omega arith))
        (λ j p z. ground (arith, h j (omega arith), h (j + 1) (omega arith)))
      ∙ ap (putc b'\n')
          (put_string_cong buf (char_of name) 0 32 s (λ j p. ground (arith, h j (omega arith))))

module _ {S : Type 0} (calls : Calls S) where
  open calls use {read, write}

  ls_loop_end :
      (fuel : ℕ) (fd : ℤ) (buf buf' : Mem) (s s' : S)
      → read fd buf 32 s ≡ (pos 0, buf', s')
      → ls_loop calls (suc fuel) fd buf s ≡ some (0, s')
  unfolding ls_loop
  ls_loop_end fuel fd buf buf' s s' e = rw (e, ls_loop, e) refl

  ls_loop_more :
      (fuel w : ℕ) (fd : ℤ) (buf buf' : Mem) (s s' s'' : S)
      → read fd buf 32 s ≡ (pos 32, buf', s')
      → write (pos 1) (store buf' 32 b'\n') (pos 33) s' ≡ (pos w, s'')
      → ls_loop calls (suc fuel) fd buf s ≡ ls_loop calls fuel fd (store buf' 32 b'\n') s''
  unfolding ls_loop
  ls_loop_more fuel w fd buf buf' s s' s'' e e' = rw (e, ls_loop, e, e') refl

module _ {S : Type 0} (putc : ℕ → S → S) (bblock : Mem) (bytes : IsBytes bblock) (fd : ℕ) where
  ls_loop_lem :
      (calls : Calls (Io S))
      → calls.read ≡ read_directory bblock
      → calls.write ≡ write_terminal putc bblock
      → (fuel d k : ℕ) (buf : Mem) (s : Io S) → IsListable bblock (s.files fd) d k
      → k < fuel
      → (files' : FileArray) × (ls_loop calls fuel (pos fd) buf s
          ≡ some (0, record { files = files'; device = list_names putc bblock d k s.device }))
  unfolding read_directory write_terminal
  ls_loop_lem calls er ew zero d k buf s h l = absurd (omega arith)
  ls_loop_lem calls er ew (suc fuel) d zero buf s h l = (
    s.files,
    ls_loop_end calls fuel (pos fd) buf buf s s (
        ap (λ read. read (pos fd) buf 32 s) er
        ∙ ap (λ (r : ℤ × Mem × FileArray). (r.0, r.1, record s { files = r.2 }))
            (dir_read_end bblock s.files fd buf 32 bytes (omega arith) h.directory
              (ap (λ (p : ℕ). file_name bblock p 0) here ∙ h.ended))),
  )
    where
      here : (s.files fd).file_position ≡ d + 0
      here = omega (arith, h.at_entry)
  ls_loop_lem calls er ew (suc fuel) d (suc k) buf s h l =
      let got = dir_read bblock s.files fd buf 32 in
      let (r, holds, others) =
        dir_read_lem bblock s.files fd buf 32 bytes (omega arith) h.directory
          (λ z. h.named 0 (omega arith) (ap (λ (p : ℕ). file_name bblock p 0) (sym here) ∙ z)) in
      let s' : Io S = record s { files = got.2 } in
      let nf : got.2 fd ≡ record (s.files fd) { file_position = (s.files fd).file_position + 1 } =
        others fd
        ∙ ap
            (λ b.
              if b
              then record (s.files fd) { file_position = (s.files fd).file_position + 1 }
              else s.files fd)
            ((==_iff fd fd).1 refl) in
      let line = store got.1 32 b'\n' in
      let out = t_write putc line 33 s.device in
      let s'' : Io S = record s' { device = out.1 } in
      let (files', e) =
        ls_loop_lem calls er ew fuel (d + 1) k line s''
          (subst (λ g. IsListable bblock g (d + 1) k) (sym nf)
            (record {
              directory = h.directory;
              at_entry = omega (arith, h.at_entry);
              named = λ j p z.
                  h.named (suc j) (omega arith) (ap (λ (p : ℕ). file_name bblock p 0) (next j) ∙ z);
              ended = ap (λ (p : ℕ). file_name bblock p 0) (sym (next k)) ∙ h.ended;
            }))
          (omega arith) in
      (
        files',
        ls_loop_more calls fuel out.0 (pos fd) buf got.1 s s' s''
              (ap (λ read. read (pos fd) buf 32 s) er ∙ ap (λ (x : ℤ). (x, got.1, s')) r)
              (ap (λ write. write (pos 1) line (pos 33) s') ew)
            ∙ e
            ∙ ap
                (λ x.
                  some (0, record { files = files'; device = list_names putc bblock (d + 1) k x }))
                (string_line putc (file_name bblock d) line s.device
                  (λ i p. chars i got.1 p holds)),
      )
    where
      here : (s.files fd).file_position ≡ d + 0
      here = omega (arith, h.at_entry)

      next : (j : ℕ) → d + suc j ≡ d + 1 + j
      next j = omega arith

      chars :
          (i : ℕ) (b : Mem)
          → i < 33
          → ((i : ℕ)
              → b i ≡ (
                  if ltb i 32
                  then char_of (file_name bblock (s.files fd).file_position) i
                  else buf i))
          → store b 32 b'\n' i ≡ (if i == 32 then b'\n' else char_of (file_name bblock d) i)
      chars i b p h' =
          ground (arith, h' i, ap (λ (p : ℕ). char_of (file_name bblock p) i) h.at_entry)

-- `ls` where "." opens as the directory, at an entry from which on `k` entries have names and the next one has
-- none, on the kernel's reads of the directory and writes to the terminal, with more than `k` rounds of fuel: it
-- ends with status 0, and has put the names of these entries on the terminal, in their order, each
-- without the NULs that pad it and with a newline.
pub ls_lem :
    {S : Type 0} (putc : ℕ → S → S) (bblock : Mem) (calls : Calls (Io S)) (fuel fd d k : ℕ)
    (buf : Mem) (s s1 : Io S)
    → IsBytes bblock
    → calls.read ≡ read_directory bblock
    → calls.write ≡ write_terminal putc bblock
    → calls.open_file (literal ".") s ≡ (pos fd, s1)
    → IsListable bblock (s1.files fd) d k
    → k < fuel
    → (files' : FileArray) × (ls calls fuel buf s
        ≡ some (0, record { files = files'; device = list_names putc bblock d k s1.device }))
unfolding ls
ls_lem putc bblock calls fuel fd d k buf s s1 bytes er ew eo h l =
    let (files', e) = ls_loop_lem putc bblock bytes fd calls er ew fuel d k buf s1 h l in
    (files', rw (eo, ls) e)
