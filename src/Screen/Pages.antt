-- ===== src/Screen/Pages.antt =====
-- What the copying loops of `screenChange` keep, and show, of the pages of the terminals.
use cl_os.Prelude.{
  ℕ, zero, suc, ◌+◌, ◌*◌, ◌≤◌, ◌<◌, ◌≡◌, ◌≢◌, refl, leb, ltb, ◌&&◌, if◌then◌else◌, Mem, store,
  arith,
}
use cl_os.Screen.{video, video_term, attrib, put_cell, keep_cells, show_cells}
use cl_os.Screen.Cells.{char, attr, keep_cells_lem, show_cells_lem}

keep_cells_other :
    (mem : Mem) (t u i k j : ℕ)
    → u ≢ t
    → i + k ≤ 2000
    → j < 2000
    → char (keep_cells mem t i k) (video_term u) j ≡ char mem (video_term u) j
unfolding keep_cells
keep_cells_other mem t u i zero j ne h l = refl
keep_cells_other mem t u i (suc k) j ne h l = ground (
  arith,
  keep_cells_other (store mem (video_term t + 2 * i) (mem (video + 2 * i))) t u (i + 1) k j ne
      (omega arith) l,
)

show_cells_page :
    (mem : Mem) (t u i k j : ℕ)
    → i + k ≤ 2000
    → char (show_cells mem t i k) (video_term u) j ≡ char mem (video_term u) j
unfolding show_cells
show_cells_page mem t u i zero j h = refl
show_cells_page mem t u i (suc k) j h = ground (
  arith,
  show_cells_page (put_cell mem video i (mem (video_term t + 2 * i))) t u (i + 1) k j (omega arith),
)

attr-show_cells :
    (mem : Mem) (t i k j : ℕ)
    → attr (show_cells mem t i k) video j
      ≡ (if leb i j && ltb j (i + k) then attrib else attr mem video j)
unfolding show_cells
attr-show_cells mem t i zero j = ground arith
attr-show_cells mem t i (suc k) j =
    ground
      (arith, attr-show_cells (put_cell mem video i (mem (video_term t + 2 * i))) t (i + 1) k j)

-- The memory when terminal `t` is shown in place of `c`.
abbrev pub switched : ℕ → ℕ → Mem → Mem
switched c t mem = show_cells (keep_cells mem c 0 2000) t 0 2000

module _ (c t n : ℕ) (mem : Mem) (cl : 1 ≤ c) (ch : c ≤ 3) (tl : 1 ≤ t) (th : t ≤ 3) (ne : t ≢ c)
    (small : n ≤ 2000) where
  shown_at :
      (j : ℕ)
      → j < n
      → char (show_cells (keep_cells mem c 0 n) t 0 n) video j ≡ char mem (video_term t) j
  shown_at j l = ground (
    arith,
    show_cells_lem (keep_cells mem c 0 n) t 0 n j tl th (omega arith) (omega arith),
    keep_cells_other mem c t 0 n j ne (omega arith) (omega arith),
  )

  kept_at :
      (j : ℕ)
      → j < n
      → char (show_cells (keep_cells mem c 0 n) t 0 n) (video_term c) j ≡ char mem video j
  kept_at j l = ground (
    arith,
    show_cells_page (keep_cells mem c 0 n) t c 0 n j (omega arith),
    (keep_cells_lem mem c 0 n cl ch (omega arith)).1 j (omega arith),
  )

  attr_at : (j : ℕ) → j < n → attr (show_cells (keep_cells mem c 0 n) t 0 n) video j ≡ attrib
  attr_at j l = ground (arith, attr-show_cells (keep_cells mem c 0 n) t 0 n j)

-- A switch from terminal `c` to terminal `t` shows the page of `t`, in the plain attribute, and keeps the characters that
-- were visible in the page of `c`.
pub switched_lem :
    (c t : ℕ) (mem : Mem)
    → 1 ≤ c
    → c ≤ 3
    → 1 ≤ t
    → t ≤ 3
    → t ≢ c
    → (j : ℕ) → j < 2000
    → (char (switched c t mem) video j ≡ char mem (video_term t) j)
      × (char (switched c t mem) (video_term c) j ≡ char mem video j)
      × (attr (switched c t mem) video j ≡ attrib)
switched_lem c t mem cl ch tl th ne j l = (
  shown_at c t 2000 mem cl ch tl th ne (omega arith) j l,
  kept_at c t 2000 mem cl ch tl th ne (omega arith) j l,
  attr_at c t 2000 mem cl ch tl th ne (omega arith) j l,
)
