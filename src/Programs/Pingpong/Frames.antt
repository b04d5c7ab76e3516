-- ===== src/Programs/Pingpong/Frames.antt =====
-- syscalls/ece391pingpong.c: the pictures of `main`, and its rounds.
use cl_os.Prelude.{
  ℕ, ℤ, pos, Option, some, eq_or_ne, inl, inr, ◌≢◌, zero, suc, ◌+◌, ◌≤◌, ◌<◌, ◌≡◌, refl, ◌==◌, ltb,
  leb, ◌&&◌, if◌then◌else◌, Mem, store, arith,
}
use cl_os.Prelude.Literal.{◌>>=◌}
use cl_os.Strings.Copy.{EndsAt}
use cl_os.Programs.{Calls}
use cl_os.Programs.Small.Counting.{fdputs_EndsAt}
use cl_os.Programs.Pingpong.{
  blank_from, walls, draw, next_char, frame, move_out, bounce_back, bounce, pingpong,
}

-- The walls stand.
abbrev pub IsWorld : Mem → Type 0
IsWorld b = (b 0 ≡ b' ') × (b 1 ≡ b'|') × (b 78 ≡ b'|') × (b 79 ≡ b'\n') × (b 80 ≡ 0)

blank_from_lem :
    (buf : Mem) (i k a : ℕ)
    → blank_from buf i k a ≡ (if leb i a && ltb a (i + k) then b' ' else buf a)
unfolding blank_from
blank_from_lem buf i zero a = ground arith
blank_from_lem buf i (suc k) a = ground (arith, blank_from_lem (store buf i b' ') (i + 1) k a)

-- The walls stand before the first picture, whatever the buffer held.
walls-IsWorld : (buf : Mem) → IsWorld (walls buf)
unfolding walls
walls-IsWorld buf = (at0, refl, refl, refl, refl)
  where
    at0 : blank_from buf 0 81 0 ≡ b' '
    at0 = blank_from_lem buf 0 81 0

-- A picture at `j`: within the walls only the character is not blank, and outside nothing changes.
draw_lem :
    (buf : Mem) (j c a : ℕ)
    → 2 ≤ j
    → j < 78
    → draw buf j c a ≡ (if a == j then c else if leb 2 a && ltb a 78 then b' ' else buf a)
unfolding draw
draw_lem buf j c a low high = ground (arith, blank_from_lem buf 2 76 a)

-- Every picture of a round keeps the walls.
draw-IsWorld : (buf : Mem) (j c : ℕ) → 2 ≤ j → j < 78 → IsWorld buf → IsWorld (draw buf j c)
draw-IsWorld buf j c low high (b0, b1, b78, b79, b80) = (
  ground (arith, draw_lem buf j c 0 low high, b0),
  ground (arith, draw_lem buf j c 1 low high, b1),
  ground (arith, draw_lem buf j c 78 low high, b78),
  ground (arith, draw_lem buf j c 79 low high, b79),
  ground (arith, draw_lem buf j c 80 low high, b80),
)

-- The character goes round the letters.
next_char-IsLetter : (c : ℕ) → 65 ≤ c → c ≤ 90 → (65 ≤ next_char c) × (next_char c ≤ 90)
unfolding next_char
next_char-IsLetter c low high = (ground arith, ground arith)

abbrev pub IsLetter : ℕ → Type 0
IsLetter c = (65 ≤ c) × (c ≤ 90)

-- A picture is a string of 80 characters.
draw-EndsAt :
    (buf : Mem) (j c : ℕ) → 2 ≤ j → j < 78 → IsLetter c → IsWorld buf → EndsAt (draw buf j c) 0 80
draw-EndsAt buf j c low high (c1, c2) (b0, b1, b78, b79, b80) = record {
  later = omega arith;
  nul = ground (arith, draw_lem buf j c 80 low high, b80);
  full = visible;
}
  where
    visible : (a : ℕ) → 0 ≤ a → a < 80 → draw buf j c a ≢ 0
    visible a p q = elim (eq_or_ne a 0) [
      | inl e ↦ rw (e) ground (arith, draw_lem buf j c 0 low high, b0)
      | inr n0 ↦ elim (eq_or_ne a 1) [
        | inl e ↦ rw (e) ground (arith, draw_lem buf j c 1 low high, b1)
        | inr n1 ↦ elim (eq_or_ne a 78) [
          | inl e ↦ rw (e) ground (arith, draw_lem buf j c 78 low high, b78)
          | inr n78 ↦ elim (eq_or_ne a 79) [
            | inl e ↦ rw (e) ground (arith, draw_lem buf j c 79 low high, b79)
            | inr n79 ↦ ground (arith, draw_lem buf j c a low high)
          ]
        ]
      ]
    ]

module _ {S : Type 0} (calls : Calls S) (rtc_fd : ℤ) where
  -- The loops go on with the walls standing.
  abbrev GoesOn : Option (Mem × Mem × S) → Type 0
  GoesOn o = (buf : Mem) × (garbage : Mem) × (s : S) × (o ≡ some (buf, garbage, s)) × IsWorld buf

  GoesOn-read :
      (picture : Mem) (r : ℤ × Mem × S) (o : Option (Mem × Mem × S))
      → (let (cnt, garbage, s) = r in o ≡ some (picture, garbage, s))
      → IsWorld picture
      → GoesOn o
  GoesOn-read picture (cnt, garbage, s) o e w = (picture, garbage, s, e, w)

  frame_total :
      (fuel : ℕ) (buf : Mem) (j c : ℕ) (garbage : Mem) (s : S)
      → 80 < fuel
      → 2 ≤ j
      → j < 78
      → IsLetter c
      → IsWorld buf
      → GoesOn (frame calls rtc_fd fuel buf j c garbage s)
  unfolding frame
  frame_total fuel buf j c garbage s f low high l w =
      GoesOn-read (draw buf j c)
        (calls.read rtc_fd garbage 4 (calls.write (pos 1) (draw buf j c) (pos 80) s).1)
        (frame calls rtc_fd fuel buf j c garbage s)
        (rw (fdputs_EndsAt calls fuel 80 (draw buf j c) s (draw-EndsAt buf j c low high l w) f)
          refl)
        (draw-IsWorld buf j c low high w)

  move_out_total :
      (fuel j k : ℕ) (buf : Mem) (c : ℕ) (garbage : Mem) (s : S)
      → 80 < fuel
      → 2 ≤ j
      → j + k ≤ 78
      → IsLetter c
      → IsWorld buf
      → GoesOn (move_out calls rtc_fd fuel j k buf c garbage s)
  unfolding move_out
  move_out_total fuel j zero buf c garbage s f low high l w = (buf, garbage, s, refl, w)
  move_out_total fuel j (suc k) buf c garbage s f low high l w =
      let (b1, g1, s1, e1, w1) = frame_total fuel buf j c garbage s f low (omega arith) l w in
      let (b2, g2, s2, e2, w2) =
        move_out_total fuel (j + 1) k b1 c g1 s1 f (omega arith) (omega arith) l w1 in
      (b2, g2, s2, rw (e1, ◌>>=◌, e2) refl, w2)

  bounce_back_total :
      (fuel k : ℕ) (buf : Mem) (c : ℕ) (garbage : Mem) (s : S)
      → 80 < fuel
      → k ≤ 76
      → IsLetter c
      → IsWorld buf
      → GoesOn (bounce_back calls rtc_fd fuel k buf c garbage s)
  unfolding bounce_back
  bounce_back_total fuel zero buf c garbage s f high l w = (buf, garbage, s, refl, w)
  bounce_back_total fuel (suc k) buf c garbage s f high l w =
      let (b1, g1, s1, e1, w1) =
        frame_total fuel buf (k + 2) c garbage s f (omega arith) (omega arith) l w in
      let (b2, g2, s2, e2, w2) = bounce_back_total fuel k b1 c g1 s1 f (omega arith) l w1 in
      (b2, g2, s2, rw (e1, ◌>>=◌, e2) refl, w2)

  -- Any number of rounds ends, with the walls standing and a letter drawn.
  bounce_total :
      (fuel rounds : ℕ) (buf : Mem) (c : ℕ) (garbage : Mem) (s : S)
      → 80 < fuel
      → IsLetter c
      → IsWorld buf
      → (buf' : Mem) × (c' : ℕ) × (s' : S) × (bounce calls rtc_fd fuel rounds buf c garbage s
          ≡ some (buf', c', s'))
        × IsLetter c'
        × IsWorld buf'
  unfolding bounce
  bounce_total fuel zero buf c garbage s f l w = (buf, c, s, refl, l, w)
  bounce_total fuel (suc rounds) buf c garbage s f l w =
      let (b1, g1, s1, e1, w1) =
        move_out_total fuel 2 76 buf c garbage s f (omega arith) (omega arith) l w in
      let (b2, g2, s2, e2, w2) = bounce_back_total fuel 76 b1 c g1 s1 f (omega arith) l w1 in
      let (b3, c3, s3, e3, l3, w3) =
        bounce_total fuel rounds b2 (next_char c) g2 s2 f (next_char-IsLetter c l.0 l.1) w2 in
      (b3, c3, s3, rw (e1, ◌>>=◌, e2, ◌>>=◌, e3) refl, l3, w3)

-- Whatever the calls answer, and with more than 80 rounds of fuel for each text, `main` goes through any number of rounds of
-- its endless loop, and then the character is a letter and the buffer has its walls.
pub pingpong_total :
    {S : Type 0} (calls : Calls S) (fuel rounds : ℕ) (buf garbage : Mem) (s : S)
    → 80 < fuel
    → (buf' : Mem) × (c' : ℕ) × (s' : S) × (pingpong calls fuel rounds buf garbage s
        ≡ some (buf', c', s'))
      × IsLetter c'
      × IsWorld buf'
unfolding pingpong
pingpong_total calls fuel rounds buf garbage s f =
    bounce_total calls _ fuel rounds (walls buf) b'A' garbage _ f (omega arith, omega arith)
      (walls-IsWorld buf)
