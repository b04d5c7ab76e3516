-- ===== src/Console/Keys.antt =====
-- What a key does to the line and to the screen.
use mathlib.Core.Option
use cl_os.Prelude.{
  ℕ, suc, ◌+◌, ◌-◌, ◌/◌, ◌%◌, ◌≤◌, ◌<◌, ◌≡◌, ◌≢◌, refl, ap, ◌∙◌, ◌==◌, ◌!=◌, ltb, ◌&&◌,
  if◌then◌else◌, Bool, true, false, ltb, Mem, text, none, some, arith, ne→==,
}
use cl_os.Prelude.Bits.{all_below, all_below_sound}
use cl_os.Machine.{Machine}
use cl_os.Pic.{send_eoi}
use cl_os.Process.{Stack}
use cl_os.Terminal.{Lines, insert, typed}
use cl_os.Terminal.Line.{backspacebuf-insert}
use cl_os.Terminal.Editor.{line, edit, insert-line, backspacebuf-insert-line}
use cl_os.Keyboard.{get_char, caps, scan2_let, key_letter}
use cl_os.Screen.{putc, backspace}
use cl_os.Printf.{specifier, printf_from, printf}
use cl_os.Console.{Console, returns, print, updatecursor}
use cl_os.Console.Handler.{char_format, echo, erase, type_key, dispatch, finish, keyboard_handler}

-- A key that is pressed, has a character, and is none of the keys that the handler treats by themselves.
pub record IsPlainKey (set code : ℕ) : Type 0 where
  pub pressed : code < 128
  pub not_caps : code ≢ caps
  pub not_control : code ≢ 0x1d
  pub not_alternate : code ≢ 0x38
  pub not_backspace : code ≢ 0x0e
  pub has_letter : scan2_let set code ≢ 0xff
  pub not_left_shift : scan2_let set code ≢ 0x80
  pub not_right_shift : scan2_let set code ≢ 0x81

-- The character that the key inserts.
abbrev pub character : ℕ → ℕ → ℕ
character set code = key_letter (set != 0) false (scan2_let set code)

scan2_let-byte : (set code : ℕ) → code < 128 → code ≢ caps → scan2_let set code < 256
unfolding scan2_let all_below
scan2_let-byte set code h ne =
    ground
      (arith, ne→== code caps ne, all_below_sound 128 (λ c. ltb (text get_char c) 256) code refl h)

character-byte : (set code : ℕ) → IsPlainKey set code → character set code < 256
unfolding key_letter
character-byte set code k = ground (arith, scan2_let-byte set code k.pressed k.not_caps)

third :
    {A : Type 0} (x y z : A) (b c : Bool)
    → b ≡ false
    → c ≡ false
    → (if b then x else if c then y else z) ≡ z
third x y z b c h k = ground (arith, h, k)

-- The last but one of eight branches.
seventh :
    {A : Type 0} (p q r s t u v w : A) (b c d e f g h : Bool)
    → b ≡ false
    → c ≡ false
    → d ≡ false
    → e ≡ false
    → f ≡ false
    → g ≡ false
    → h ≡ true
    → (if b
        then p
        else if c
        then q
        else if d
        then r
        else if e
        then s
        else if f
        then t
        else if g
        then u
        else if h
        then v
        else w)
      ≡ v
seventh p q r s t u v w b c d e f g h hb hc hd he hf hg hh =
    third p q _ b c hb hc ∙ third r s _ d e hd he ∙ third t u _ f g hf hg ∙ ground (arith, hh)

insert_index : (t letter : ℕ) (s : Lines) → s.idx t ≤ 127 → (insert t letter s).0 ≡ s.idx t + 1
unfolding insert
insert_index t letter s h = ground arith

none_of : (a b : Bool) → a ≡ false → (a && b) ≡ false
none_of a b h = ground (arith, h)

-- `%c` prints its parameter.
print_char :
    {S : Type 0} (fuel c : ℕ) (s : Console S)
    → 3 ≤ fuel
    → c < 256
    → print fuel char_format c s
      ≡ some (record s {
        screen =
            putc s.kernel.current_terminal
              (s.kernel.pcbs s.kernel.cur).cur_terminal
              s.key_int
              c
              s.screen;
      })
unfolding print printf printf_from specifier
print_char fuel c s h l =
    ap (λ x. print x char_format c s) exact
    ∙ at (fuel - 3)
    ∙ ap
        (λ c. some (record s {
          screen =
              putc s.kernel.current_terminal (s.kernel.pcbs s.kernel.cur).cur_terminal s.key_int c
                s.screen;
        }))
        byte
  where
    exact : fuel ≡ suc (suc (suc (fuel - 3)))
    exact = omega arith

    byte : c % 256 ≡ c
    byte = omega arith

    at :
        (f : ℕ)
        → print (suc (suc (suc f))) char_format c s
          ≡ some (record s {
            screen =
                putc s.kernel.current_terminal
                  (s.kernel.pcbs s.kernel.cur).cur_terminal
                  s.key_int
                  (c % 256)
                  s.screen;
          })
    at f = refl

module _ (m : Machine) where
  open m use {State, inb}

  -- The console behind the echo of a letter.
  abbrev pub echoed : ℕ → Console State → Console State
  echoed letter s =
      let t = s.kernel.current_terminal in
      let c = updatecursor m (record s {
        lines = (insert t letter s.lines).1;
        screen = putc t (s.kernel.pcbs s.kernel.cur).cur_terminal 1 letter s.screen;
        key_int = 0;
      }) in
      record c { back = c.back + 1 }

  echo_lem :
      (fuel letter : ℕ) (s : Console State)
      → 3 ≤ fuel
      → letter < 256
      → s.lines.idx s.kernel.current_terminal < 127
      → echo m fuel letter s ≡ some (echoed letter s)
  unfolding echo insert
  echo_lem fuel letter s h b room =
      let t = s.kernel.current_terminal in
      rw (below, echo)
        (ap
          (Option.map
            (λ c. record (updatecursor m (record c { key_int = 0 })) { back = c.back + 1 }))
          (print_char fuel letter (record s { lines = (insert t letter s.lines).1; key_int = 1 }) h
            b))
    where
      below : ltb (insert s.kernel.current_terminal letter s.lines).0 128 ≡ true
      below = ground (arith, room)

  -- A letter on a line of 127 characters is put at the end of the line but not echoed. A backspace behind it takes the
  -- letter off the line, and on the screen the character in front of it, which is still in the line.
  pub erase-echo :
      (fuel letter : ℕ) (s : Console State)
      → s.lines.idx s.kernel.current_terminal ≡ 127
      → let t = s.kernel.current_terminal in
        (s' : Console State) × (echo m fuel letter s ≡ some s')
        × (s'.screen ≡ s.screen)
        × (line t s'.lines ≡ edit (typed letter) (line t s.lines))
        × ((erase m s').screen ≡ backspace t s.screen)
        × (line t (erase m s').lines ≡ line t s.lines)
  unfolding echo erase updatecursor
  erase-echo fuel letter s e =
      let t = s.kernel.current_terminal in
      let s' : Console State = record s { lines = (insert t letter s.lines).1 } in
      (
        s',
        third none _ _ false (ltb (insert t letter s.lines).0 128) refl
            (ground (arith, insert_index t letter s.lines (omega (arith, e)), e)),
        refl,
        insert-line t letter s.lines,
        rw ((backspacebuf-insert t letter 0 t s.lines (omega (arith, e))).0, erase) refl,
        rw ((backspacebuf-insert t letter 0 t s.lines (omega (arith, e))).0, erase)
            (backspacebuf-insert-line t letter s.lines (omega (arith, e))),
      )

  type_key_plain :
      (fuel code : ℕ) (s : Console State)
      → IsPlainKey s.caps_set code
      → type_key m fuel code s ≡ echo m fuel (character s.caps_set code) s
  unfolding type_key
  type_key_plain fuel code s k =
      let letter = scan2_let s.caps_set code in
      third _ _ _ (letter == 0x80) (letter == 0x81) (ne→== letter 0x80 k.not_left_shift)
        (ne→== letter 0x81 k.not_right_shift)

  module _ (bblock : Mem) (st : Stack) where
    dispatch_plain :
        (fuel code : ℕ) (s : Console State)
        → IsPlainKey s.caps_set code
        → dispatch m bblock st fuel code s ≡ Option.map returns (type_key m fuel code s)
    unfolding dispatch
    dispatch_plain fuel code s k =
        let letter = scan2_let s.caps_set code in
        seventh _ _ _ _ _ _ _ _ (letter == 0xff) (code == caps && letter == 0)
          (code == caps && letter == 1) (code == 0x1d) (code == 0x38) (code == 0x0e)
          (code / 128 % 2 == 0) (ne→== letter 0xff k.has_letter)
          (none_of (code == caps) (letter == 0) (ne→== code caps k.not_caps))
          (none_of (code == caps) (letter == 1) (ne→== code caps k.not_caps))
          (ne→== code 0x1d k.not_control) (ne→== code 0x38 k.not_alternate)
          (ne→== code 0x0e k.not_backspace) (ground (arith, k.pressed))

    -- A pressed key with a character, none of caps lock, shift, control, alt and backspace, on a
    -- line of less than 127 characters, with three rounds of fuel: the handler returns; the
    -- character is at the end of the line of the visible terminal, `putc` has written it to the
    -- screen as an echo, and the processes are as they were.
    pub keyboard_handler_plain :
        (fuel : ℕ) (s : Console State)
        → 3 ≤ fuel
        → IsPlainKey s.caps_set (inb s.ports 0x60).0
        → s.lines.idx s.kernel.current_terminal < 127
        → let t = s.kernel.current_terminal in
          let c = character s.caps_set (inb s.ports 0x60).0 in
          (s' : Console State) × (keyboard_handler m bblock st fuel s ≡ some (returns s'))
          × (line t s'.lines ≡ edit (typed c) (line t s.lines))
          × (s'.screen ≡ putc t (s.kernel.pcbs s.kernel.cur).cur_terminal 1 c s.screen)
          × (s'.kernel ≡ s.kernel)
    unfolding keyboard_handler updatecursor
    keyboard_handler_plain fuel s h k room =
        let t = s.kernel.current_terminal in
        let (code, p) = inb s.ports 0x60 in
        let s1 : Console State = record s { ports = p } in
        let c = character s.caps_set code in
        let s2 = echoed c s1 in
        (
          record s2 { ports = send_eoi m 1 s2.ports },
          ap (Option.map (finish m)) (
              dispatch_plain fuel code s1 k
              ∙ ap (Option.map returns) (
                  type_key_plain fuel code s1 k
                  ∙ echo_lem fuel c s1 h (character-byte s.caps_set code k) room)),
          insert-line t c s.lines,
          refl,
          refl,
        )
