-- ===== src/ErrRoutine/Bounds.antt =====
-- What calls of err_ret print, and what they make of emesgstr.
use mathlib.Core.List.{append-nil, append_assoc}
use unix_network_programming.Base.{
  ℕ, ◌+◌, ◌<◌, ◌≤◌, ◌≡◌, refl, sym, ap, ◌∙◌, inl, inr, Bool-cases, Bool, true, false, ◌&&◌, Option,
  none, some, List, [], ◌∷◌, ◌++◌, ltb, lt→ltb, ltb→lt, le→ltb_false, length, length-append,
  if◌then◌else◌, arith,
}
use unix_network_programming.Base.Int.{ℤ}
use unix_network_programming.Transfer.{Bytes}
use unix_network_programming.ErrRoutine.{
  System, Messages, Ended, returned, exited, aborted, overflowed, emesg_size, msgstr_size, put,
  put_pname, put_text, sys_err_str,
}
use unix_network_programming.ErrRoutine.Server
use unix_network_programming.ErrRoutine.Plain

-- A text, and errno as it is then.
abbrev pub Call : Type 0
Call = Bytes × ℤ

abbrev and_then : (Messages → Ended) → Ended → Ended
and_then next (returned m) = next m
and_then next (exited m) = exited m
and_then next (aborted m) = aborted m
and_then next overflowed = overflowed

-- Calls of err_ret, one behind the other.
abbrev pub ret_all : (Bytes → ℤ → Messages → Ended) → List Call → Messages → Ended
ret_all err_ret [] m = returned m
ret_all err_ret ((text, errno) ∷ cs) m = and_then (ret_all err_ret cs) (err_ret text errno m)

abbrev pub shown_name : Option Bytes → Bytes
shown_name none = []
shown_name (some p) = p ++ (b':' ∷ b' ' ∷ [])

-- A return with these, where the texts have been short and emesgstr has room for the first.
abbrev pub fitting : (short : Bool) (emesgstr output : Bytes) → Ended
fitting short em out =
    if short && ltb (length em) emesg_size
    then returned (record { emesgstr = em; output = out })
    else overflowed

module _ (k : System) where
  -- The error's text with the blank ahead of it, and the line of a call.
  abbrev pub suffix : ℤ → Bytes
  suffix errno = b' ' ∷ sys_err_str k errno

  abbrev pub line : Call → Bytes
  line (text, errno) = text ++ suffix errno

  abbrev pub lines : List Call → Bytes
  lines [] = []
  lines (c ∷ cs) = (line c ++ b'\n' ∷ []) ++ lines cs

  -- msgstr has room for the error's text.
  abbrev pub short : ℤ → Bool
  short errno = ltb (length (sys_err_str k errno)) msgstr_size

  abbrev pub all_short : List Call → Bool
  all_short [] = true
  all_short ((text, errno) ∷ cs) = short errno && all_short cs

  -- emesgstr has room for the line of the call, too.
  abbrev pub fits_both : Call → Bool
  fits_both (text, errno) = short errno && ltb (length (line (text, errno))) emesg_size

  abbrev pub all_fit : List Call → Bool
  all_fit [] = true
  all_fit (c ∷ cs) = fits_both c && all_fit cs

  abbrev pub last_line : Bytes → List Call → Bytes
  last_line em [] = em
  last_line em (c ∷ cs) = last_line (line c) cs

  abbrev pub suffixes : List Call → Bytes
  suffixes [] = []
  suffixes ((text, errno) ∷ cs) = suffix errno ++ suffixes cs

  -- The texts with the program's name, and nothing of the errors.
  abbrev pub texts : List Call → Bytes
  texts [] = []
  texts ((text, errno) ∷ cs) = (shown_name k.pname ++ text) ++ texts cs

  server_ret :
      (text : Bytes) (errno : ℤ) (m : Messages)
      → Server.err_ret k text errno m ≡ (
          if fits_both (text, errno)
          then returned (record {
            emesgstr = line (text, errno);
            output = m.output ++ (line (text, errno) ++ b'\n' ∷ []);
          })
          else overflowed)
  unfolding Server.err_ret
  server_ret text errno m = elim (Bool-cases (ltb (length text) emesg_size)) [
    | inr long ↦
        let over : ltb (length (line (text, errno))) emesg_size ≡ false =
          too_long (length text) (length (suffix errno)) (length (line (text, errno)))
            (length-append text (suffix errno)) long in
        elim (Bool-cases (short errno)) [
          | inl e ↦ rw (Server.err_ret, long, over, e) refl
          | inr e ↦ rw (Server.err_ret, long, over, e) refl
        ]
    | inl room ↦ elim (Bool-cases (short errno)) [
      | inr e ↦ rw (Server.err_ret, room, e) refl
      | inl e ↦ elim (Bool-cases (ltb (length (line (text, errno))) emesg_size)) [
        | inl f ↦ rw (Server.err_ret, room, e, f) refl
        | inr f ↦ rw (Server.err_ret, room, e, f) refl
      ]
    ]
  ]
    where
      too_long : (a b ab : ℕ) → ab ≡ a + b → ltb a emesg_size ≡ false → ltb ab emesg_size ≡ false
      too_long a b ab e h = ground arith

  server_ret_all :
      (cs : List Call) (m : Messages)
      → ret_all (Server.err_ret k) cs m ≡ (
          if all_fit cs
          then returned
              (record { emesgstr = last_line m.emesgstr cs; output = m.output ++ lines cs })
          else overflowed)
  server_ret_all [] m = rw (append-nil m.output) refl
  server_ret_all ((text, errno) ∷ cs) m =
      let now : Bytes = line (text, errno) ++ b'\n' ∷ [] in
      ap (and_then (ret_all (Server.err_ret k) cs)) (server_ret text errno m)
      ∙ elim (Bool-cases (fits_both (text, errno))) [
        | inr e ↦ rw (e) refl
        | inl e ↦ rw (e) (
            server_ret_all cs (record { emesgstr = line (text, errno); output = m.output ++ now })
            ∙ rw (append_assoc m.output now (lines cs)) refl)
      ]

  put_text_all :
      (text : Bytes) (m : Messages)
      → put_text k text m
        ≡ record { emesgstr = m.emesgstr; output = m.output ++ (shown_name k.pname ++ text) }
  put_text_all text m = go k.pname
    where
      go :
          (o : Option Bytes)
          → put text (put_pname k o m)
            ≡ record { emesgstr = m.emesgstr; output = m.output ++ (shown_name o ++ text) }
      go none = refl
      go (some p) =
          ap (λ z. record { emesgstr = m.emesgstr; output = z })
            (append_assoc m.output (p ++ (b':' ∷ b' ' ∷ [])) text)

  plain_ret :
      (text : Bytes) (errno : ℤ) (m : Messages)
      → Plain.err_ret k text errno m
        ≡ fitting
            (short errno)
            (m.emesgstr ++ suffix errno)
            (m.output ++ (shown_name k.pname ++ text))
  unfolding Plain.err_ret
  plain_ret text errno m =
      ap (λ (z : Messages). Plain.my_perror k returned errno z) (put_text_all text m)
      ∙ elim (Bool-cases (short errno)) [ inl e ↦ rw (e) refl | inr e ↦ rw (e) refl ]

  -- What has run over stays so.
  no_room :
      (b : Bool) (em more rest : Bytes) (out : Bytes)
      → ltb (length (em ++ more)) emesg_size ≡ false
      → fitting b (em ++ (more ++ rest)) out ≡ overflowed
  no_room false em more rest out h = refl
  no_room true em more rest out h =
      rw
        (le→ltb_false (length (em ++ (more ++ rest))) emesg_size (
          longer (length em) (length more) (length rest) (length (em ++ more))
            (length (more ++ rest)) (length (em ++ (more ++ rest))) (length-append em more)
            (length-append more rest) (length-append em (more ++ rest)) h))
        refl
    where
      longer :
          (a b c ab bc abc : ℕ)
          → ab ≡ a + b
          → bc ≡ b + c
          → abc ≡ a + bc
          → ltb ab emesg_size ≡ false
          → emesg_size ≤ abc
      longer a b c ab bc abc e1 e2 e3 h = ground arith

  plain_ret_all :
      (cs : List Call) (m : Messages)
      → length m.emesgstr < emesg_size
      → ret_all (Plain.err_ret k) cs m
        ≡ fitting (all_short cs) (m.emesgstr ++ suffixes cs) (m.output ++ texts cs)
  plain_ret_all [] m h =
      rw (append-nil m.emesgstr, append-nil m.output, lt→ltb (length m.emesgstr) emesg_size h) refl
  plain_ret_all ((text, errno) ∷ cs) m h =
      let em : Bytes = m.emesgstr ++ suffix errno in
      let shown : Bytes = shown_name k.pname ++ text in
      ap (and_then (ret_all (Plain.err_ret k) cs)) (plain_ret text errno m)
      ∙ elim (Bool-cases (short errno)) [
        | inr l ↦ rw (l) refl
        | inl l ↦ elim (Bool-cases (ltb (length em) emesg_size)) [
          | inl e ↦
              rw (l, e)
                (plain_ret_all cs (record { emesgstr = em; output = m.output ++ shown })
                    (ltb→lt (length em) emesg_size e)
                  ∙ ap (λ z. fitting (all_short cs) z ((m.output ++ shown) ++ texts cs))
                      (append_assoc m.emesgstr (suffix errno) (suffixes cs))
                  ∙ ap (fitting (all_short cs) (m.emesgstr ++ (suffix errno ++ suffixes cs)))
                      (append_assoc m.output shown (texts cs)))
          | inr e ↦
              rw (l, e)
                (sym (
                  no_room (all_short cs) m.emesgstr (suffix errno) (suffixes cs)
                    (m.output ++ (shown ++ texts cs)) e))
        ]
      ]

  -- With less in emesgstr at first than it holds. Of a server's err_ret: any number of calls
  -- return, and the log has got each of them as a line, if each text with a blank and the error's
  -- text is shorter than emesgstr and each error's text is shorter than msgstr; else they write
  -- behind the end of one of these. Of the err_ret of 9_semaphores: the calls print their texts
  -- behind the program's name and nothing of the errors, whose texts are put behind each other in
  -- emesgstr; they return if each of these is shorter than msgstr and what is put into emesgstr is
  -- in all shorter than it, and write behind the end of one of the two otherwise.
  pub ret_all-bounds :
      (cs : List Call) (m : Messages)
      → length m.emesgstr < emesg_size
      → (ret_all (Server.err_ret k) cs m ≡ (
          if all_fit cs
          then returned
              (record { emesgstr = last_line m.emesgstr cs; output = m.output ++ lines cs })
          else overflowed))
        × (ret_all (Plain.err_ret k) cs m
            ≡ fitting (all_short cs) (m.emesgstr ++ suffixes cs) (m.output ++ texts cs))
  ret_all-bounds cs m h = (server_ret_all cs m, plain_ret_all cs m h)
