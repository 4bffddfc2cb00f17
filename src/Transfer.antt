-- ===== src/Transfer.antt =====
-- What the programs that copy a file from a server to a client have in common: the name that comes
-- in, the messages that are under way, of which the empty one is the last, and lists of them.
use mathlib.Core.List.{append_assoc, append-nil}
use unix_network_programming.Base.{
  ℕ, ◌-◌, ◌≤◌, ltb, length, length-take, take, ◌≡◌, ◌≢◌, refl, sym, ap, ◌∙◌, Bool, true, false,
  ◌&&◌, Option, List, [], ◌∷◌, ◌++◌, ◌==◌, if◌then◌else◌, arith, Bool-cases, inl, inr,
}

abbrev pub Bytes : Type 0
Bytes = List ℕ

-- The line of standard input, what open() finds behind its name, and what sys_err_str() returns
-- for its error.
pub record World : Type 0 where
  pub line : Bytes
  pub file : Option Bytes
  pub text : Bytes

-- The line of standard input, the files by their names, and what sys_err_str() returns for the
-- error.
pub record Input : Type 0 where
  pub line : Bytes
  pub disk : Bytes → Option Bytes
  pub text : Bytes

-- A newline at the end is left out.
abbrev pub chomp : Bytes → Bytes
chomp [] = []
chomp (c ∷ []) = if c == 10 then [] else c ∷ []
chomp (c ∷ d ∷ cs) = c ∷ chomp (d ∷ cs)

-- What fgets() puts into an array of `size` bytes, less the newline at its end.
abbrev pub first_line : ℕ → Bytes → Bytes
first_line size line = chomp (take (size - 1) line)

length-chomp : (s : Bytes) → length (chomp s) ≤ length s
length-chomp [] = omega arith
length-chomp (c ∷ []) = elim (Bool-cases (c == 10)) [
  | inl y ↦ rw (y) (omega arith)
  | inr y ↦ rw (y) (omega arith)
]
length-chomp (c ∷ d ∷ cs) = omega (arith, length-chomp (d ∷ cs))

pub length-first_line : (size : ℕ) (line : Bytes) → length (first_line size line) ≤ size - 1
length-first_line size line =
    omega (arith, length-chomp (take (size - 1) line), length-take (size - 1) line)

-- sprintf() into errmesg[256] and strcat() of it behind the name in an array of `room` bytes, each
-- with the NUL.
abbrev pub fits : (room : ℕ) → (name errmesg : Bytes) → Bool
fits room name errmesg = ltb (length errmesg) 256 && ltb (length (name ++ errmesg)) room

pub fits-length :
    (room : ℕ) (name errmesg : Bytes)
    → fits room name errmesg ≡ true
    → length (name ++ errmesg) ≤ room
fits-length room name errmesg h = ground arith

abbrev pub has_bytes : Bytes → Bool
has_bytes [] = false
has_bytes (c ∷ cs) = true

unfoldable pub all_full : List Bytes → Bool
all_full [] = true
all_full (m ∷ ms) = has_bytes m && all_full ms

-- An empty message at the end, and no other.
unfoldable pub closed : List Bytes → Bool
closed [] = false
closed ([] ∷ []) = true
closed ([] ∷ m ∷ ms) = false
closed ((c ∷ cs) ∷ ms) = closed ms

abbrev pub joined : List Bytes → Bytes
joined [] = []
joined (m ∷ ms) = m ++ joined ms

-- The messages that are sent and not taken: the empty one is the last, and ends both processes.
abbrev pub Tail : Bool → Bool → List Bytes → Type 0
Tail false false q = all_full q ≡ true
Tail false true q = ⊥
Tail true false q = closed q ≡ true
Tail true true q = q ≡ []

pub joined-snoc :
    (q : List Bytes) (m r : Bytes) → joined (q ++ (m ∷ [])) ++ r ≡ joined q ++ (m ++ r)
joined-snoc [] m r = simp (append-nil)
joined-snoc (x ∷ q) m r =
    append_assoc x (joined (q ++ (m ∷ []))) r
    ∙ ap (λ z. x ++ z) (joined-snoc q m r)
    ∙ sym (append_assoc x (joined q) (m ++ r))

pub append_full : (xs : Bytes) (y : ℕ) (ys : Bytes) → xs ++ (y ∷ ys) ≢ []
append_full [] y ys e = cc
append_full (x ∷ xs) y ys e = cc

pub regroup : (o m j r : Bytes) → o ++ ((m ++ j) ++ r) ≡ (o ++ m) ++ (j ++ r)
regroup o m j r = simp (append_assoc)

pub Tail-full :
    (e : Bool) (m : Bytes) (q : List Bytes) (c : ℕ) (cs : Bytes)
    → m ≡ c ∷ cs
    → Tail e false (m ∷ q)
    → Tail e false q
unfolding all_full closed
Tail-full true [] q c cs h t = cc
Tail-full true (x ∷ xs) q c cs h t = t
Tail-full false [] q c cs h t = cc
Tail-full false (x ∷ xs) q c cs h t = t

pub Tail-empty :
    (e : Bool) (m : Bytes) (q : List Bytes) → m ≡ [] → Tail e false (m ∷ q) → Tail e true q
unfolding all_full closed
Tail-empty true [] [] h t = refl
Tail-empty true [] (x ∷ q) h t = cc
Tail-empty true (x ∷ xs) q h t = cc
Tail-empty false [] q h t = cc
Tail-empty false (x ∷ xs) q h t = cc

pub Tail-more :
    (e : Bool) (q : List Bytes) (m : Bytes) → m ≢ [] → Tail false e q → Tail false e (q ++ (m ∷ []))
unfolding all_full
Tail-more true q m ne t = t
Tail-more false q m ne t = all_full-snoc q m ne t
  where
    all_full-snoc :
        (q : List Bytes) (m : Bytes) → m ≢ [] → all_full q ≡ true → all_full (q ++ (m ∷ [])) ≡ true
    all_full-snoc [] [] ne t = absurd (ne refl)
    all_full-snoc [] (x ∷ xs) ne t = refl
    all_full-snoc (y ∷ q) m ne t =
        let first : has_bytes y ≡ true = ground arith in
        let ih = all_full-snoc q m ne (ground arith) in ground arith

pub Tail-last : (e : Bool) (q : List Bytes) → Tail false e q → Tail true e (q ++ ([] ∷ []))
unfolding all_full closed
Tail-last true q t = absurd t
Tail-last false q t = closed-snoc q t
  where
    closed-snoc : (q : List Bytes) → all_full q ≡ true → closed (q ++ ([] ∷ [])) ≡ true
    closed-snoc [] t = refl
    closed-snoc ([] ∷ q) t = cc
    closed-snoc ((x ∷ xs) ∷ q) t = closed-snoc q t
