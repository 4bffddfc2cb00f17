-- ===== src/CString/Tests.antt =====
-- Tests of the two functions, and their theorems at inputs.
use Prim.Native.Char.{code}
use Prim.Native.String.{String}
use unix_network_programming.Base.{◌≡◌, refl, [], ◌∷◌, none, some, arith}
use unix_network_programming.Base.Int.{negsuc}
use unix_network_programming.CString.{Bytes, my_strcmp, my_strlcpy}
use unix_network_programming.CString.Compare.{my_strcmp-swap, negate}
use unix_network_programming.CString.Copy.{my_strlcpy_truncates}

abbrev codes : String → Bytes
codes String.[] = []
codes (String.◌∷◌ c s) = code c ∷ codes s

abbrev room : Bytes
room = 7 ∷ 7 ∷ 7 ∷ 7 ∷ []

strcmp_less : my_strcmp (codes "abc") (codes "abd") ≡ negsuc 0
unfolding my_strcmp
strcmp_less = refl

strlcpy_short : my_strlcpy room (codes "ab") 4 ≡ some (b'a' ∷ b'b' ∷ 0 ∷ 7 ∷ [], 2)
unfolding my_strlcpy
strlcpy_short = refl

my_strcmp-swap_example :
    my_strcmp (codes "b") (codes "a") ≡ negate (my_strcmp (codes "a") (codes "b"))
my_strcmp-swap_example = my_strcmp-swap (codes "a") (codes "b")

my_strlcpy_truncates_example : my_strlcpy room (codes "abcdef") 4 ≡ none
my_strlcpy_truncates_example =
    my_strlcpy_truncates room (codes "abcdef") 4 (omega arith) (omega arith)
