-- ===== src/Stream/Tests.antt =====
-- The theorems over a descriptor that delivers and takes at most two bytes a call.
use unix_network_programming.Base.{◌≡◌, refl, [], ◌∷◌, ◌++◌, arith}
use unix_network_programming.CString.{Bytes}
use unix_network_programming.Stream.{
  writen, readline, finished, str_echo, readline_loop, writen_loop,
}
use unix_network_programming.Stream.Paced.{
  Pipe, pipe, paced, paced-IsSocket, paced-AlwaysReads, paced-AlwaysWrites,
}
use unix_network_programming.Stream.Readline.{Line, readline-Line}
use unix_network_programming.Stream.Echo.{str_echo-Lines}

abbrev text : Bytes
text = b'h' ∷ b'i' ∷ b'\n' ∷ b'y' ∷ b'o' ∷ b'\n' ∷ []

echoes : str_echo paced 4 (pipe text []) ≡ finished (pipe [] text)
unfolding str_echo readline readline_loop writen writen_loop
echoes = refl

readline-Line_example :
    Line paced paced-IsSocket 3 1 [] (pipe text []) (readline paced 4 (pipe text []))
readline-Line_example = readline-Line paced paced-IsSocket 4 (pipe text [])

str_echo-Lines_example :
    (s' : Pipe) × (str_echo paced 2 (pipe (b'h' ∷ b'\n' ∷ []) []) ≡ finished s')
    × (s'.output ≡ [] ++ (b'h' ∷ b'\n' ∷ []))
    × (s'.input ≡ [])
str_echo-Lines_example =
    str_echo-Lines paced paced-IsSocket paced-AlwaysReads paced-AlwaysWrites 2 ((b'h' ∷ []) ∷ [])
      (pipe (b'h' ∷ b'\n' ∷ []) []) (omega arith) (omega arith) refl
