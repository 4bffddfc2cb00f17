-- ===== src/Iovec/Tests.antt =====
-- Two buffers, and the theorems on them.
use unix_network_programming.Base.{ℕ, ◌+◌, ◌≡◌, refl, true, List, [], ◌∷◌}
use unix_network_programming.Iovec.{Iovec, returns, Calls, my_writev, ReadAnswer, got}
use unix_network_programming.Iovec.Gather.{all_fit, begins_low, sum, contents, my_writev-contents}

abbrev vectors : List Iovec
vectors =
    record { address = 65 ∷ 66 ∷ 0 ∷ []; buff_length = 2 }
    ∷ record { address = 67 ∷ []; buff_length = 1 }
    ∷ []

-- write() takes everything.
abbrev calls : Calls
calls = record { malloc = λ n. true; write = λ bs. 3 }

abbrev feed : ℕ → ℕ → ReadAnswer ℕ
feed n s = got (97 ∷ 98 ∷ 99 ∷ []) (s + 3)

my_writev-contents_example : my_writev calls vectors ≡ returns (3, 65 ∷ 66 ∷ 67 ∷ [])
unfolding sum contents all_fit begins_low
my_writev-contents_example = my_writev-contents calls vectors (λ n. refl) refl
