-- ===== src/SelectCopy/Tests.antt =====
-- A run of two turns, the output ready first.
use unix_network_programming.Base.{true, false, some, [], ◌∷◌}
use unix_network_programming.SelectCopy.{Answers, copy, start, Copied, select_copy-Copied}

abbrev output_first : Answers
output_first = record { select = some (false, true); read = some []; write = some 0 }

abbrev input_next : Answers
input_next = record { select = some (true, false); read = some (104 ∷ 105 ∷ []); write = some 0 }

select_copy-Copied_example : Copied (copy (output_first ∷ input_next ∷ []) start)
select_copy-Copied_example = select_copy-Copied (output_first ∷ input_next ∷ [])
