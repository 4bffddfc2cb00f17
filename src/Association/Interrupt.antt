-- ===== src/Association/Interrupt.antt =====
-- How the handler of SIGINT ends.
use unix_network_programming.Base.{
  ℕ, zero, suc, ◌<◌, ◌≡◌, refl, ap, ◌∙◌, Bool, true, false, none, some, [], ◌∷◌, ◌++◌, ◌==◌, length,
  if◌then◌else◌, arith,
}
use unix_network_programming.Transfer.{Bytes}
use unix_network_programming.Stream.Readline.{NoNewline}
use unix_network_programming.Association.{
  clear_standard_output, exits, goes_on, out_of_fuel, is_yes, on_cleared, server_sigint,
}

clear_line :
    (f : ℕ) (text rest : Bytes)
    → NoNewline text
    → length text < f
    → clear_standard_output f (text ++ b'\n' ∷ rest) ≡ some rest
unfolding clear_standard_output
clear_line zero text rest nl h = absurd (omega arith)
clear_line (suc f) [] rest nl h = refl
clear_line (suc f) (c ∷ text) rest nl h =
    let other : (c == b'\n') ≡ false = ground (arith, nl.0) in
    rw (clear_standard_output, other) (clear_line f text rest nl.1 (omega arith))

clear_hangs : (f : ℕ) (text : Bytes) → NoNewline text → clear_standard_output f text ≡ none
unfolding clear_standard_output
clear_hangs zero text nl = refl
clear_hangs (suc f) [] nl = clear_hangs f [] nl
clear_hangs (suc f) (c ∷ text) nl =
    let other : (c == b'\n') ≡ false = ground (arith, nl.0) in
    rw (clear_standard_output, other) (clear_hangs f text nl.1)

-- When the input is a character, a text without a newline, a newline and a rest, the handler ends
-- after as many getchar() behind the first as the text has characters and one more: the process exits
-- if the character is y or Y, and otherwise goes on with the rest as its input. When behind a first
-- character the input ends without a newline, the handler does not end, however long it runs.
pub server_sigint-answered :
    (option : ℕ) (text rest : Bytes) (fuel : ℕ)
    → NoNewline text
    → length text < fuel
    → (server_sigint fuel (option ∷ text ++ b'\n' ∷ rest)
        ≡ (if is_yes option then exits else goes_on rest))
      × (server_sigint fuel (option ∷ text) ≡ out_of_fuel)
unfolding server_sigint
server_sigint-answered option text rest fuel nl h = (
  ap (on_cleared (is_yes option)) (clear_line fuel text rest nl h) ∙ cleared (is_yes option) rest,
  ap (on_cleared (is_yes option)) (clear_hangs fuel text nl) ∙ refl,
)
  where
    cleared :
        (b : Bool) (rest : Bytes) → on_cleared b (some rest) ≡ (if b then exits else goes_on rest)
    cleared true rest = refl
    cleared false rest = refl
