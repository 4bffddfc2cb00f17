-- ===== src/Stream/Paced.antt =====
-- A descriptor that delivers and takes at most two bytes a call.
use unix_network_programming.Base.{◌≢◌, ℕ, zero, suc, refl, sym, [], ◌∷◌, ◌++◌, arith}
use mathlib.Core.List.{append-nil}
use unix_network_programming.CString.{Bytes}
use unix_network_programming.Stream.Writen.{AlwaysWrites}
use unix_network_programming.Stream.Echo.{AlwaysReads}
use unix_network_programming.Stream.{
  read_failed, Got, got, Wrote, wrote, Socket, ReadLaw, WriteLaw, IsSocket,
}

-- The input that is left and the output so far.
pub record Pipe : Type 0 where
  pub input : Bytes
  pub output : Bytes

abbrev pub pipe : Bytes → Bytes → Pipe
pipe i o = record { input = i; output = o }

abbrev pub give : Bytes → ℕ → Bytes → Got Pipe
give i zero o = got [] (pipe i o)
give [] (suc n) o = got [] (pipe [] o)
give (b ∷ i) (suc zero) o = got (b ∷ []) (pipe i o)
give (b ∷ []) (suc (suc n)) o = got (b ∷ []) (pipe [] o)
give (b ∷ c ∷ i) (suc (suc n)) o = got (b ∷ c ∷ []) (pipe i o)

abbrev pub put : Bytes → Pipe → Wrote Pipe
put [] s = wrote 0 s
put (a ∷ []) s = wrote 1 (pipe s.input (s.output ++ a ∷ []))
put (a ∷ b ∷ r) s = wrote 2 (pipe s.input (s.output ++ (a ∷ b ∷ [])))

abbrev pub paced : Socket
paced = record {
  State = Pipe;
  read = λ n s. give s.input n s.output;
  write = put;
  pending = λ s. s.input;
  written = λ s. s.output;
}

give-ReadLaw : (i : Bytes) (n : ℕ) (o : Bytes) → ReadLaw paced n (pipe i o) (give i n o)
give-ReadLaw i zero o = (λ h. absurd (omega arith), refl, refl)
give-ReadLaw [] (suc n) o = (λ h. refl, refl, refl)
give-ReadLaw (b ∷ i) (suc zero) o = (omega arith, refl, refl)
give-ReadLaw (b ∷ []) (suc (suc n)) o = (omega arith, refl, refl)
give-ReadLaw (b ∷ c ∷ i) (suc (suc n)) o = (omega arith, refl, refl)

put-WriteLaw : (bs : Bytes) (s : Pipe) → WriteLaw paced bs s (put bs s)
put-WriteLaw [] s = (omega arith, sym (append-nil s.output), refl)
put-WriteLaw (a ∷ []) s = (omega arith, refl, refl)
put-WriteLaw (a ∷ b ∷ r) s = (omega arith, refl, refl)

pub paced-IsSocket : IsSocket paced
paced-IsSocket = record { reads = λ n s. give-ReadLaw s.input n s.output; writes = put-WriteLaw }

give-ne : (i : Bytes) (n : ℕ) (o : Bytes) (t : Pipe) → give i n o ≢ read_failed t
give-ne i zero o t = cc
give-ne [] (suc n) o t = cc
give-ne (b ∷ i) (suc zero) o t = cc
give-ne (b ∷ []) (suc (suc n)) o t = cc
give-ne (b ∷ c ∷ i) (suc (suc n)) o t = cc

pub paced-AlwaysReads : AlwaysReads paced paced-IsSocket
paced-AlwaysReads n t t' = give-ne t.input n t.output t'

pub paced-AlwaysWrites : AlwaysWrites paced paced-IsSocket
paced-AlwaysWrites c [] t t' = (λ e. cc, λ e. grind arith)
paced-AlwaysWrites c (d ∷ x) t t' = (λ e. cc, λ e. grind arith)
