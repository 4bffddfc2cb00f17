-- ===== src/SharedMemory/Turns.antt =====
-- The two processes take turns: who has the buffer, and what is in it.
use unix_network_programming.Base.{◌≡◌, ◌≢◌, Option, none, some, [], ◌++◌}
use unix_network_programming.Transfer.{Bytes, Input, first_line}
use unix_network_programming.MultiBuffer.{cant_open}
use unix_network_programming.SharedMemory.{
  s_start, s_open, s_read, s_signal, s_wait, s_report, s_again, s_last, s_end, s_done, c_start,
  c_name, c_named, c_wait, c_take, c_wake, c_done, Sys, sys,
}

-- What comes back for a name: the file, or the message.
abbrev pub reply : Input → Bytes → Option Bytes → Bytes
reply w name none = name ++ (cant_open ++ w.text)
reply w name (some f) = f

abbrev pub wanted : Input → Bytes
wanted w = reply w (first_line 4080 w.line) (w.disk (first_line 4080 w.line))

-- Where the processes can be, and what is in the buffer; each of the two waits for the other in turn.
pub data Place (w : Input) : Sys → Type 0 where
  starting : {b u : Bytes} → Place w (sys s_start c_start 0 1 b u [])
  naming : {b u : Bytes} → Place w (sys s_start c_name 0 0 b u [])
  named : {b u : Bytes} → b ≡ first_line 4080 w.line → Place w (sys s_start c_named 0 0 b u [])
  told : {b u : Bytes} → b ≡ first_line 4080 w.line → Place w (sys s_start c_wait 1 0 b u [])
  opening : {b u : Bytes} → b ≡ first_line 4080 w.line → Place w (sys s_open c_wait 0 0 b u [])
  reading : {b u o : Bytes} → wanted w ≡ o ++ u → Place w (sys s_read c_wait 0 0 b u o)
  signalling :
      {b u o : Bytes} → b ≢ [] → wanted w ≡ o ++ (b ++ u) → Place w (sys s_signal c_wait 0 0 b u o)
  reporting : {b u o : Bytes} → b ≢ [] → wanted w ≡ o ++ b → Place w (sys s_report c_wait 0 0 b u o)
  clearing : {b u o : Bytes} → wanted w ≡ o → Place w (sys s_last c_wait 0 0 b u o)
  ending : {b u o : Bytes} → b ≡ [] → wanted w ≡ o → Place w (sys s_end c_wait 0 0 b u o)
  sent_part :
      {b u o : Bytes} → b ≢ [] → wanted w ≡ o ++ (b ++ u) → Place w (sys s_wait c_wait 0 1 b u o)
  sent_report :
      {b u o : Bytes} → b ≢ [] → wanted w ≡ o ++ b → Place w (sys s_again c_wait 0 1 b u o)
  sent_end : {b u o : Bytes} → b ≡ [] → wanted w ≡ o → Place w (sys s_done c_wait 0 1 b u o)
  taking_part :
      {b u o : Bytes} → b ≢ [] → wanted w ≡ o ++ (b ++ u) → Place w (sys s_wait c_take 0 0 b u o)
  taking_report :
      {b u o : Bytes} → b ≢ [] → wanted w ≡ o ++ b → Place w (sys s_again c_take 0 0 b u o)
  taking_end : {b u o : Bytes} → b ≡ [] → wanted w ≡ o → Place w (sys s_done c_take 0 0 b u o)
  written_part : {b u o : Bytes} → wanted w ≡ o ++ u → Place w (sys s_wait c_wake 0 0 b u o)
  written_report : {b u o : Bytes} → wanted w ≡ o → Place w (sys s_again c_wake 0 0 b u o)
  back_part : {b u o : Bytes} → wanted w ≡ o ++ u → Place w (sys s_wait c_wait 1 0 b u o)
  back_report : {b u o : Bytes} → wanted w ≡ o → Place w (sys s_again c_wait 1 0 b u o)
  over : {b u o : Bytes} → wanted w ≡ o → Place w (sys s_done c_done 0 0 b u o)
