-- ===== src/UdpLog/Tests.antt =====
-- One message, and a failure behind it.
use unix_network_programming.Base.{◌≡◌, none, true, [], ◌∷◌, ◌++◌, arith}
use unix_network_programming.Transfer.{Bytes}
use unix_network_programming.UdpLog.{logged, overrun, log_all}
use unix_network_programming.UdpLog.Bounds.{messages, log_all-bounds}

abbrev hi : Bytes
hi = b'h' ∷ b'i' ∷ []

log_all-bounds_example :
    (log_all (messages (hi ∷ [])) [] 0 ≡ logged (b'h' ∷ b'i' ∷ b'\n' ∷ []) 1)
    × (log_all (messages (hi ∷ []) ++ (record { answer = none; inet = true } ∷ [])) [] 0
        ≡ overrun (b'h' ∷ b'i' ∷ b'\n' ∷ []))
log_all-bounds_example = log_all-bounds (hi ∷ []) none [] [] 0 (omega arith) tt
