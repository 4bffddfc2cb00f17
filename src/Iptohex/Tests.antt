-- ===== src/Iptohex/Tests.antt =====
-- The theorems of iptohex.c on the address 1.2.3.4.
use unix_network_programming.Base.{◌<◌, ◌≡◌, ◌⊎◌, [], ◌∷◌}
use unix_network_programming.Iptohex.{main, failed}
use unix_network_programming.Iptohex.Binary.{Shown, main-Shown}

main-Shown_example :
    ((1 < 256)
      × (2 < 256)
      × (3 < 256)
      × (4 < 256)
      × Shown (1 ∷ 2 ∷ 3 ∷ 4 ∷ []) (main (1 ∷ 2 ∷ 3 ∷ 4 ∷ [])))
    ⊎ ((main (1 ∷ 2 ∷ 3 ∷ 4 ∷ []) ≡ failed) × ((255 < 1) ⊎ (255 < 2) ⊎ (255 < 3) ⊎ (255 < 4)))
main-Shown_example = main-Shown 1 2 3 4
