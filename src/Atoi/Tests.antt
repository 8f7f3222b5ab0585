-- ===== src/Atoi/Tests.antt =====
-- A run of atoi on the text " -42.".
use tiny_os.Common.{ℕ, ◌≡◌, refl, some, [], ◌∷◌, ◌==◌, if◌then◌else◌, arith}
use tiny_os.Common.Integers.{negsuc}
use tiny_os.Atoi.{atoi}
use tiny_os.Atoi.Decimal.{minus, word32, atoi-number}

abbrev text : ℕ → ℕ
text p =
    if p == 100
    then 32
    else if p == 101
    then 45
    else if p == 102
    then 52
    else if p == 103
    then 50
    else 46

atoi-number_example : atoi 3 text 100 ≡ some (word32 (negsuc 41))
atoi-number_example =
    atoi-number text 3 (32 ∷ []) minus 52 (50 ∷ []) 100 104 refl (omega arith) (omega arith)
      (refl, tt) (refl, (refl, tt)) (refl, (refl, (refl, (refl, refl)))) refl
