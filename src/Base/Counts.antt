-- ===== src/Base/Counts.antt =====
-- Lists of pointers that are held: how often a pointer is held, and giving one back.
use Prim.Native.Nat.{ℕ, ◌+◌, ◌-◌}
use mathlib.Core.Path.{◌≡◌, refl}
use mathlib.Core.Logic.{◌≢◌, inl, inr}
use mathlib.Core.List.{List, [], ◌∷◌}
use native.Mathlib.Omega.{arith}
use sleep_e_pingpong.Base.Tests.{◌==◌, if◌then◌else◌, Bool-cases}

abbrev pub count : ℕ → List ℕ → ℕ
count i [] = 0
count i (j ∷ js) = (if i == j then 1 else 0) + count i js

abbrev pub drop_one : ℕ → List ℕ → List ℕ
drop_one i [] = []
drop_one i (j ∷ js) = if i == j then js else j ∷ drop_one i js

pub count-drop_one :
    (i k : ℕ) (js : List ℕ)
    → count i js ≢ 0
    → count k (drop_one i js) ≡ count k js - (if k == i then 1 else 0)
count-drop_one i k [] h = absurd (h refl)
count-drop_one i k (j ∷ js) h = elim (Bool-cases (i == j)) [
  | inl e ↦ let here : i ≡ j = ground arith in rw e (ground arith)
  | inr e ↦ let rest = count-drop_one i k js (ground arith) in rw e (ground arith)
]
