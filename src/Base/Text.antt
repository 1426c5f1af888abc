-- ===== src/Base/Text.antt =====
-- Texts that are only compared: addresses, names, error texts.
use Prim.Native.String.{String}
use mathlib.Core.Path.{◌≡◌, refl}
use mathlib.Core.Bool.{Bool, true, false, false≢true}
use text.Mathlib.Text.{◌==◌}
use text.Mathlib.TextEquality.{eq_iff}

dec_of_test : (a b : String) (t : Bool) → (a == b) ≡ t → Dec (a ≡ b)
dec_of_test a b true e = yes ((eq_iff a b).0 e)
dec_of_test a b false e = no (λ p. false≢true (rw e at ((eq_iff a b).1 p)))

-- A decision, so that the tactics read what a test says of the two texts.
unfoldable pub str_dec : Discrete String
unfolding dec_of_test
str_dec a b = dec_of_test a b (a == b) refl

abbrev pub str_eq : String → String → Bool
str_eq a b = elim (str_dec a b) [ yes _ ↦ true | no _ ↦ false ]
