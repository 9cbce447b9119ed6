-- ===== src/Base/Texts.antt =====
-- Strings and byte strings, as lists of their code units or bytes, as the keys of maps.
use Prim.Native.Nat.{ℕ}
use mathlib.Core.Path.{◌≡◌, refl, subst}
use mathlib.Core.Logic.{◌↔◌}
use mathlib.Core.Bool.{Bool, true, false, ◌&&◌}
use mathlib.Core.List.{List, [], ◌∷◌}
use native.Mathlib.Omega.{arith}
use moq_web.Base.Tests.{◌==◌}
use moq_web.Base.Maps.{Keys}

abbrev pub Text : Type 0
Text = List ℕ

abbrev pub same_text : Text → Text → Bool
same_text [] [] = true
same_text (a ∷ s) (b ∷ t) = (a == b) && same_text s t
same_text [] (b ∷ t) = false
same_text (a ∷ s) [] = false

same_text_refl : (s : Text) → same_text s s ≡ true
same_text_refl [] = refl
same_text_refl (a ∷ s) = ground (arith, same_text_refl s)

same_text-eq : (s t : Text) → same_text s t ≡ true → s ≡ t
same_text-eq [] [] h = refl
same_text-eq (a ∷ s) (b ∷ t) h =
    let head : a ≡ b = ground arith in
    let tail : same_text s t ≡ true = ground arith in λ i. head i ∷ same_text-eq s t tail i
same_text-eq [] (b ∷ t) h = absurd (ground arith)
same_text-eq (a ∷ s) [] h = absurd (ground arith)

pub same_text_iff : (s t : Text) → (same_text s t ≡ true) ↔ (s ≡ t)
same_text_iff s t =
    (same_text-eq s t, λ e. subst (λ (u : Text). same_text s u ≡ true) e (same_text_refl s))

abbrev pub by_text : Keys Text
by_text = record { same = same_text; same_iff = same_text_iff }
